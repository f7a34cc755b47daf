-- ===== src/Util/UuidUtil.antt =====
-- util/uuid_util.c. libuuid is a parameter: its generators, on the state they read, and the text of an
-- identifier.
use crinha.Prelude.{
  ℕ, ◌≤◌, ◌≡◌, List, [], ◌∷◌, ◌++◌, length, Exec, ok, ◌>>=◌, refl, ap, ◌∙◌, append_assoc,
  append-nil, length-append, arith,
}
use crinha.Clib.Memory.{write_at, c_str, IsText}
use crinha.Clib.Memory.Copy.{write_at-fits, c_str-append}

pub record Libuuid : Type 1 where
  pub Entropy : Type 0
  pub generate_random : Entropy → List ℕ × Entropy
  pub generate_time : Entropy → List ℕ × Entropy
  pub unparse_lower : List ℕ → List ℕ

module _ (lib : Libuuid) where
  open lib use {Entropy, generate_random, generate_time, unparse_lower}

  -- `uuid_unparse_lower` writes the text and a NUL into the caller's buffer.
  unfoldable pub unparse_into : List ℕ → List ℕ × Entropy → Exec (List ℕ × Entropy)
  unparse_into uuid (binuuid, e) =
      write_at uuid 0 (unparse_lower binuuid ++ 0 ∷ []) >>= λ written. ok (written, e)

  unfoldable pub uuid_util_generate_random : List ℕ → Entropy → Exec (List ℕ × Entropy)
  unfolding unparse_into
  uuid_util_generate_random uuid e = unparse_into uuid (generate_random e)

  unfoldable pub uuid_util_generate_time : List ℕ → Entropy → Exec (List ℕ × Entropy)
  unfolding unparse_into
  uuid_util_generate_time uuid e = unparse_into uuid (generate_time e)

-- The documentation of uuid_unparse: 36 characters, and a NUL behind them.
pub record Unparses (lib : Libuuid) : Type 0 where
  pub size : (binuuid : List ℕ) → length (lib.unparse_lower binuuid) ≡ 36
  pub is_text : (binuuid : List ℕ) → IsText (lib.unparse_lower binuuid)

module _ (lib : Libuuid) (unparses : Unparses lib) where
  unparse_into-fits :
      (uuid binuuid : List ℕ) (e : lib.Entropy)
      → 37 ≤ length uuid
      → (written : List ℕ) × (unparse_into lib uuid (binuuid, e) ≡ ok (written, e))
        × (c_str written ≡ lib.unparse_lower binuuid)
  unfolding unparse_into
  unparse_into-fits uuid binuuid e room =
      let text = lib.unparse_lower binuuid in
      let size = length-append text (0 ∷ []) in
      let (rest, h) =
        write_at-fits uuid 0 (text ++ 0 ∷ []) (omega (arith, size, unparses.size binuuid, room)) in
      (
        (text ++ 0 ∷ []) ++ rest,
        rw h refl,
        ap c_str (append_assoc text (0 ∷ []) rest)
            ∙ c_str-append text (0 ∷ rest) (unparses.is_text binuuid)
            ∙ append-nil text,
      )

  -- A buffer of 37 bytes takes an identifier of either kind: it holds the text of what libuuid has
  -- generated (36 characters).
  pub uuid_util_generate-fits :
      (uuid : List ℕ) (e : lib.Entropy)
      → 37 ≤ length uuid
      → ((written : List ℕ) × (uuid_util_generate_random lib uuid e
            ≡ ok (written, (lib.generate_random e).1))
          × (c_str written ≡ lib.unparse_lower (lib.generate_random e).0))
        × ((written : List ℕ) × (uuid_util_generate_time lib uuid e
              ≡ ok (written, (lib.generate_time e).1))
            × (c_str written ≡ lib.unparse_lower (lib.generate_time e).0))
  unfolding uuid_util_generate_random uuid_util_generate_time
  uuid_util_generate-fits uuid e room = (
    unparse_into-fits uuid (lib.generate_random e).0 (lib.generate_random e).1 room,
    unparse_into-fits uuid (lib.generate_time e).0 (lib.generate_time e).1 room,
  )
