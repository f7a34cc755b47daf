-- ===== src/Prelude/Text.antt =====
-- Texts of the source as bytes (they are ASCII), and joining them.
use Prim.Native.Char.{code}
use Prim.Native.String.{String}
use crinha.Prelude.Names.{ℕ, List, [], ◌∷◌, ◌++◌}

abbrev pub codes : String → List ℕ
codes String.[] = []
codes (String.◌∷◌ c s) = code c ∷ codes s

-- The pieces of a format string, its conversions replaced.
abbrev pub joined : List (List ℕ) → List ℕ
joined [] = []
joined (p ∷ ps) = p ++ joined ps
