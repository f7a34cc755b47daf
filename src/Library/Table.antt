-- ===== src/Library/Table.antt =====
-- include/llhttp.h: the tables `…_MAP(XX)` of numbers and names.
use crinha.Prelude.{ℕ, ◌==◌, Option, none, some, if◌then◌else◌, List, [], ◌∷◌}

-- XX(num, name, string)
pub data Row : Type 0 where
  row : ℕ → List ℕ → List ℕ → Row

-- The text of the row with a number.
abbrev pub text_of : ℕ → List Row → Option (List ℕ)
text_of n [] = none
text_of n (row k name text ∷ rows) = if k == n then some text else text_of n rows
