-- ===== src/Programs/Grep/Search.antt =====
-- The search of `grep` in a line, against lists of characters.
use cl_os.Prelude.{ℕ, ◌==◌, if◌then◌else◌, Bool, true, false, List, [], ◌∷◌}

-- Whether the first text starts the second one, and whether it is a part of it.
abbrev pub is_prefix : List ℕ → List ℕ → Bool
is_prefix [] l = true
is_prefix (c ∷ p) [] = false
is_prefix (c ∷ p) (d ∷ l) = if c == d then is_prefix p l else false

abbrev pub contains : List ℕ → List ℕ → Bool
contains p [] = false
contains p (d ∷ l) = if is_prefix p (d ∷ l) then true else contains p l
