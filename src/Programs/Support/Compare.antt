-- ===== src/Programs/Support/Compare.antt =====
-- The user programs' strings: comparisons against lists of characters, and the routines that the kernel has too.
use cl_os.Prelude.{
  ℕ, zero, suc, ◌+◌, ◌<◌, ◌≤◌, ◌≡◌, ◌↔◌, refl, ap, ◌∙◌, ◌==◌, ◌!=◌, if◌then◌else◌, Bool, true,
  false, ℤ, pos, sub_ℕ, Mem, text, List, [], ◌∷◌, some, arith,
}
use cl_os.Terminal.Reading.{length}
use cl_os.Programs.Support.{compare_from, ece391_strcmp}

-- Characters that are not NUL.
abbrev pub is_full : List ℕ → Bool
is_full [] = true
is_full (c ∷ l) = if c != 0 then is_full l else false

-- The difference of the first characters that differ, where an end counts as 0.
abbrev pub compare_texts : List ℕ → List ℕ → ℤ
compare_texts [] [] = pos 0
compare_texts [] (d ∷ r) = sub_ℕ 0 d
compare_texts (c ∷ l) [] = pos c
compare_texts (c ∷ l) (d ∷ r) = let rest = compare_texts l r in if c == d then rest else sub_ℕ c d

compare_from_lem :
    (fuel : ℕ) (s1 s2 : Mem) (i : ℕ) (l r : List ℕ)
    → is_full l ≡ true
    → is_full r ≡ true
    → length l < fuel
    → ((j : ℕ) → j ≤ length l → s1 (i + j) ≡ text l j)
    → ((j : ℕ) → j ≤ length r → s2 (i + j) ≡ text r j)
    → compare_from fuel s1 s2 i ≡ some (compare_texts l r)
unfolding compare_from
compare_from_lem zero s1 s2 i l r fl fr h a b = absurd (omega arith)
compare_from_lem (suc fuel) s1 s2 i [] [] fl fr h a b =
    ground (arith, a 0 (omega arith), b 0 (omega arith), ap s1 (here i), ap s2 (here i))
  where
    here : (i : ℕ) → i + 0 ≡ i
    here i = omega arith
compare_from_lem (suc fuel) s1 s2 i [] (d ∷ r) fl fr h a b =
    ground (arith, a 0 (omega arith), b 0 (omega arith), ap s1 (here i), ap s2 (here i))
  where
    here : (i : ℕ) → i + 0 ≡ i
    here i = omega arith
compare_from_lem (suc fuel) s1 s2 i (c ∷ l) [] fl fr h a b =
    ground (arith, a 0 (omega arith), b 0 (omega arith), ap s1 (here i), ap s2 (here i))
  where
    here : (i : ℕ) → i + 0 ≡ i
    here i = omega arith
compare_from_lem (suc fuel) s1 s2 i (c ∷ l) (d ∷ r) fl fr h a b = ground (
  arith,
  a 0 (omega arith),
  b 0 (omega arith),
  ap s1 (here i),
  ap s2 (here i),
  compare_from_lem fuel s1 s2 (i + 1) l r (ground arith) (ground arith) (omega arith)
      (λ j p. ap s1 (next i j) ∙ a (suc j) (omega arith))
      (λ j p. ap s2 (next i j) ∙ b (suc j) (omega arith)),
)
  where
    here : (i : ℕ) → i + 0 ≡ i
    here i = omega arith

    next : (i j : ℕ) → i + 1 + j ≡ i + suc j
    next i j = omega arith

compare_texts_zero_iff :
    (l r : List ℕ) → is_full l ≡ true → is_full r ≡ true → (compare_texts l r ≡ pos 0) ↔ (l ≡ r)
compare_texts_zero_iff [] [] fl fr = ((λ e. refl), (λ e. refl))
compare_texts_zero_iff [] (d ∷ r) fl fr = ground arith
compare_texts_zero_iff (c ∷ l) [] fl fr = ground arith
compare_texts_zero_iff (c ∷ l) (d ∷ r) fl fr =
    let (e, e') = compare_texts_zero_iff l r (ground arith) (ground arith) in
    ((λ a. ground (arith, e)), (λ a. ground (arith, e')))

-- `ece391_strcmp` of two strings, with more fuel than the first one has characters: it ends with the
-- difference of the first characters that differ, and returns 0 exactly when the strings are the
-- same.
pub ece391_strcmp_lem :
    (fuel : ℕ) (s1 s2 : Mem) (l r : List ℕ)
    → is_full l ≡ true
    → is_full r ≡ true
    → length l < fuel
    → ((j : ℕ) → j ≤ length l → s1 j ≡ text l j)
    → ((j : ℕ) → j ≤ length r → s2 j ≡ text r j)
    → (ece391_strcmp fuel s1 s2 ≡ some (compare_texts l r))
      × ((compare_texts l r ≡ pos 0) ↔ (l ≡ r))
unfolding ece391_strcmp
ece391_strcmp_lem fuel s1 s2 l r fl fr h a b = (
  compare_from_lem fuel s1 s2 0 l r fl fr h (λ j p. ap s1 (start j) ∙ a j p)
      (λ j p. ap s2 (start j) ∙ b j p),
  compare_texts_zero_iff l r fl fr,
)
  where
    start : (j : ℕ) → 0 + j ≡ j
    start j = omega arith
