-- ===== src/Numbers/Reverse.antt =====
-- `strrev` reverses a string.
use cl_os.Prelude.{
  ℕ, zero, suc, ◌+◌, ◌-◌, ◌*◌, ◌<◌, ◌≡◌, inl, inr, ap, refl, ◌==◌, ltb, leb, ◌&&◌, if◌then◌else◌,
  Mem, some, arith, lt_or_ge,
}
use cl_os.Strings.Copy.{EndsAt, strlen_lem}
use cl_os.Numbers.{swap, reverse_from, strrev}

reverse_from_lem :
    (k : ℕ) (s : Mem) (b e j : ℕ)
    → e < b + 2 * k
    → reverse_from k s b e j ≡ (if leb b j && leb j e then s (b + e - j) else s j)
unfolding reverse_from
reverse_from_lem zero s b e j h = ground arith
reverse_from_lem (suc k) s b e j h = elim (lt_or_ge b e) [
  | inl l ↦
      ground
        (arith, reverse_from_lem k (swap s b e) (b + 1) (e - 1) j (omega arith), first, last, inner)
  | inr g ↦ ground (arith, alone)
]
  where
    first : j ≡ b → s (b + e - j) ≡ s e
    first q = ap s (omega arith)

    last : j ≡ e → s (b + e - j) ≡ s b
    last q = ap s (omega arith)

    inner : b < e → s (b + 1 + (e - 1) - j) ≡ s (b + e - j)
    inner l = ap s (omega arith)

    alone : j ≡ b → j ≡ e → s (b + e - j) ≡ s j
    alone p q = ap s (omega arith)

-- `strrev` ends, and the string of `l` characters is reversed in place; its NUL and what follows stay.
pub strrev_lem :
    (fuel l : ℕ) (s : Mem)
    → EndsAt s 0 l
    → l < fuel
    → (r : Mem) × (strrev fuel s ≡ some r)
      × ((j : ℕ) → r j ≡ (if ltb j l then s (l - 1 - j) else s j))
unfolding strrev
strrev_lem fuel l s e h = (
  (if l == 0 then s else reverse_from l s 0 (l - 1)),
  rw (strlen_lem fuel s l e h, strrev) refl,
  (λ j. ground (arith, reverse_from_lem l s 0 (l - 1) j)),
)
