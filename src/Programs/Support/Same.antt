-- ===== src/Programs/Support/Same.antt =====
-- The routines that the kernel has too (filesIWorkedOn/lib.c).
use cl_os.Prelude.{
  ℕ, zero, suc, ◌+◌, ◌-◌, ◌/◌, ◌%◌, ◌≡◌, refl, ap, ◌==◌, leb, ◌<◌, ◌≤◌, ◌⊎◌, true, lt_or_ge,
  if◌then◌else◌, Mem, store, some, arith, inl, inr, Option-cases,
}
use cl_os.Prelude.Bits.{all_below, all_below_sound}
use cl_os.Strings.{strlen, strlen_from}
use cl_os.Numbers.{lookup, reverse_from, digits_from, strrev, itoa}
use cl_os.Programs.Support.{
  length_from, ece391_strlen, swap_from, ece391_strrev, digit_char, number_from, ece391_itoa,
}

length_from-strlen_from : (fuel : ℕ) (s : Mem) (i : ℕ) → length_from fuel s i ≡ strlen_from fuel s i
unfolding length_from strlen_from
length_from-strlen_from zero s i = refl
length_from-strlen_from (suc fuel) s i = ground (arith, length_from-strlen_from fuel s (i + 1))

pub ece391_strlen-strlen : (fuel : ℕ) (s : Mem) → ece391_strlen fuel s ≡ strlen fuel s
unfolding ece391_strlen strlen
ece391_strlen-strlen fuel s = length_from-strlen_from fuel s 0

swap_from-reverse_from :
    (k : ℕ) (s : Mem) (beg end : ℕ) → swap_from k s beg end ≡ reverse_from k s beg end
unfolding swap_from reverse_from
swap_from-reverse_from zero s beg end = refl
swap_from-reverse_from (suc k) s beg end =
    ground (
      arith,
      swap_from-reverse_from k (store (store s end (s beg)) beg (s end)) (beg + 1) (end - 1),
    )

reverse_one : (l : ℕ) (s : Mem) → reverse_from (suc zero) s 0 0 ≡ s
unfolding reverse_from
reverse_one l s = refl

-- `strrev` behind its length.
reversed :
    (l : ℕ) (s : Mem)
    → (if leb l 1 then s else swap_from l s 0 (l - 1))
      ≡ (if l == 0 then s else reverse_from l s 0 (l - 1))
unfolding reverse_from
reversed zero s = refl
reversed (suc zero) s = refl
reversed (suc (suc l)) s = ground (arith, swap_from-reverse_from (suc (suc l)) s 0 (suc l))

pub ece391_strrev-strrev : (fuel : ℕ) (s : Mem) → ece391_strrev fuel s ≡ strrev fuel s
unfolding ece391_strrev strrev
ece391_strrev-strrev fuel s = elim (Option-cases (strlen fuel s)) [
  | inl e ↦ rw (ece391_strlen-strlen fuel s, strrev, e) refl
  | inr (l, e) ↦ rw (ece391_strlen-strlen fuel s, e, strrev) (ap some (reversed l s))
]

same_digits : all_below 36 (λ i. digit_char i == lookup i) ≡ true
unfolding all_below
same_digits = refl

-- The two tables.
digit_char-lookup : (i : ℕ) → i < 36 → digit_char i ≡ lookup i
digit_char-lookup i h =
    ground (arith, all_below_sound 36 (λ j. digit_char j == lookup j) i same_digits h)

under_or_leb : (i : ℕ) → (i < 36) ⊎ (leb 36 i ≡ true)
under_or_leb i = elim (lt_or_ge i 36) [ inl h ↦ inl h | inr h ↦ inr (ground (arith, h)) ]

number_from-digits_from :
    (fuel : ℕ) (buf : Mem) (i n radix : ℕ)
    → number_from fuel buf i n radix ≡ digits_from fuel buf i n radix
unfolding number_from digits_from
number_from-digits_from zero buf i n radix = refl
number_from-digits_from (suc fuel) buf i n radix = elim (under_or_leb (n % radix)) [
  | inl h ↦ rw (digit_char-lookup (n % radix) h) ground (
    arith,
    number_from-digits_from fuel (store buf i (lookup (n % radix))) (i + 1) (n / radix) radix,
  )
  | inr h ↦ ground (arith, h)
]

-- The number printing of the user programs is the kernel's, though each has a table, a reversal and a test of the length
-- of its own: the same bytes in the buffer for every number, every radix from 2 to 36 and every buffer.
pub ece391_itoa-itoa :
    (fuel value : ℕ) (buf : Mem) (radix : ℕ)
    → 2 ≤ radix
    → radix ≤ 36
    → ece391_itoa fuel value buf radix ≡ itoa fuel value buf radix
unfolding ece391_itoa itoa
ece391_itoa-itoa fuel value buf radix low high =
    let same = number_from-digits_from fuel buf 0 value radix in
    elim (Option-cases (digits_from fuel buf 0 value radix)) [
      | inl e ↦ ground (arith, same, e)
      | inr (b, e) ↦ ground (arith, same, e, ece391_strrev-strrev fuel b)
    ]
