-- ===== src/Printf/Convert.antt =====
-- The texts that `printf` makes of numbers.
use native.Mathlib.Nat.{pow-le-pow_right, div-eq_of_lt}
use cl_os.Prelude.{
  ℕ, zero, suc, ◌+◌, ◌-◌, ◌/◌, ◌%◌, ◌^◌, ◌≤◌, ◌<◌, ◌≡◌, inl, inr, ap, ◌∙◌, refl, ltb, leb, ◌&&◌,
  if◌then◌else◌, Mem, store, offset, some, arith, lt_or_ge, le→ltb, lt→ltb,
}
use cl_os.Strings.Copy.{EndsAt, strlen_lem}
use cl_os.Numbers.{lookup}
use cl_os.Numbers.Digits.{IsNumeral, IsNumeral-EndsAt, itoa_lem, value_of, value_of-itoa}
use cl_os.Printf.{splice, pad_zeros, convert_aligned, convert_signed}

pad_zeros_lem :
    (k : ℕ) (b : Mem) (i a : ℕ)
    → 8 ≤ i + k
    → pad_zeros k b i a ≡ (if leb i a && ltb a 8 then b'0' else b a)
unfolding pad_zeros
pad_zeros_lem zero b i a h = ground arith
pad_zeros_lem (suc k) b i a h =
    ground (arith, pad_zeros_lem k (store b i b'0') (i + 1) a (omega arith))

-- Digit `j` of the eight hexadecimal digits of a number.
abbrev pub hex_digits : ℕ → Mem
hex_digits value j = lookup (value / 16 ^ (7 - j) % 16)

-- A digit in front of the numeral is 0.
leading_zero : (value d j : ℕ) → value < 16 ^ d → d + j < 8 → hex_digits value j ≡ b'0'
leading_zero value d j h l =
    ap (λ q. lookup (q % 16))
      (div-eq_of_lt {n = value} {m = 16 ^ (7 - j)}
        (omega (arith, h, pow-le-pow_right {n = 16} (omega arith) (below d j l))))
  where
    below : (d j : ℕ) → d + j < 8 → d ≤ 7 - j
    below d j l = omega arith

aligned_digit :
    (value d j : ℕ) (conv r : Mem)
    → IsNumeral (offset conv 8) value 16 d r
    → d ≤ 8
    → j < 8
    → pad_zeros 8 (splice conv 8 r) d (d + j) ≡ hex_digits value j
aligned_digit value d j conv r n dk l = elim (lt_or_ge (d + j) 8) [
  | inl lt ↦ ground (
    arith,
    pad_zeros_lem 8 (splice conv 8 r) d (d + j) (omega arith),
    leading_zero value d j n.bound lt,
  )
  | inr ge ↦
      pad_zeros_lem 8 (splice conv 8 r) d (d + j) (omega arith)
      ∙ ground arith
      ∙ n.digit (d + j - 8) (omega arith)
      ∙ ap (λ x. lookup (value / 16 ^ x % 16)) (spot ge)
]
  where
    spot : 8 ≤ d + j → d - 1 - (d + j - 8) ≡ 7 - j
    spot ge = omega arith

-- For every 32-bit number the alternate hexadecimal format makes a text of its eight hexadecimal digits, the leading
-- zeros included, and a NUL.
pub convert_aligned_lem :
    (fuel value : ℕ) (conv_buf : Mem)
    → value < 2 ^ 32
    → 8 < fuel
    → (b : Mem) × (start : ℕ) × (convert_aligned fuel conv_buf value ≡ some (b, start))
      × ((j : ℕ) → j < 8 → b (start + j) ≡ hex_digits value j)
      × (b (start + 8) ≡ 0)
unfolding convert_aligned
convert_aligned_lem fuel value conv_buf h l =
    let (d, r, e, n, dk) =
      itoa_lem fuel 8 value 16 (offset conv_buf 8) (omega arith) (omega arith) (omega arith)
        (omega arith) l in
    (
      pad_zeros 8 (splice conv_buf 8 r) d,
      d,
      rw
          (
            e,
            convert_aligned,
            strlen_lem fuel r d (IsNumeral-EndsAt n) (omega arith),
            convert_aligned,
          )
          refl,
      (λ j lj. aligned_digit value d j conv_buf r n dk lj),
      ground (
        arith,
        pad_zeros_lem 8 (splice conv_buf 8 r) d (d + 8) (omega arith),
        ap r (same d),
        n.nul,
      ),
    )
  where
    same : (d : ℕ) → d + 8 - 8 ≡ d
    same d = omega arith

pub splice-EndsAt :
    (base r : Mem) (d : ℕ) → EndsAt r 0 d → base 0 ≡ b'-' → EndsAt (splice base 1 r) 0 (d + 1)
splice-EndsAt base r d e minus = record {
  later = omega arith;
  nul = ground (arith, e.nul, ap r same);
  full = λ j p q. ground (arith, minus, e.full (j - 1) (omega arith));
}
  where
    same : d + 1 - 1 ≡ d
    same = omega arith

value_of_cong :
    (radix n : ℕ) {r r' : Mem} → ((j : ℕ) → r j ≡ r' j) → value_of radix r n ≡ value_of radix r' n
value_of_cong radix zero h = refl
value_of_cong radix (suc n) h = ground (arith, value_of_cong radix n h, h n)

-- For every 32-bit word the signed format makes a text that ends: for a word below 2 ^ 31 a numeral of its value, and
-- otherwise a minus sign and a numeral of 2 ^ 32 less the word.
pub convert_signed_lem :
    (fuel value : ℕ) (conv_buf : Mem)
    → value < 2 ^ 32
    → 32 < fuel
    → (b : Mem) × (d : ℕ) × (convert_signed fuel conv_buf value ≡ some (b, 0))
      × EndsAt b 0 d
      × (if ltb value (2 ^ 31)
          then value_of 10 b d ≡ value
          else (b 0 ≡ b'-') × (value_of 10 (offset b 1) (d - 1) ≡ 2 ^ 32 - value))
unfolding convert_signed
convert_signed_lem fuel value conv_buf h l = elim (lt_or_ge value (2 ^ 31)) [
  | inl lt ↦
      let (d, r, e, ends, v) =
        value_of-itoa fuel value 10 conv_buf (omega arith) (omega arith) h l in
      (
        r,
        d,
        rw (lt→ltb value (2 ^ 31) lt, convert_signed, e) refl,
        ends,
        rw (lt→ltb value (2 ^ 31) lt) v,
      )
  | inr ge ↦
      let signed = store conv_buf 0 b'-' in
      let (d, r, e, ends, v) =
        value_of-itoa fuel (2 ^ 32 - value) 10 (offset signed 1) (omega arith) (omega arith)
          (omega arith) l in
      (
        splice signed 1 r,
        d + 1,
        rw (le→ltb value (2 ^ 31) ge, convert_signed, e) refl,
        splice-EndsAt signed r d ends refl,
        rw (le→ltb value (2 ^ 31) ge) (refl, digits signed r d ∙ v),
      )
]
  where
    digits :
        (base r : Mem) (d : ℕ)
        → value_of 10 (offset (splice base 1 r) 1) (d + 1 - 1) ≡ value_of 10 r d
    digits base r d =
        ap (value_of 10 (offset (splice base 1 r) 1)) (omega arith)
        ∙ value_of_cong 10 d (λ j. ground (arith, ap r (back j)))
      where
        back : (j : ℕ) → 1 + j - 1 ≡ j
        back j = omega arith
