-- ===== src/Numbers/Digits.antt =====
-- What `itoa` writes: the digits of the number, the highest first.
use native.Mathlib.Nat.{
  pow-zero, pow-suc, div-div-eq-div-mul, div-lt_iff_lt-mul, le-div_iff_mul-le, div-one,
  pow-le-pow_right, pow-le-pow_left, zero-div, zero-mod, div-eq_of_lt, div-add-mod, mod-lt,
}
use cl_os.Prelude.{
  ℕ, zero, suc, ◌+◌, ◌-◌, ◌*◌, ◌/◌, ◌%◌, ◌^◌, ◌≤◌, ◌<◌, ◌≡◌, ◌≢◌, ◌⊎◌, inl, inr, ap, sym, ◌∙◌, refl,
  ltb, ◌==◌, leb, ◌||◌, false, if◌then◌else◌, Mem, store, some, arith, lt_or_ge, eq_or_ne, ne→==,
}
use cl_os.Strings.Copy.{EndsAt}
use cl_os.Numbers.{lookup, digits_from, itoa}
use cl_os.Numbers.Reverse.{strrev_lem}

-- The `d` digits of `v` stand in `r` from index `i` on, the lowest first, and a NUL behind them.
record Written (buf : Mem) (i v radix d : ℕ) (r : Mem) : Type 0 where
  below : (j : ℕ) → j < i → r j ≡ buf j
  digit : (j : ℕ) → j < d → r (i + j) ≡ lookup (v / radix ^ j % radix)
  nul : r (i + d) ≡ 0
  above : (j : ℕ) → i + d < j → r j ≡ buf j
  bound : v < radix ^ d
  least : (d ≡ 0) ⊎ (radix ^ (d - 1) ≤ v)

quotient_bound : (v radix k : ℕ) → 0 < radix → v < radix ^ suc k → v / radix < radix ^ k
quotient_bound v radix k h l = (div-lt_iff_lt-mul h).1 (omega (arith, pow-suc radix k))

Written-step :
    (buf : Mem) (i v radix d : ℕ) (r : Mem)
    → 1 < radix
    → 0 < v
    → Written (store buf i (lookup (v % radix))) (i + 1) (v / radix) radix d r
    → Written buf i v radix (suc d) r
Written-step buf i v radix d r h p w = record {
  below = λ j l. ground (arith, w.below j (omega arith));
  digit = digits;
  nul = ap r (i_suc d) ∙ w.nul;
  above = λ j l. ground (arith, w.above j (omega arith));
  bound = omega (
    arith,
    pow-suc radix d,
    (div-lt_iff_lt-mul {k = radix} {x = v} {y = radix ^ d} (omega arith)).0 w.bound,
  );
  least = inr (omega (arith, least w.least, ap (λ (x : ℕ). radix ^ x) same_d));
}
  where
    i_suc : (j : ℕ) → i + suc j ≡ i + 1 + j
    i_suc j = omega arith

    i_zero : i + 0 ≡ i
    i_zero = omega arith

    power_comm : (j : ℕ) → radix * radix ^ j ≡ radix ^ suc j
    power_comm j = omega (arith, pow-suc radix j)

    digits : (j : ℕ) → j < suc d → r (i + j) ≡ lookup (v / radix ^ j % radix)
    digits zero l =
        ap r i_zero
        ∙ ground (arith, w.below i (omega arith))
        ∙ ap (λ x. lookup (x % radix)) (sym (div-one v) ∙ ap (λ x. v / x) (sym (pow-zero radix)))
    digits (suc j) l =
        ap r (i_suc j)
        ∙ w.digit j (omega arith)
        ∙ ap (λ x. lookup (x % radix))
            (div-div-eq-div-mul v radix (radix ^ j) ∙ ap (λ x. v / x) (power_comm j))

    last : d ≢ 0 → suc (d - 1) ≡ d
    last ne = omega arith

    same_d : suc d - 1 ≡ d
    same_d = omega arith

    none_yet : d ≡ 0 → radix ^ d ≤ v
    none_yet e = omega (arith, ap (λ (x : ℕ). radix ^ x) e, pow-zero radix)

    least : (d ≡ 0) ⊎ (radix ^ (d - 1) ≤ v / radix) → radix ^ d ≤ v
    least (inl e) = none_yet e
    least (inr q) = elim (eq_or_ne d 0) [
      | inl e ↦ none_yet e
      | inr ne ↦ omega (
        arith,
        (le-div_iff_mul-le {k = radix} {x = radix ^ (d - 1)} {y = v} (omega arith)).0 q,
        pow-suc radix (d - 1),
        ap (λ (x : ℕ). radix ^ x) (last ne),
      )
    ]

zero_Written : (buf : Mem) (i v radix : ℕ) → v ≡ 0 → Written buf i v radix 0 (store buf i 0)
zero_Written buf i v radix e = record {
  below = λ j l. ground arith;
  digit = λ j l. absurd (omega arith);
  nul = ground arith;
  above = λ j l. ground arith;
  bound = omega (arith, e, pow-zero radix);
  least = inl refl;
}

-- Where nothing is left to write.
digits_from_none :
    (fuel : ℕ) (buf : Mem) (i v radix : ℕ)
    → v ≡ 0
    → digits_from (suc fuel) buf i v radix ≡ some (store buf i 0)
unfolding digits_from
digits_from_none fuel buf i v radix e = ground (arith, e)

-- The radix is no 0 and the digit is in the table.
in_table : (v radix : ℕ) → 1 < radix → radix ≤ 36 → (radix == 0 || leb 36 (v % radix)) ≡ false
in_table v radix h t = ground (arith, mod-lt v {m = radix} (omega arith))

digits_from_lem :
    (fuel k : ℕ) (buf : Mem) (i v radix : ℕ)
    → 1 < radix
    → radix ≤ 36
    → v < radix ^ k
    → k < fuel
    → (d : ℕ) × (r : Mem) × (digits_from fuel buf i v radix ≡ some r) × Written buf i v radix d r
unfolding digits_from
digits_from_lem zero k buf i v radix h t b l = absurd (omega arith)
digits_from_lem (suc fuel) zero buf i v radix h t b l = (
  0,
  store buf i 0,
  digits_from_none fuel buf i v radix (omega (arith, b, pow-zero radix)),
  zero_Written buf i v radix (omega (arith, b, pow-zero radix)),
)
digits_from_lem (suc fuel) (suc k) buf i v radix h t b l = elim (eq_or_ne v 0) [
  | inl e ↦ (0, store buf i 0, digits_from_none fuel buf i v radix e, zero_Written buf i v radix e)
  | inr ne ↦
      let (d, r, e, w) =
        digits_from_lem fuel k (store buf i (lookup (v % radix))) (i + 1) (v / radix) radix h t
          (quotient_bound v radix k (omega arith) b) (omega arith) in
      (
        suc d,
        r,
        rw (in_table v radix h t, e) (ground arith),
        Written-step buf i v radix d r h (omega arith) w,
      )
]

-- `r` holds the `d` digits of `v`, the highest first and none in vain, and a NUL; the rest is as in `buf`.
pub record IsNumeral (buf : Mem) (v radix d : ℕ) (r : Mem) : Type 0 where
  pub positive : 0 < d
  pub digit : (j : ℕ) → j < d → r j ≡ lookup (v / radix ^ (d - 1 - j) % radix)
  pub nul : r d ≡ 0
  pub above : (j : ℕ) → d < j → r j ≡ buf j
  pub bound : v < radix ^ d
  pub least : (d ≡ 1) ⊎ (radix ^ (d - 1) ≤ v)

lookup_full : (i : ℕ) → lookup i ≢ 0
lookup_full i e = absurd (ground (arith, e))

pub IsNumeral-EndsAt : {buf r : Mem} {v radix d : ℕ} → IsNumeral buf v radix d r → EndsAt r 0 d
IsNumeral-EndsAt {buf} {r} {v} {radix} {d} n = record {
  later = omega arith;
  nul = n.nul;
  full = λ j p q e. lookup_full (v / radix ^ (d - 1 - j) % radix) (sym (n.digit j q) ∙ e);
}

zero_plus : (j : ℕ) → 0 + j ≡ j
zero_plus j = omega arith

Written-EndsAt : (buf r : Mem) (v radix d : ℕ) → Written buf 0 v radix d r → EndsAt r 0 d
Written-EndsAt buf r v radix d w = record {
  later = omega arith;
  nul = ap r (sym (zero_plus d)) ∙ w.nul;
  full =
      λ j p q e. lookup_full (v / radix ^ j % radix) (sym (w.digit j q) ∙ ap r (zero_plus j) ∙ e);
}

-- The number of digits.
digits_bound : (v radix d k : ℕ) → 1 < radix → v < radix ^ k → radix ^ (d - 1) ≤ v → d ≤ k
digits_bound v radix d k h b l = elim (lt_or_ge (d - 1) k) [
  | inl lt ↦ omega arith
  | inr ge ↦
      absurd (omega (arith, pow-le-pow_right {n = radix} (omega arith) {i = k} {j = d - 1} ge))
]

zero_digit : (v radix x : ℕ) → v ≡ 0 → lookup (v / x % radix) ≡ b'0'
zero_digit v radix x e =
    ap (λ v. lookup (v / x % radix)) e
    ∙ ap (λ q. lookup (q % radix)) (zero-div x)
    ∙ ap lookup (zero-mod radix)

zero-IsNumeral :
    (buf : Mem) (v radix : ℕ)
    → 1 < radix
    → v ≡ 0
    → IsNumeral buf v radix 1 (store (store buf 0 b'0') 1 0)
zero-IsNumeral buf v radix h e = record {
  positive = omega arith;
  digit = λ j l. ground (arith, zero_digit v radix (radix ^ (1 - 1 - j)) e);
  nul = ground arith;
  above = λ j l. ground arith;
  bound = omega (arith, e, one_power);
  least = inl refl;
}
  where
    one_power : radix ^ 1 ≡ radix
    one_power = pow-suc radix 0 ∙ ap (λ (x : ℕ). x * radix) (pow-zero radix) ∙ omega arith

reversed-IsNumeral :
    (buf s r : Mem) (v radix d : ℕ)
    → 0 < v
    → Written buf 0 v radix d s
    → ((j : ℕ) → r j ≡ (if ltb j d then s (d - 1 - j) else s j))
    → IsNumeral buf v radix d r
reversed-IsNumeral buf s r v radix d p w h = record {
  positive = positive;
  digit = λ j l. ground (arith, h j, w.digit (d - 1 - j) (omega arith));
  nul = ground (arith, h d, w.nul);
  above = λ j l. ground (arith, h j, w.above j (omega arith));
  bound = w.bound;
  least = elim w.least [ inl e ↦ absurd (omega (arith, positive)) | inr q ↦ inr q ];
}
  where
    positive : 0 < d
    positive = elim (eq_or_ne d 0) [
      | inl e ↦ absurd (omega (arith, w.bound, ap (λ (x : ℕ). radix ^ x) e, pow-zero radix))
      | inr ne ↦ omega arith
    ]

-- In a radix of at most 36 `itoa` ends for a number below `radix ^ k` with more than `k` rounds of fuel, and leaves the numeral of the number in
-- `buf`: its digits, the highest first and no leading zero but for the number 0, and a NUL.
pub itoa_lem :
    (fuel k value radix : ℕ) (buf : Mem)
    → 1 < radix
    → radix ≤ 36
    → 1 ≤ k
    → value < radix ^ k
    → k < fuel
    → (d : ℕ) × (r : Mem) × (itoa fuel value buf radix ≡ some r)
      × IsNumeral buf value radix d r
      × (d ≤ k)
unfolding itoa
itoa_lem fuel k value radix buf h t p b l = elim (eq_or_ne value 0) [
  | inl e ↦
      (1, store (store buf 0 b'0') 1 0, ground (arith, e), zero-IsNumeral buf value radix h e, p)
  | inr ne ↦
      let (d, s, e, w) = digits_from_lem fuel k buf 0 value radix h t b l in
      let dk : d ≤ k = written_bound d w.least in
      let (r, e', h') = strrev_lem fuel d s (Written-EndsAt buf s value radix d w) (omega arith) in
      (
        d,
        r,
        rw (ne→== value 0 ne, itoa, e, itoa) e',
        reversed-IsNumeral buf s r value radix d (omega arith) w h',
        dk,
      )
]
  where
    written_bound : (d : ℕ) → (d ≡ 0) ⊎ (radix ^ (d - 1) ≤ value) → d ≤ k
    written_bound d (inl e) = omega arith
    written_bound d (inr q) = digits_bound value radix d k h b q

-- The value of a digit, and of the first `n` digits at `r`.
abbrev pub digit_of : ℕ → ℕ
digit_of c = if ltb c b'A' then c - b'0' else c - b'A' + 10

abbrev pub value_of : ℕ → Mem → ℕ → ℕ
value_of radix r zero = 0
value_of radix r (suc n) = radix * value_of radix r n + digit_of (r n)

digit_of-lookup : (i : ℕ) → digit_of (lookup i) ≡ i
digit_of-lookup i = ground arith

value_of-IsNumeral :
    (n : ℕ) {buf r : Mem} {v radix d : ℕ}
    → IsNumeral buf v radix d r
    → n ≤ d
    → value_of radix r n ≡ v / radix ^ (d - n)
value_of-IsNumeral zero {buf} {r} {v} {radix} {d} w l =
    sym (ap (λ x. v / radix ^ x) all ∙ div-eq_of_lt w.bound)
  where
    all : d - 0 ≡ d
    all = omega arith
value_of-IsNumeral (suc n) {buf} {r} {v} {radix} {d} w l =
    ap (λ x. radix * x + digit_of (r n)) (value_of-IsNumeral n w (omega arith))
    ∙ ap (λ c. radix * (v / radix ^ (d - n)) + digit_of c) (w.digit n (omega arith))
    ∙ ap (λ x. radix * (v / radix ^ (d - n)) + x)
        (digit_of-lookup (v / radix ^ (d - 1 - n) % radix))
    ∙ ap (λ x. radix * x + v / radix ^ (d - 1 - n) % radix) quotient
    ∙ div-add-mod (v / radix ^ (d - 1 - n)) radix
    ∙ ap (λ x. v / radix ^ x) index
  where
    index : d - 1 - n ≡ d - suc n
    index = omega arith

    exponent : d - n ≡ suc (d - 1 - n)
    exponent = omega arith

    quotient : v / radix ^ (d - n) ≡ v / radix ^ (d - 1 - n) / radix
    quotient =
        ap (λ x. v / radix ^ x) exponent
        ∙ ap (λ x. v / x) (pow-suc radix (d - 1 - n))
        ∙ sym (div-div-eq-div-mul v (radix ^ (d - 1 - n)) radix)

-- The numeral of a 32-bit number, and its length.
pub numeral_bounded :
    (fuel value radix : ℕ) (buf : Mem)
    → 1 < radix
    → radix ≤ 36
    → value < 2 ^ 32
    → 32 < fuel
    → (d : ℕ) × (r : Mem) × (itoa fuel value buf radix ≡ some r)
      × EndsAt r 0 d
      × (value_of radix r d ≡ value)
      × (d ≤ 32)
numeral_bounded fuel value radix buf h h' b l =
    let bound : value < radix ^ 32 = omega (arith, pow-le-pow_left {n = 2} {m = radix} h 32) in
    let (d, r, e, w, dk) = itoa_lem fuel 32 value radix buf h h' (omega arith) bound l in
    (
      d,
      r,
      e,
      IsNumeral-EndsAt w,
      value_of-IsNumeral d w (omega arith)
          ∙ ap (λ x. value / radix ^ x) (none_left d)
          ∙ ap (λ x. value / x) (pow-zero radix)
          ∙ div-one value,
      dk,
    )
  where
    none_left : (d : ℕ) → d - d ≡ 0
    none_left d = omega arith

-- Read as a numeral, what `itoa` writes of a 32-bit number in a base from 2 to 36 is that number: 33 rounds of fuel are
-- enough for each of them, and the text ends at its first NUL.
pub value_of-itoa :
    (fuel value radix : ℕ) (buf : Mem)
    → 1 < radix
    → radix ≤ 36
    → value < 2 ^ 32
    → 32 < fuel
    → (d : ℕ) × (r : Mem) × (itoa fuel value buf radix ≡ some r)
      × EndsAt r 0 d
      × (value_of radix r d ≡ value)
value_of-itoa fuel value radix buf h h' b l =
    let (d, r, e, w, v, short) = numeral_bounded fuel value radix buf h h' b l in (d, r, e, w, v)
