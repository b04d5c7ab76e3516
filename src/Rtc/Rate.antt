-- ===== src/Rtc/Rate.antt =====
-- Which frequencies `rtc_write` takes, and the rate that it computes.
use cl_os.Prelude.{
  ℕ, zero, suc, ◌-◌, ◌/◌, ◌%◌, ◌^◌, ◌≤◌, ◌<◌, ◌≡◌, ◌≢◌, ◌↔◌, refl, ◌==◌, ltb, leb, ◌&&◌, ◌||◌,
  Option, none, some, Bool, true, false, arith, lt_or_ge, inl, inr, Bool-cases, not,
}
use native.Mathlib.Nat.{pow-suc}
use cl_os.Prelude.Bits.{all_below, all_below_sound}
use cl_os.Rtc.{odd_part, rate_from, check_rate, rtc_rate, exceeds_one, odd_fuel, rate_fuel}

-- The loop that divides by two ends: a number below 2 ^ fuel leaves it within the fuel.
odd_part_total :
    (fuel bound tmp : ℕ)
    → tmp < bound
    → bound ≡ 2 ^ fuel
    → (r : ℕ) × (odd_part (suc fuel) tmp ≡ some r)
unfolding odd_part
odd_part_total zero bound tmp h e = (tmp, ground arith)
odd_part_total (suc fuel) bound tmp h e = elim (Bool-cases (exceeds_one tmp && tmp % 2 == 0)) [
  | inl go ↦
      let (r, q) =
        odd_part_total fuel (2 ^ fuel) (tmp / 2) (omega (arith, e, pow-suc 2 fuel)) refl in
      (r, rw go q)
  | inr stop ↦ (tmp, rw stop)
]

-- The rate 16 - k belongs to the frequency 2 ^ k.
abbrev is_rate_of : ℕ → ℕ → Bool
is_rate_of freq rate = freq == 2 ^ (16 - rate) && (leb 6 rate && leb rate 15)

abbrev is_some_some : Option (Option ℕ) → ℕ → Bool
is_some_some (some (some r)) rate = r == rate
is_some_some _ rate = false

abbrev same : Bool → Bool → Bool
same true b = b
same false b = not b

rate_table :
    all_below 1025 (λ freq.
      all_below 16 (λ rate.
        same (is_some_some (rtc_rate odd_fuel rate_fuel freq) rate) (is_rate_of freq rate)))
    ≡ true
unfolding all_below rtc_rate odd_part check_rate rate_from
rate_table = refl

abbrev is_total : Option (Option ℕ) → Bool
is_total (some (some r)) = ltb r 16
is_total (some none) = true
is_total none = false

total_table : all_below 1025 (λ freq. is_total (rtc_rate odd_fuel rate_fuel freq)) ≡ true
unfolding all_below rtc_rate odd_part check_rate rate_from
total_table = refl

-- Above 1024 the code refuses the frequency before it looks for a rate.
check_rate_high : (freq tmp : ℕ) → 1024 < freq → check_rate rate_fuel freq tmp ≡ some none
unfolding check_rate
check_rate_high freq tmp h = ground arith

rtc_rate_above :
    (freq : ℕ) → 1024 < freq → freq < 2 ^ 32 → rtc_rate odd_fuel rate_fuel freq ≡ some none
unfolding rtc_rate
rtc_rate_above freq h l =
    let (tmp, q) = odd_part_total 32 (2 ^ 32) freq l refl in
    rw (q, rtc_rate) (check_rate_high freq tmp h)

low_table : all_below 16 (λ rate. ltb rate 6 || ltb (2 ^ (16 - rate)) 1025) ≡ true
unfolding all_below
low_table = refl

rate_low : (rate : ℕ) → 6 ≤ rate → rate ≤ 15 → 2 ^ (16 - rate) ≤ 1024
rate_low rate lo hi = ground (
  arith,
  all_below_sound 16 (λ rate. ltb rate 6 || ltb (2 ^ (16 - rate)) 1025) rate low_table
      (omega arith),
)

-- A 32-bit frequency is taken exactly when it is a power of two
-- from 2 to 1024, and the rate is then 16 less the exponent.
pub rtc_rate_iff :
    (freq rate : ℕ)
    → freq < 2 ^ 32
    → (rtc_rate odd_fuel rate_fuel freq ≡ some (some rate))
      ↔ ((freq ≡ 2 ^ (16 - rate)) × (6 ≤ rate) × (rate ≤ 15))
rtc_rate_iff freq rate l = elim (lt_or_ge 1024 freq) [
  | inl h ↦ ground (arith, rtc_rate_above freq h l, rate_low rate)
  | inr h ↦ elim (lt_or_ge rate 16) [
    | inl r ↦ ground (
      arith,
      all_below_sound 16
          (λ r. same (is_some_some (rtc_rate odd_fuel rate_fuel freq) r) (is_rate_of freq r)) rate
          (all_below_sound 1025 _ freq rate_table (omega arith)) r,
    )
    | inr r ↦ ground (
      arith,
      all_below_sound 1025 (λ freq. is_total (rtc_rate odd_fuel rate_fuel freq)) freq total_table,
    )
  ]
]

pub rtc_rate_of :
    (rate : ℕ)
    → 6 ≤ rate
    → rate ≤ 15
    → rtc_rate odd_fuel rate_fuel (2 ^ (16 - rate)) ≡ some (some rate)
rtc_rate_of rate lo hi =
    (rtc_rate_iff (2 ^ (16 - rate)) rate (omega (arith, rate_low rate lo hi))).1 (refl, lo, hi)

-- Every 32-bit frequency is decided within the fuel.
pub rtc_rate_total : (freq : ℕ) → freq < 2 ^ 32 → rtc_rate odd_fuel rate_fuel freq ≢ none
rtc_rate_total freq l = elim (lt_or_ge 1024 freq) [
  | inl h ↦ ground (arith, rtc_rate_above freq h l)
  | inr h ↦ ground (
    arith,
    all_below_sound 1025 (λ freq. is_total (rtc_rate odd_fuel rate_fuel freq)) freq total_table,
  )
]
