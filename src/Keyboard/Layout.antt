-- ===== src/Keyboard/Layout.antt =====
-- Which characters the keys give.
use cl_os.Prelude.{
  ℕ, ◌≤◌, ◌<◌, ◌≡◌, ◌≢◌, refl, ◌==◌, ◌!=◌, ltb, leb, ◌&&◌, if◌then◌else◌, Bool, true, false, arith,
}
use cl_os.Prelude.Bits.{all_below, all_below_sound}
use cl_os.Keyboard.{scan2_let, key_letter}

abbrev is_shown : ℕ → Bool
is_shown c = leb 0x20 c && ltb c 0x7f

abbrev same_key : ℕ → ℕ → Bool
same_key k l =
    if scan2_let 0 k == scan2_let 0 l && (is_shown (scan2_let 0 k) && (scan2_let 0 k != b'-'))
    then k == l
    else true

layout_table : all_below 90 (λ k. all_below 90 (λ l. same_key k l)) ≡ true
unfolding all_below scan2_let
layout_table = refl

-- Of the first 90 scan codes, the others have no key, no two give the same printable character, but for the minus
-- sign, which has two keys.
pub scan2_let_injective :
    (k l : ℕ)
    → k < 90
    → l < 90
    → scan2_let 0 k ≡ scan2_let 0 l
    → 0x20 ≤ scan2_let 0 k
    → scan2_let 0 k < 0x7f
    → scan2_let 0 k ≢ b'-'
    → k ≡ l
scan2_let_injective k l hk hl e lo hi ne =
    ground
      (arith, all_below_sound 90 (λ l. same_key k l) l (all_below_sound 90 _ k layout_table hk) hl)

shift_table :
    all_below 128 (λ a. all_below 128 (λ b.
      if key_letter false true a == key_letter false true b
        && (if key_letter false true a == 0xff then false else true)
      then a == b
      else true))
    ≡ true
unfolding all_below key_letter
shift_table = refl

-- With a shift key held, two different characters of the table give different characters, where
-- they give one at all.
pub key_letter_injective :
    (a b : ℕ)
    → a < 128
    → b < 128
    → key_letter false true a ≡ key_letter false true b
    → key_letter false true a ≢ 0xff
    → a ≡ b
key_letter_injective a b ha hb e ne = ground (
  arith,
  all_below_sound 128
      (λ b.
        if key_letter false true a == key_letter false true b
          && (if key_letter false true a == 0xff then false else true)
        then a == b
        else true)
      b (all_below_sound 128 _ a shift_table ha) hb,
)
