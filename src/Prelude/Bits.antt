-- ===== src/Prelude/Bits.antt =====
-- Bits of a byte, and checks of every value of a small range.
use Prim.Native.Nat.{ℕ, zero, suc, ◌-◌, ◌/◌, ◌%◌, ◌^◌, ◌<◌, bit_and, bit_or}
use mathlib.Core.Path.{◌≡◌, refl}
use mathlib.Core.Bool.{Bool, true, false}
use native.Mathlib.Omega.{arith}
use cl_os.Prelude.Tests.{◌==◌, ==_iff, if◌then◌else◌}

abbrev pub bit : ℕ → ℕ → ℕ
bit k x = x / 2 ^ k % 2

-- Whether a test holds of all numbers below a bound.
unfoldable pub all_below : ℕ → (ℕ → Bool) → Bool
all_below zero test = true
all_below (suc bound) test = let rest = all_below bound test in if test bound then rest else false

pub all_below_sound :
    (bound : ℕ) (test : ℕ → Bool) (v : ℕ) → all_below bound test ≡ true → v < bound → test v ≡ true
unfolding all_below
all_below_sound zero test v e l = absurd (omega arith)
all_below_sound (suc bound) test v e l = ground (arith, all_below_sound bound test v)

clear_table :
    all_below 8 (λ l. all_below 8 (λ k.
      all_below 256 (λ x. bit k (bit_and x (255 - 2 ^ l)) == (if k == l then 0 else bit k x))))
    ≡ true
unfolding all_below
clear_table = refl

set_table :
    all_below 8 (λ l.
      all_below 8
        (λ k. all_below 256 (λ x. bit k (bit_or x (2 ^ l)) == (if k == l then 1 else bit k x))))
    ≡ true
unfolding all_below
set_table = refl

-- `x & ~(1 << l)` clears the bit `l` and no other.
pub bit-clear :
    (l k x : ℕ)
    → l < 8
    → k < 8
    → x < 256
    → bit k (bit_and x (255 - 2 ^ l)) ≡ (if k == l then 0 else bit k x)
bit-clear l k x hl hk hx =
    (==_iff _ _).0
      (all_below_sound 256 _ x (all_below_sound 8 _ k (all_below_sound 8 _ l clear_table hl) hk) hx)

-- `x | (1 << l)` sets the bit `l` and no other.
pub bit-set :
    (l k x : ℕ)
    → l < 8
    → k < 8
    → x < 256
    → bit k (bit_or x (2 ^ l)) ≡ (if k == l then 1 else bit k x)
bit-set l k x hl hk hx =
    (==_iff _ _).0
      (all_below_sound 256 _ x (all_below_sound 8 _ k (all_below_sound 8 _ l set_table hl) hk) hx)
