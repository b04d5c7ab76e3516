-- ===== src/Prelude/Int.antt =====
-- Signed integers over the native numbers: the C type `int32_t` where a function returns one.
use Prim.Native.Nat.{ℕ, ◌+◌, ◌-◌, ◌<◌}
use mathlib.Core.Path.{◌≡◌}
use native.Mathlib.Omega.{arith}
use cl_os.Prelude.Tests.{ltb, leb, if◌then◌else◌}

-- `negsuc n` is -(n + 1).
pub data ℤ : Type 0 where
  pos : ℕ → ℤ
  negsuc : ℕ → ℤ

abbrev pub sub_ℕ : ℕ → ℕ → ℤ
sub_ℕ a b = if leb b a then pos (a - b) else negsuc (b - a - 1)

-- The error value of every kernel function.
abbrev pub minus_one : ℤ
minus_one = negsuc 0

-- The difference of two `int8_t`, as C promotes it: byte `b` stands for `b - 256` from 128 on.
-- Both are shifted by 128, which leaves the difference as it is.
abbrev pub shift8 : ℕ → ℕ
shift8 b = if ltb b 128 then b + 128 else b - 128

unfoldable pub diff8 : ℕ → ℕ → ℤ
diff8 a b = sub_ℕ (shift8 a) (shift8 b)

pub diff8-eq : (a b : ℕ) → a < 256 → b < 256 → diff8 a b ≡ pos 0 → a ≡ b
unfolding diff8
diff8-eq a b ha hb e = ground arith

pub diff8_self : (a : ℕ) → diff8 a a ≡ pos 0
unfolding diff8
diff8_self a = ground arith
