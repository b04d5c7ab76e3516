-- ===== src/Prelude/Memory.antt =====
-- Memory as C sees it from a pointer: the byte at each offset. A pointer `p + k` is `offset p k`.
-- A store changes one byte; what a routine may not touch is stated as bytes that stay equal.
use Prim.Native.Nat.{ℕ, zero, suc, ◌+◌, ◌*◌, ◌<◌}
use mathlib.Core.Path.{◌≡◌}
use mathlib.Core.Logic.{◌≢◌}
use mathlib.Core.List.{List, [], ◌∷◌}
use native.Mathlib.Omega.{arith}
use cl_os.Prelude.Tests.{◌==◌, if◌then◌else◌}

abbrev pub Mem : Type 0
Mem = ℕ → ℕ

abbrev pub store : Mem → ℕ → ℕ → Mem
store m a v k = if k == a then v else m k

abbrev pub offset : Mem → ℕ → Mem
offset m k i = m (k + i)

-- A 32-bit little-endian word.
abbrev pub load32 : Mem → ℕ → ℕ
load32 m a = m a + 256 * m (a + 1) + 65536 * m (a + 2) + 16777216 * m (a + 3)

abbrev pub IsBytes : Mem → Type 0
IsBytes m = (i : ℕ) → m i < 256

-- A literal: the bytes given, and then the terminating NUL.
abbrev pub text : List ℕ → Mem
text [] i = 0
text (c ∷ s) zero = c
text (c ∷ s) (suc i) = text s i

pub store_self : (m : Mem) (a v : ℕ) → store m a v a ≡ v
store_self m a v = ground arith

pub store_ne : (m : Mem) (a v k : ℕ) → k ≢ a → store m a v k ≡ m k
store_ne m a v k h = ground arith
