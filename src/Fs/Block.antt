-- ===== src/Fs/Block.antt =====
-- The inner loop of `read_data`: which bytes of one block it copies.
use mathlib.Core.Path.{fun_ext}
use cl_os.Prelude.{
  ℕ, zero, suc, ◌+◌, ◌-◌, ◌≤◌, ◌≡◌, inl, inr, Mem, store, arith, ltb, leb, ◌&&◌, if◌then◌else◌,
  eq_or_ne,
}
use cl_os.Fs.{returned, running, copy_block}

-- `buf` with `c` bytes from address `a` on put at index `n`.
abbrev pub blit : Mem → ℕ → ℕ → ℕ → Mem → Mem
blit bblock a n c buf m = if leb n m && ltb m (n + c) then bblock (a + (m - n)) else buf m

blit-zero : (bblock : Mem) (a n : ℕ) (buf : Mem) → blit bblock a n 0 buf ≡ buf
blit-zero bblock a n buf = fun_ext λ m. ground arith

blit-store :
    (bblock : Mem) (ptr j n c : ℕ) (buf : Mem)
    → blit bblock (ptr + (j + 1)) (n + 1) c (store buf n (bblock (ptr + j)))
      ≡ blit bblock (ptr + j) n (suc c) buf
blit-store bblock ptr j n c buf = fun_ext λ m. ground arith

module _ (bblock : Mem) (ptr file_length length : ℕ) (fits : length ≤ file_length) where
  -- The loop copies until `length` bytes are there, and returns if a round is left then.
  pub copy_block_lem :
      (j k n : ℕ) (buf : Mem)
      → n ≤ length
      → copy_block bblock ptr file_length length j k n buf ≡ (
          if ltb (length - n) k
          then returned length (blit bblock (ptr + j) n (length - n) buf)
          else running (n + k) (blit bblock (ptr + j) n k buf))
  unfolding copy_block
  copy_block_lem j zero n buf h = ground (arith, blit-zero bblock (ptr + j) n buf)
  copy_block_lem j (suc k) n buf h = elim (eq_or_ne n length) [
    | inl e ↦ ground (arith, blit-zero bblock (ptr + j) n buf)
    | inr ne ↦ ground (
      arith,
      copy_block_lem (j + 1) k (n + 1) (store buf n (bblock (ptr + j))) (omega arith),
      blit-store bblock ptr j n k buf,
      blit-store bblock ptr j n (length - (n + 1)) buf,
    )
  ]
