-- ===== src/Programs.antt =====
-- The user programs under syscalls on the calls of the kernel, with `cat` (syscalls/ece391cat.c); the others
-- are in the children.
pub mod Support
pub mod Ls
pub mod Shell
pub mod Grep
pub mod Small
pub mod Pingpong
pub mod Output
pub mod Cat
use cl_os.Prelude.{
  ℕ, zero, suc, ◌+◌, ◌==◌, if◌then◌else◌, ℤ, pos, negsuc, Mem, Option, none, some, Bool, true,
  false,
}
use cl_os.Prelude.Literal.{literal, ◌>>=◌}
use cl_os.Fs.Lookup.{is_zero}
use cl_os.Programs.Support.{ece391_strlen}

-- The calls that the programs make, on the state of the kernel. `read` and `getargs` give the buffer after the call.
pub record Calls (S : Type 0) : Type 0 where
  pub getargs : Mem → ℕ → S → ℤ × Mem × S
  pub open_file : Mem → S → ℤ × S
  pub read : ℤ → Mem → ℕ → S → ℤ × Mem × S
  pub write : ℤ → Mem → ℤ → S → ℤ × S
  pub close : ℤ → S → ℤ × S
  pub execute : Mem → S → ℤ × S

abbrev pub is_minus_one : ℤ → Bool
is_minus_one (pos n) = false
is_minus_one (negsuc n) = n == 0

abbrev pub read_failed : Mem
read_failed = literal "file read failed\n"

abbrev pub not_found : Mem
not_found = literal "file not found\n"

abbrev pub no_arguments : Mem
no_arguments = literal "could not read arguments\n"

module _ {S : Type 0} (calls : Calls S) where
  open calls use {getargs, open_file, read, write}

  -- `ece391_fdputs`, without the result of the call.
  unfoldable pub ece391_fdputs : ℕ → ℤ → Mem → S → Option S
  unfolding ece391_strlen
  ece391_fdputs fuel fd s st = do l ← ece391_strlen fuel s; some (write fd s (pos l) st).1

  -- A message, and then the result of the function.
  abbrev pub put_and_return : {A : Type 0} → ℕ → Mem → A → S → Option (A × S)
  put_and_return fuel message status st = do
    st' ← ece391_fdputs fuel (pos 1) message st
    some (status, st')

  -- The `while` of `main`: the status that `main` returns, and the state. `size` is the size of the buffer.
  unfoldable pub cat_loop : ℕ → ℕ → ℤ → Mem → S → Option (ℕ × S)
  cat_loop zero size fd buf s = none
  cat_loop (suc fuel) size fd buf s =
      let (cnt, buf', s') = read fd buf size s in
      let (written, s'') = write (pos 1) buf' cnt s' in
      let failed = (write (pos 1) read_failed (pos 17) s').1 in
      let rest = cat_loop fuel size fd buf' s'' in
      if is_zero cnt
      then some (0, s')
      else if is_minus_one cnt
      then some (3, failed)
      else if is_minus_one written
      then some (3, s'')
      else rest

  -- `main`; `buf` is its uninitialized buffer.
  unfoldable pub cat : ℕ → Mem → S → Option (ℕ × S)
  unfolding cat_loop
  cat fuel buf s =
      let (r, buf', s1) = getargs buf 1024 s in
      let (fd, s2) = open_file buf' s1 in
      let shown = cat_loop fuel 1024 fd buf' s2 in
      if is_zero r
      then if is_minus_one fd then some (2, (write (pos 1) not_found (pos 15) s2).1) else shown
      else some (3, (write (pos 1) no_arguments (pos 25) s1).1)
