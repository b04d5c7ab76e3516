-- ===== src/Programs/Ls.antt =====
-- syscalls/ece391ls.c.
pub mod Listing
use cl_os.Prelude.{
  ℕ, zero, suc, ◌+◌, ◌==◌, if◌then◌else◌, ℤ, pos, negsuc, Mem, store, Option, none, some,
}
use cl_os.Prelude.Literal.{literal}
use cl_os.Programs.{Calls, is_minus_one, ece391_fdputs, put_and_return}

module _ {S : Type 0} (calls : Calls S) where
  open calls use {open_file, read, write}

  -- The `while` of `main`.
  unfoldable pub ls_loop : ℕ → ℤ → Mem → S → Option (ℕ × S)
  unfolding ece391_fdputs
  ls_loop zero fd buf s = none
  ls_loop (suc fuel) fd buf s =
      let (cnt, buf', s') = read fd buf 32 s in
      elim cnt [
        | negsuc n ↦
            if n == 0
            then put_and_return calls fuel (literal "directory entry read failed\n") 3 s'
            else none
        | pos n ↦
            let line = store buf' n b'\n' in
            let (written, s'') = write (pos 1) line (pos (n + 1)) s' in
            let rest = ls_loop fuel fd line s'' in
            if n == 0 then some (0, s') else if is_minus_one written then some (3, s'') else rest
      ]

  -- `main`; `buf` is its uninitialized buffer.
  unfoldable pub ls : ℕ → Mem → S → Option (ℕ × S)
  unfolding ls_loop ece391_fdputs
  ls fuel buf s =
      let (fd, s') = open_file (literal ".") s in
      let listed = ls_loop fuel fd buf s' in
      if is_minus_one fd
      then put_and_return calls fuel (literal "directory open failed\n") 2 s'
      else listed
