-- ===== src/Programs/Shell.antt =====
-- syscalls/ece391shell.c.
pub mod Session
use cl_os.Prelude.{
  ℕ, zero, suc, ◌+◌, ◌-◌, ◌==◌, ltb, ◌&&◌, if◌then◌else◌, Bool, true, false, ℤ, pos, negsuc, Mem,
  store, Option, none, some,
}
use cl_os.Prelude.Literal.{literal, ◌>>=◌}
use cl_os.Fs.Lookup.{is_zero}
use cl_os.Programs.{Calls, is_minus_one, ece391_fdputs, put_and_return}
use cl_os.Programs.Support.{ece391_strcmp}

-- `if (cnt > 0 && '\n' == buf[cnt - 1]) cnt--; buf[cnt] = '\0';`
unfoldable pub cut_line : Mem → ℕ → Mem
cut_line buf cnt =
    if ltb 0 cnt && buf (cnt - 1) == b'\n' then store buf (cnt - 1) 0 else store buf cnt 0

abbrev pub is_256 : ℤ → Bool
is_256 (pos n) = n == 256
is_256 (negsuc n) = false

module _ {S : Type 0} (calls : Calls S) where
  open calls use {read, execute}

  -- The message for the result of `ece391_execute`.
  unfoldable pub report : ℕ → ℤ → S → Option S
  unfolding ece391_fdputs
  report fuel rval s =
      if is_minus_one rval
      then ece391_fdputs calls fuel (pos 1) (literal "no such command\n") s
      else if is_256 rval
      then ece391_fdputs calls fuel (pos 1) (literal "program terminated by exception\n") s
      else if is_zero rval
      then some s
      else ece391_fdputs calls fuel (pos 1) (literal "program terminated abnormally\n") s

  -- The rest of a round behind `read`: `none` in the first component where the loop goes on.
  unfoldable pub obey : ℕ → Mem → S → Option (Option ℕ × S)
  unfolding ece391_strcmp report
  obey fuel buf s = do
    d ← ece391_strcmp fuel buf (literal "exit")
    let (rval, s') = execute buf s
    let reported : Option (Option ℕ × S) = do s'' ← report fuel rval s'; some (none, s'')
    if is_zero d then some (some 0, s) else if buf 0 == 0 then some (none, s) else reported

  -- The `while`, for at most so many rounds.
  unfoldable pub shell_loop : ℕ → Mem → S → Option (ℕ × S)
  unfolding ece391_fdputs obey cut_line
  shell_loop zero buf s = none
  shell_loop (suc fuel) buf s = do
    s1 ← ece391_fdputs calls fuel (pos 1) (literal "391OS> ") s
    let (cnt, buf', s2) = read (pos 0) buf 1023 s1
    elim cnt [
      | negsuc n ↦
          if n == 0
          then put_and_return calls fuel (literal "read from keyboard failed\n") 3 s2
          else none
      | pos n ↦ obey fuel (cut_line buf' n) s2 >>= λ (done, s3). elim done [
        | none ↦ shell_loop fuel (cut_line buf' n) s3
        | some status ↦ some (status, s3)
      ]
    ]

  unfoldable pub shell : ℕ → Mem → S → Option (ℕ × S)
  unfolding ece391_fdputs shell_loop
  shell fuel buf s = do
    s' ← ece391_fdputs calls fuel (pos 1) (literal "Starting 391 Shell\n") s
    shell_loop fuel buf s'
