-- ===== src/Programs/Small.antt =====
-- The programs syscalls/ece391hello.c, ece391testprint.c and ece391counter.c.
pub mod Counting
use cl_os.Prelude.{
  ℕ, zero, suc, ◌+◌, ◌==◌, ltb, ◌&&◌, ◌||◌, if◌then◌else◌, ℤ, pos, negsuc, Mem, store, Option, none,
  some, Bool, true, false,
}
use cl_os.Prelude.Literal.{literal, ◌>>=◌}
use cl_os.Programs.{Calls, ece391_fdputs, put_and_return}
use cl_os.Programs.Support.{ece391_strlen, ece391_itoa}

-- `max` for the first character, 0 where the `switch` has no case.
abbrev pub choose_max : ℕ → ℕ
choose_max c =
    if c == b'0' then 100 else if c == b'1' then 10000 else if c == b'2' then 100000 else 0

module _ {S : Type 0} (calls : Calls S) where
  open calls use {read}

  unfoldable pub testprint : ℕ → S → Option (ℕ × S)
  unfolding ece391_fdputs
  testprint fuel s =
      put_and_return calls fuel (literal "Hello, if this ran, the program was correct. Yay!\n") 0 s

  -- The programs that read a line: what they do with it, and their message without one.
  abbrev pub with_line : ℕ → Mem → Mem → (Mem → S → Option (ℕ × S)) → S → Option (ℕ × S)
  with_line fuel message buf next s =
      let (cnt, buf', s') = read (pos 0) buf 1023 s in
      elim cnt [
        | negsuc n ↦ if n == 0 then put_and_return calls fuel message 3 s' else none
        | pos n ↦ next (store buf' n 0) s'
      ]

  unfoldable pub hello : ℕ → Mem → S → Option (ℕ × S)
  unfolding ece391_fdputs
  hello fuel buf s0 = do
    s1 ← ece391_fdputs calls fuel (pos 1) (literal "Hi, what's your name? ") s0
    with_line fuel (literal "Can't read name from keyboard.\n") buf
        (λ line s2. do
          s3 ← ece391_fdputs calls fuel (pos 1) (literal "Hello, ") s2
          put_and_return calls fuel line 0 s3)
        s1

  -- The `for` from `i` on, with `k` rounds left.
  unfoldable pub count_from : ℕ → Mem → ℕ → ℕ → S → Option S
  unfolding ece391_fdputs ece391_itoa
  count_from fuel buf i zero s = some s
  count_from fuel buf i (suc k) s = do
    buf' ← ece391_itoa fuel (i + 1) buf 10
    s1 ← ece391_fdputs calls fuel (pos 1) buf' s
    s2 ← ece391_fdputs calls fuel (pos 1) (literal "\n") s1
    count_from fuel buf' (i + 1) k s2

  -- Behind the line.
  unfoldable pub count : ℕ → Mem → S → Option (ℕ × S)
  count fuel line s = do
    l ← ece391_strlen fuel line
    if ltb 2 l || (l == 2 && (ltb (line 0) b'0' || ltb b'2' (line 0)))
        then put_and_return calls fuel (literal "Wrong Choice!\n") 0 s
        else count_from fuel line 0 (choose_max (line 0)) s >>= λ s'. some (0, s')

  unfoldable pub counter : ℕ → Mem → S → Option (ℕ × S)
  counter fuel buf s = do
    s' ←
        ece391_fdputs calls fuel (pos 1)
          (literal "Enter the Test Number: (0): 100, (1): 10000, (2): 100000\n") s
    with_line fuel (literal "Can't read the number from keyboard.\n") buf (count fuel) s'
