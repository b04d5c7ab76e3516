-- ===== src/Programs/Grep.antt =====
-- syscalls/ece391grep.c. The buffer `data` is memory from address 0 on. The loops are on fuel.
pub mod Search
use cl_os.Prelude.{
  ℕ, zero, suc, ◌+◌, ◌-◌, ◌==◌, ◌!=◌, ltb, leb, ◌&&◌, if◌then◌else◌, Bool, true, false, ℤ, pos,
  negsuc, minus_one, Mem, store, offset, Option, none, some,
}
use cl_os.Prelude.Literal.{literal, ◌>>=◌}
use cl_os.Fs.Lookup.{is_zero}
use cl_os.Programs.{Calls, is_minus_one, ece391_fdputs, put_and_return}
use cl_os.Programs.Support.{ece391_strlen, ece391_strcpy, ece391_strncmp}

-- `while (line_end < last && '\n' != data[line_end]) line_end++;`, with `last - line_end` = `k`
unfoldable pub end_of_line : Mem → ℕ → ℕ → ℕ
end_of_line line line_end zero = line_end
end_of_line line line_end (suc k) =
    let rest = end_of_line line (line_end + 1) k in
    if line line_end != b'\n' then rest else line_end

-- The `for` over `check`, with `k` rounds left: whether it comes to the messages.
unfoldable pub occurs : Mem → ℕ → Mem → ℕ → ℕ → Bool
occurs s s_len line check zero = false
occurs s s_len line check (suc k) =
    let rest = occurs s s_len line (check + 1) k in
    if s 0 == line check && is_zero (ece391_strncmp (offset line check) s s_len) then true else rest

-- What the loops over the lines change.
pub record Scan : Type 0 where
  pub block : Mem
  pub last : ℕ

module _ {S : Type 0} (calls : Calls S) where
  open calls use {getargs, open_file, read, close}

  -- The four messages for a line.
  unfoldable pub show_match : ℕ → Mem → Mem → S → Option S
  unfolding ece391_fdputs
  show_match fuel fname line s0 = do
    s1 ← ece391_fdputs calls fuel (pos 1) fname s0
    s2 ← ece391_fdputs calls fuel (pos 1) (literal ":") s1
    s3 ← ece391_fdputs calls fuel (pos 1) line s2
    ece391_fdputs calls fuel (pos 1) (literal "\n") s3

  -- The inner `while` of `do_one_file`, from `line_start` on.
  unfoldable pub scan_lines : ℕ → Mem → ℕ → Mem → ℕ → Scan → ℕ → S → Option (Scan × S)
  unfolding end_of_line occurs show_match
  scan_lines zero str s_len fname cnt scan line_start s = none
  scan_lines (suc fuel) str s_len fname cnt scan line_start s =
      let line_end = end_of_line scan.block line_start (scan.last - line_start) in
      let block = store scan.block line_end 0 in
      let found = occurs str s_len block line_start (line_end - line_start) in
      let searched : Option S =
        if found then show_match fuel fname (offset block line_start) s else some s in
      if scan.block line_end != b'\n' && (cnt != 0 && line_start != 0)
      then (ece391_strcpy fuel block 0 line_start >>= λ moved.
          some (record { block = moved; last = scan.last - line_start }, s))
      else searched >>= λ s'.
          if leb scan.last (line_end + 1)
          then some (record { block = block; last = 0 }, s')
          else scan_lines fuel str s_len fname cnt (record { block = block; last = scan.last })
              (line_end + 1) s'

  -- The outer `while`: whether it ended by its last `break`.
  unfoldable pub read_lines : ℕ → Mem → ℕ → Mem → ℤ → Scan → S → Option (Bool × S)
  unfolding ece391_fdputs scan_lines
  read_lines zero str s_len fname fd scan s = none
  read_lines (suc fuel) str s_len fname fd scan s =
      let (cnt, got, s') = read fd (offset scan.block scan.last) (1024 - scan.last) s in
      elim cnt [
        | negsuc n ↦
            if n == 0
            then put_and_return calls fuel (literal "file read failed\n") false s'
            else none
        | pos n ↦
            let block = λ (i : ℕ). if ltb i scan.last then scan.block i else got (i - scan.last) in
            scan_lines fuel str s_len fname n (record { block = block; last = scan.last + n }) 0 s'
            >>= λ (scan', s''). elim (n == 0) [
              | true ↦ some (true, s'')
              | false ↦ read_lines fuel str s_len fname fd scan' s''
            ]
      ]

  -- `block` is the uninitialized buffer.
  unfoldable pub do_one_file : ℕ → Mem → Mem → Mem → S → Option (ℤ × S)
  unfolding ece391_strlen ece391_fdputs read_lines
  do_one_file fuel str fname block s = do
    s_len ← ece391_strlen fuel str
    let (fd, s1) = open_file fname s
    if is_minus_one fd
        then put_and_return calls fuel (literal "file open failed\n") minus_one s1
        else read_lines fuel str s_len fname fd (record { block = block; last = 0 }) s1
          >>= λ (ended, s2).
              let (closed, s3) = close fd s2 in
              if ended
              then if is_minus_one closed
                then put_and_return calls fuel (literal "file close failed\n") minus_one s3
                else some (pos 0, s3)
              else some (minus_one, s2)

  -- The `while` of `main`; `block` is the buffer of each call of `do_one_file`.
  unfoldable pub grep_loop : ℕ → Mem → ℤ → Mem → Mem → S → Option (ℕ × S)
  unfolding ece391_fdputs do_one_file
  grep_loop zero search fd block buf s = none
  grep_loop (suc fuel) search fd block buf s =
      let (cnt, buf', s') = read fd buf 32 s in
      elim cnt [
        | negsuc n ↦
            if n == 0
            then put_and_return calls fuel (literal "directory entry read failed\n") 3 s'
            else none
        | pos n ↦ elim (n == 0) [
          | true ↦ some (0, s')
          | false ↦ elim (buf' 0 == b'.') [
            | true ↦ grep_loop fuel search fd block buf' s'
            | false ↦ do_one_file fuel search (store buf' n 0) block s' >>= λ (r, s'').
                elim (is_zero r) [
                  | true ↦ grep_loop fuel search fd block (store buf' n 0) s''
                  | false ↦ some (3, s'')
                ]
          ]
        ]
      ]

  unfoldable pub grep : ℕ → Mem → Mem → Mem → S → Option (ℕ × S)
  unfolding ece391_fdputs grep_loop
  grep fuel search block buf s =
      let (r, search', s1) = getargs search 1024 s in
      let (fd, s2) = open_file (literal ".") s1 in
      let failed = put_and_return calls fuel (literal "directory open failed\n") 2 s2 in
      let searched = grep_loop fuel search' fd block buf s2 in
      if is_zero r
      then if is_minus_one fd then failed else searched
      else put_and_return calls fuel (literal "could not read argument\n") 3 s1
