-- ===== src/Terminal.antt =====
-- filesIWorkedOn/terminal.c: the line buffers of the three terminals. `t` is the number of a terminal, 1
-- to 3: `whatTerm()` for the keyboard's calls, `pcb->curTerminal` for the others. Byte `i` of
-- `tbuf[t-1]` is at address `128 * t + i`, so that address 127 is the byte in front of the array.
pub mod Line
pub mod Reading
pub mod Editor
use cl_os.Prelude.{
  ℕ, zero, suc, ◌+◌, ◌-◌, ◌*◌, ◌==◌, ◌!=◌, ltb, leb, ◌&&◌, if◌then◌else◌, ℤ, pos, minus_one, Mem,
  store, offset, Bool, false, true, Option, none, some, List, [], ◌∷◌,
}
use cl_os.Strings.{strncpy}

abbrev pub bufsize : ℕ
bufsize = 128

-- The variables `idx` and `tbuf`.
pub record Lines : Type 0 where
  pub idx : ℕ → ℕ
  pub tbuf : Mem

abbrev pub row : ℕ → ℕ
row t = 128 * t

abbrev pub set_idx : (ℕ → ℕ) → ℕ → ℕ → ℕ → ℕ
set_idx idx t v u = if u == t then v else idx u

unfoldable pub insert : ℕ → ℕ → Lines → ℕ × Lines
insert t letter s = if ltb 127 (s.idx t) then (s.idx t, s) else (
  s.idx t + 1,
  record s { tbuf = store s.tbuf (row t + s.idx t) letter; idx = set_idx s.idx t (s.idx t + 1) },
)

-- The loop of `clearbuf` from index `i`, with `k` rounds left.
unfoldable pub clear_row : Mem → ℕ → ℕ → ℕ → Mem
clear_row tbuf t i zero = tbuf
clear_row tbuf t i (suc k) = clear_row (store tbuf (row t + i) 0) t (i + 1) k

unfoldable pub clearbuf : ℕ → Lines → Lines
unfolding clear_row
clearbuf t s = record s { tbuf = clear_row s.tbuf t 0 bufsize; idx = set_idx s.idx t 0 }

-- The store comes before the test.
unfoldable pub backspacebuf : ℕ → Lines → ℤ × Lines
backspacebuf t s0 =
    let s = record s0 { tbuf = store s0.tbuf (row t + s0.idx t - 1) 0 } in
    if ltb 0 (s.idx t)
    then (pos (s.idx t - 1), record s { idx = set_idx s.idx t (s.idx t - 1) })
    else (minus_one, s)

-- What the keyboard handler does to the line while `tRead` waits.
pub data Key : Type 0 where
  typed : ℕ → Key
  erased : Key

unfoldable pub press : ℕ → Key → Lines → Lines
unfolding insert backspacebuf
press t (typed letter) s = (insert t letter s).1
press t erased s = (backspacebuf t s).1

-- Where the first `while` of `tRead` ends.
unfoldable pub line_is_ready : ℕ → Lines → Bool
line_is_ready t s =
    if ltb (s.idx t) bufsize
    then if s.idx t == 0 then false else s.tbuf (row t + s.idx t - 1) == b'\n'
    else true

-- That `while`, with the keys that come in; `none` when it still waits behind the last one.
unfoldable pub wait_line : ℕ → List Key → Lines → Option Lines
wait_line t [] s = if line_is_ready t s then some s else none
wait_line t (key ∷ keys) s =
    let rest = wait_line t keys (press t key s) in if line_is_ready t s then some s else rest

-- The end of `tRead`.
unfoldable pub take_line : ℕ → Mem → ℕ → Lines → ℕ × Mem
take_line t buf nbytes s =
    if leb nbytes (s.idx t)
    then (nbytes, strncpy buf (offset s.tbuf (row t)) nbytes)
    else (s.idx t, strncpy buf (offset s.tbuf (row t)) (s.idx t))

-- `((uint8_t *)(buf))[i] = '\0'` from `i` on.
unfoldable pub clear_buf : Mem → ℕ → ℕ → Mem
clear_buf buf i zero = buf
clear_buf buf i (suc k) = clear_buf (store buf i 0) (i + 1) k

-- Behind the first `while`. A full row with a newline at its end stays as it is: the newline that is stored there is not
-- another, and the screen, which shows one more, is not in this state. For a full row without one the ports are polled
-- until the enter key, which is `fill_row` of Console/Read: it has no result here.
unfoldable pub finish_full : ℕ → Lines → Option Lines
finish_full t s =
    if s.idx t == bufsize
    then if s.tbuf (row t + s.idx t - 1) == b'\n' then some s else none
    else some s

-- `tRead` on the lines alone.
unfoldable pub t_read : ℕ → List Key → Mem → ℕ → Lines → Option (ℕ × Mem × Lines)
unfolding clear_buf clearbuf
t_read t keys buf nbytes s = elim (wait_line t keys (clearbuf t s)) [
  | none ↦ none
  | some s1 ↦ elim (finish_full t s1) [
    | none ↦ none
    | some s' ↦ let (n, b) = take_line t (clear_buf buf 0 (nbytes + 1)) nbytes s' in some (n, b, s')
  ]
]

-- `putc` stands for `printf` of one character.
module _ {S : Type 0} (putc : ℕ → S → S) where
  -- The loop of `tWrite` from `i` on, with `k` rounds left.
  unfoldable pub write_from : Mem → ℕ → ℕ → ℕ → ℕ → S → ℕ × S
  write_from buf nbytes i zero bytes_written s = (bytes_written, s)
  write_from buf nbytes i (suc k) bytes_written s =
      let full = write_from buf nbytes (i + 1) k (bytes_written + 1) (putc (buf i) s) in
      let last = write_from buf nbytes (i + 1) k bytes_written (putc b'\n' s) in
      let rest = write_from buf nbytes (i + 1) k bytes_written s in
      if buf i != 0 then full else if i == nbytes - 1 && buf (nbytes - 1) == 0 then last else rest

  unfoldable pub t_write : Mem → ℕ → S → ℕ × S
  unfolding write_from
  t_write buf nbytes s = write_from buf nbytes 0 nbytes 0 s

unfoldable pub t_open : ℕ → Lines → ℤ × Lines
unfolding clearbuf
t_open t s = (pos 0, clearbuf t s)

pub t_close : ℕ → ℤ
t_close fd = pos 0
