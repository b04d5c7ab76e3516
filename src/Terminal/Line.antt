-- ===== src/Terminal/Line.antt =====
-- What the three operations on a line change.
use cl_os.Prelude.{
  ℕ, zero, suc, ◌+◌, ◌-◌, ◌≤◌, ◌<◌, ◌≡◌, ◌≢◌, ◌⊎◌, refl, ◌==◌, ltb, leb, ◌&&◌, if◌then◌else◌, pos,
  minus_one, Mem, store, arith,
}
use cl_os.Terminal.{
  Lines, row, bufsize, insert, clear_row, clearbuf, backspacebuf, Key, typed, erased, press,
}

-- No line is longer than its row.
abbrev pub IsBounded : Lines → Type 0
IsBounded s = (t : ℕ) → s.idx t ≤ bufsize

clear_row_lem :
    (tbuf : Mem) (t i k a : ℕ)
    → clear_row tbuf t i k a ≡ (if leb (row t + i) a && ltb a (row t + i + k) then 0 else tbuf a)
unfolding clear_row
clear_row_lem tbuf t i zero a = ground arith
clear_row_lem tbuf t i (suc k) a =
    ground (arith, clear_row_lem (store tbuf (row t + i) 0) t (i + 1) k a)

-- `clearbuf` empties the row of its terminal, sets its index to 0, and changes nothing else.
pub clearbuf_lem :
    (t u a : ℕ) (s : Lines)
    → ((clearbuf t s).idx u ≡ (if u == t then 0 else s.idx u))
      × ((clearbuf t s).tbuf a ≡ (if leb (row t) a && ltb a (row (t + 1)) then 0 else s.tbuf a))
unfolding clearbuf
clearbuf_lem t u a s = (refl, ground (arith, clear_row_lem s.tbuf t 0 128 a))

-- If no line is longer than its row, none is so after a key: a letter is dropped where the row is full.
pub press-IsBounded : (t : ℕ) (key : Key) (s : Lines) → IsBounded s → IsBounded (press t key s)
unfolding press
press-IsBounded t (typed letter) s h u = ground (arith, h u, h t)
press-IsBounded t erased s h u = ground (arith, h u, h t)

-- A letter changes no byte outside the row of its terminal and no other terminal's index, whatever
-- the index is.
pub insert_frame :
    (t u a letter : ℕ) (s : Lines)
    → (a < row t) ⊎ (row (t + 1) ≤ a)
    → u ≢ t
    → ((insert t letter s).1.tbuf a ≡ s.tbuf a) × ((insert t letter s).1.idx u ≡ s.idx u)
unfolding insert
insert_frame t u a letter s h ne = (ground arith, ground arith)

-- A letter and then a backspace, on a line that is not full: `backspacebuf` returns the old index, the
-- index is the old one, and no byte is changed but the one at the index, which is 0.
pub backspacebuf-insert :
    (t letter a u : ℕ) (s : Lines)
    → s.idx t < bufsize
    → let (r, s') = backspacebuf t (insert t letter s).1 in
      (r ≡ pos (s.idx t))
      × (s'.idx u ≡ s.idx u)
      × (s'.tbuf a ≡ (if a == row t + s.idx t then 0 else s.tbuf a))
unfolding insert backspacebuf
backspacebuf-insert t letter a u s h = (ground arith, ground arith, ground arith)

-- On an empty line `backspacebuf` returns -1 and keeps the indices, but it clears the byte in front of
-- the row: for the terminals 2 and 3 the last byte of the terminal before, for terminal 1 a byte
-- outside the array.
pub backspacebuf_empty :
    (t a u : ℕ) (s : Lines)
    → 1 ≤ t
    → s.idx t ≡ 0
    → let (r, s') = backspacebuf t s in
      (r ≡ minus_one)
      × (s'.idx u ≡ s.idx u)
      × (s'.tbuf a ≡ (if a == row (t - 1) + 127 then 0 else s.tbuf a))
unfolding backspacebuf
backspacebuf_empty t a u s h e = (ground arith, ground arith, ground arith)
