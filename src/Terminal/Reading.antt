-- ===== src/Terminal/Reading.antt =====
-- A line that is typed is the line that is read.
use cl_os.Prelude.{
  ℕ, zero, suc, ◌+◌, ◌-◌, ◌≤◌, ◌<◌, ◌≡◌, ◌≢◌, refl, sym, ap, ◌∙◌, ◌==◌, ◌!=◌, ltb, leb, ◌&&◌,
  if◌then◌else◌, Bool, true, false, Mem, store, offset, text, List, [], ◌∷◌, some, arith, min,
}
use cl_os.Strings.Copy.{char_of, char_of_full, strncpy_lem}
use cl_os.Terminal.{
  Lines, row, bufsize, insert, clearbuf, Key, typed, press, line_is_ready, wait_line, take_line,
  clear_buf, finish_full, t_read,
}
use cl_os.Terminal.Line.{clearbuf_lem}

abbrev pub length : List ℕ → ℕ
length [] = 0
length (c ∷ l) = suc (length l)

-- A line of characters that are neither NUL nor newline.
abbrev pub is_plain : List ℕ → Bool
is_plain [] = true
is_plain (c ∷ l) = if c != 0 && c != b'\n' then is_plain l else false

-- The line with its newline, and the keys for it.
abbrev pub finished : List ℕ → List ℕ
finished [] = b'\n' ∷ []
finished (c ∷ l) = c ∷ finished l

abbrev pub keys : List ℕ → List Key
keys [] = typed b'\n' ∷ []
keys (c ∷ l) = typed c ∷ keys l

finished_full : (l : List ℕ) (i : ℕ) → is_plain l ≡ true → i ≤ length l → text (finished l) i ≢ 0
finished_full [] zero h p = omega arith
finished_full [] (suc i) h p = absurd (omega arith)
finished_full (c ∷ l) zero h p = ground arith
finished_full (c ∷ l) (suc i) h p = finished_full l i (ground arith) (omega arith)

-- What the wait leaves, from index `n` on.
abbrev Typed : ℕ → ℕ → List ℕ → Lines → Lines → Type 0
Typed t n l s s' =
    (s'.idx t ≡ n + length l + 1)
    × ((a : ℕ) → a < row t + n → s'.tbuf a ≡ s.tbuf a)
    × ((i : ℕ) → i ≤ length l → s'.tbuf (row t + n + i) ≡ text (finished l) i)

last_key :
    (t : ℕ) (s : Lines)
    → s.idx t < bufsize
    → line_is_ready t s ≡ false
    → wait_line t (keys []) s ≡ some (insert t b'\n' s).1
unfolding wait_line press line_is_ready insert
last_key t s h r = ground arith

first_key :
    (t c : ℕ) (l : List ℕ) (s : Lines)
    → line_is_ready t s ≡ false
    → wait_line t (keys (c ∷ l)) s ≡ wait_line t (keys l) (insert t c s).1
unfolding wait_line press
first_key t c l s r = rw r refl

not_ready :
    (t c : ℕ) (s : Lines)
    → s.idx t + 1 < bufsize
    → c ≢ b'\n'
    → line_is_ready t (insert t c s).1 ≡ false
unfolding line_is_ready insert
not_ready t c s h ne = ground arith

insert_lem :
    (t c : ℕ) (s : Lines)
    → s.idx t < bufsize
    → ((insert t c s).1.idx t ≡ s.idx t + 1)
      × ((a : ℕ) → (insert t c s).1.tbuf a ≡ (if a == row t + s.idx t then c else s.tbuf a))
unfolding insert
insert_lem t c s h = (ground arith, (λ a. ground arith))

wait_line_lem :
    (t n : ℕ) (l : List ℕ) (s : Lines)
    → s.idx t ≡ n
    → n + length l < bufsize
    → is_plain l ≡ true
    → line_is_ready t s ≡ false
    → (s' : Lines) × (wait_line t (keys l) s ≡ some s') × Typed t n l s s'
wait_line_lem t n [] s e h p r =
    let (ix, at) = insert_lem t b'\n' s (omega arith) in
    (
      (insert t b'\n' s).1,
      last_key t s (omega arith) r,
      (omega arith, (λ a q. ground (arith, at a)), (λ i q. ground (arith, at (row t + n + i)))),
    )
wait_line_lem t n (c ∷ l) s e h p r =
    let (ix, at) = insert_lem t c s (omega arith) in
    let (s', eq, (len, low, mid)) =
      wait_line_lem t (n + 1) l (insert t c s).1 (omega arith) (omega arith) (ground arith)
        (not_ready t c s (omega arith) (ground arith)) in
    (
      s',
      first_key t c l s r ∙ eq,
      (omega arith, (λ a q. ground (arith, at a, low a)), chars s' at low mid),
    )
  where
    chars :
        (s' : Lines)
        → ((a : ℕ) → (insert t c s).1.tbuf a ≡ (if a == row t + s.idx t then c else s.tbuf a))
        → ((a : ℕ) → a < row t + (n + 1) → s'.tbuf a ≡ (insert t c s).1.tbuf a)
        → ((i : ℕ) → i ≤ length l → s'.tbuf (row t + (n + 1) + i) ≡ text (finished l) i)
        → (i : ℕ) → i ≤ length (c ∷ l)
        → s'.tbuf (row t + n + i) ≡ text (finished (c ∷ l)) i
    chars s' at low mid zero q = ground (arith, at (row t + n + 0), low (row t + n + 0))
    chars s' at low mid (suc i) q = ap s'.tbuf (omega arith) ∙ mid i (omega arith)

clear_buf_lem :
    (buf : Mem) (i k a : ℕ) → clear_buf buf i k a ≡ (if leb i a && ltb a (i + k) then 0 else buf a)
unfolding clear_buf
clear_buf_lem buf i zero a = ground arith
clear_buf_lem buf i (suc k) a = ground (arith, clear_buf_lem (store buf i 0) (i + 1) k a)

cleared_not_ready : (t : ℕ) (s : Lines) → line_is_ready t (clearbuf t s) ≡ false
unfolding line_is_ready
cleared_not_ready t s = ground (arith, (clearbuf_lem t t 0 s).0)

take_line_lem :
    (t nbytes i : ℕ) (l : List ℕ) (buf : Mem) (s : Lines)
    → s.idx t ≡ length l + 1
    → is_plain l ≡ true
    → ((i : ℕ) → i ≤ length l → s.tbuf (row t + i) ≡ text (finished l) i)
    → let (n, b) = take_line t buf nbytes s in
      (n ≡ min nbytes (length l + 1))
      × (b i ≡ (if ltb i (min nbytes (length l + 1)) then text (finished l) i else buf i))
unfolding take_line
take_line_lem t nbytes i l buf s e p at = (
  ground arith,
  ground (arith, strncpy_lem buf line nbytes i, strncpy_lem buf line (length l + 1) i, same),
)
  where
    line : Mem
    line = offset s.tbuf (row t)

    same : i ≤ length l → char_of line i ≡ text (finished l) i
    same q =
        char_of_full line i
          (λ j r z. finished_full l j p (omega arith) (sym (at j (omega arith)) ∙ z))
        ∙ at i q

finished_last : (l : List ℕ) → text (finished l) (length l) ≡ b'\n'
finished_last [] = refl
finished_last (c ∷ l) = finished_last l

finish_full_lem :
    (t : ℕ) (l : List ℕ) (s : Lines)
    → s.idx t ≡ length l + 1
    → ((i : ℕ) → i ≤ length l → s.tbuf (row t + i) ≡ text (finished l) i)
    → finish_full t s ≡ some s
unfolding finish_full
finish_full_lem t l s e at =
    ground (arith, ap s.tbuf last, at (length l) (omega arith), finished_last l)
  where
    last : row t + s.idx t - 1 ≡ row t + length l
    last = omega arith

-- A line of fewer than 128 characters, none of them NUL or newline, that is typed while `tRead` waits
-- and ended by a newline: `tRead` ends, returns the length of the line with its newline, or `nbytes` where
-- that is less, and puts so many characters of it into the buffer; the other bytes of the buffer up to
-- the one behind `nbytes` are 0.
pub t_read_lem :
    (t nbytes : ℕ) (l : List ℕ) (buf : Mem) (s : Lines)
    → length l < bufsize
    → is_plain l ≡ true
    → (b : Mem) × (s' : Lines) × (t_read t (keys l) buf nbytes s
        ≡ some (min nbytes (length l + 1), b, s'))
      × ((i : ℕ)
          → b i ≡ (
              if ltb i (min nbytes (length l + 1))
              then text (finished l) i
              else if leb i nbytes
              then 0
              else buf i))
unfolding t_read
t_read_lem t nbytes l buf s h p =
    let (s', eq, (len, _, at)) =
      wait_line_lem t 0 l (clearbuf t s) (ground (arith, (clearbuf_lem t t 0 s).0)) (omega arith) p
        (cleared_not_ready t s) in
    let len' : s'.idx t ≡ length l + 1 = omega (arith, len) in
    let at' : (i : ℕ) → i ≤ length l → s'.tbuf (row t + i) ≡ text (finished l) i =
      λ i q. ap s'.tbuf (omega arith) ∙ at i q in
    let taken =
      λ (i : ℕ). take_line_lem t nbytes i l (clear_buf buf 0 (nbytes + 1)) s' len' p at' in
    (
      (take_line t (clear_buf buf 0 (nbytes + 1)) nbytes s').1,
      s',
      rw (eq, t_read, finish_full_lem t l s' len' at', t_read) (ground (arith, (taken 0).0)),
      (λ i. ground (arith, (taken i).1, clear_buf_lem buf 0 (nbytes + 1) i)),
    )
