-- ===== src/Terminal/Editor.antt =====
-- What a line of terminal.c promises: a list of characters, newest first, of at most `BUFSIZE`.
use cl_os.Prelude.{
  ℕ, zero, suc, ◌+◌, ◌-◌, ◌≤◌, ◌<◌, ◌≡◌, refl, ap, ◌∙◌, inl, inr, ltb, if◌then◌else◌, Mem, store,
  List, [], ◌∷◌, arith, true, false, Option, none, some, ◌++◌, Bool-cases,
}
use cl_os.Terminal.{
  Lines, row, bufsize, insert, backspacebuf, Key, typed, erased, press, line_is_ready, wait_line,
}

-- The list of the first `n` bytes at `base`.
abbrev pub newest : Mem → ℕ → ℕ → List ℕ
newest tbuf base zero = []
newest tbuf base (suc n) = tbuf (base + n) ∷ newest tbuf base n

-- The line of a terminal.
abbrev pub line : ℕ → Lines → List ℕ
line t s = newest s.tbuf (row t) (s.idx t)

abbrev pub length : List ℕ → ℕ
length [] = 0
length (c ∷ l) = suc (length l)

-- A key on a list: a letter goes in front where there is room, a backspace takes the front off.
abbrev pub edit : Key → List ℕ → List ℕ
edit (typed letter) l = if ltb 127 (length l) then l else letter ∷ l
edit erased [] = []
edit erased (c ∷ l) = l

abbrev pub press_all : ℕ → List Key → Lines → Lines
press_all t [] s = s
press_all t (key ∷ keys) s = press_all t keys (press t key s)

abbrev pub edit_all : List Key → List ℕ → List ℕ
edit_all [] l = l
edit_all (key ∷ keys) l = edit_all keys (edit key l)

length-newest : (tbuf : Mem) (base n : ℕ) → length (newest tbuf base n) ≡ n
length-newest tbuf base zero = refl
length-newest tbuf base (suc n) = ap suc (length-newest tbuf base n)

newest-store :
    (tbuf : Mem) (base n a c : ℕ)
    → base + n ≤ a
    → newest (store tbuf a c) base n ≡ newest tbuf base n
newest-store tbuf base zero a c h = refl
newest-store tbuf base (suc n) a c h = ground (arith, newest-store tbuf base n a c)

-- A line of `n` characters that are those of `s` in front of it.
line-at :
    (t n : ℕ) (s s' : Lines)
    → s'.idx t ≡ n
    → newest s'.tbuf (row t) n ≡ newest s.tbuf (row t) n
    → line t s' ≡ newest s.tbuf (row t) n
line-at t n s s' e h = ap (newest s'.tbuf (row t)) e ∙ h

pub insert-line :
    (t letter : ℕ) (s : Lines) → line t (insert t letter s).1 ≡ edit (typed letter) (line t s)
unfolding insert
insert-line t letter s = ground (
  arith,
  length-newest s.tbuf (row t) (s.idx t),
  newest-store s.tbuf (row t) (s.idx t) (row t + s.idx t) letter,
)

erase-line :
    (t n : ℕ) (s : Lines)
    → s.idx t ≡ n
    → line t (backspacebuf t s).1 ≡ edit erased (newest s.tbuf (row t) n)
unfolding backspacebuf
erase-line t zero s e = line-at t 0 s (backspacebuf t s).1 (ground (arith, e)) refl
erase-line t (suc n) s e =
    line-at t n s (backspacebuf t s).1 (ground (arith, e))
      (ground (arith, e, newest-store s.tbuf (row t) n (row t + s.idx t - 1) 0))

press-line : (t : ℕ) (key : Key) (s : Lines) → line t (press t key s) ≡ edit key (line t s)
unfolding press
press-line t (typed letter) s = insert-line t letter s
press-line t erased s = erase-line t (s.idx t) s refl

-- The keys that come in for a terminal, in their order, change its line as they change the list of its
-- characters: a letter goes to the end of the list where it has less than 128 characters and is dropped where it has
-- 128, and a backspace takes the last character off, if there is one.
pub press_all-line :
    (t : ℕ) (keys : List Key) (s : Lines) → line t (press_all t keys s) ≡ edit_all keys (line t s)
press_all-line t [] s = refl
press_all-line t (key ∷ keys) s =
    press_all-line t keys (press t key s) ∙ ap (edit_all keys) (press-line t key s)

-- No key of the list, and no start of it, makes the line ready.
abbrev pub NeverReady : ℕ → List Key → Lines → Type 0
NeverReady t [] s = line_is_ready t s ≡ false
NeverReady t (key ∷ keys) s = (line_is_ready t s ≡ false) × NeverReady t keys (press t key s)

-- What the wait of `tRead` comes to.
abbrev pub IsWaited : ℕ → List Key → Lines → Option Lines → Type 0
IsWaited t keys s none = NeverReady t keys s
IsWaited t keys s (some s') =
    (taken : List Key) × (left : List Key) × (keys ≡ taken ++ left)
    × (line t s' ≡ edit_all taken (line t s))
    × (line_is_ready t s' ≡ true)

IsWaited-cons :
    (t : ℕ) (key : Key) (keys : List Key) (s : Lines) (o : Option Lines)
    → line_is_ready t s ≡ false
    → IsWaited t keys (press t key s) o
    → IsWaited t (key ∷ keys) s o
IsWaited-cons t key keys s none e w = (e, w)
IsWaited-cons t key keys s (some s') e (taken, left, split, l, r) =
    (key ∷ taken, left, ap (λ l. key ∷ l) split, l ∙ ap (edit_all taken) (press-line t key s), r)

-- The wait of `tRead` takes keys, in their order, until the line is ready: the line is then what these keys make
-- of the list of characters at the start. If it still waits behind the last key, the line was not ready behind any of
-- them.
pub wait_line-IsWaited :
    (t : ℕ) (keys : List Key) (s : Lines) → IsWaited t keys s (wait_line t keys s)
unfolding wait_line
wait_line-IsWaited t [] s = elim (Bool-cases (line_is_ready t s)) [
  | inl e ↦ rw (e, wait_line) ([], [], refl, refl, e)
  | inr e ↦ rw (e, wait_line) e
]
wait_line-IsWaited t (key ∷ keys) s = elim (Bool-cases (line_is_ready t s)) [
  | inl e ↦ rw (e, wait_line) ([], key ∷ keys, refl, refl, e)
  | inr e ↦
      rw (e, wait_line)
        (IsWaited-cons t key keys s (wait_line t keys (press t key s)) e
          (wait_line-IsWaited t keys (press t key s)))
]

-- A backspace takes off the letter that was typed in front of it, on a line that is not full.
pub backspacebuf-insert-line :
    (t letter : ℕ) (s : Lines)
    → s.idx t < bufsize
    → line t (backspacebuf t (insert t letter s).1).1 ≡ line t s
unfolding press
backspacebuf-insert-line t letter s h =
    press-line t erased (insert t letter s).1 ∙ ap (edit erased) (insert-line t letter s ∙ room)
  where
    room : edit (typed letter) (line t s) ≡ letter ∷ line t s
    room = ground (arith, length-newest s.tbuf (row t) (s.idx t), h)
