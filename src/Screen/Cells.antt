-- ===== src/Screen/Cells.antt =====
-- What scrolling, clearing and the change of the screen do to the cells.
use cl_os.Prelude.{
  ℕ, zero, suc, ◌+◌, ◌*◌, ◌≤◌, ◌<◌, ◌≡◌, ◌⊎◌, refl, ap, ◌∙◌, ltb, leb, ◌&&◌, if◌then◌else◌, Mem,
  store, arith,
}
use cl_os.Screen.{
  video, attrib, video_term, put_cell, blank_cells, move_cells, scroll_at, keep_cells, show_cells,
}

-- The cell `i` of the screen at `base`: its character and its attribute.
abbrev pub char : Mem → ℕ → ℕ → ℕ
char mem base i = mem (base + 2 * i)

abbrev pub attr : Mem → ℕ → ℕ → ℕ
attr mem base i = mem (base + 2 * i + 1)

abbrev pub IsOutside : ℕ → ℕ → Type 0
IsOutside base a = (a < base) ⊎ (base + 4000 ≤ a)

blank_cells_lem :
    (mem : Mem) (base i k j : ℕ)
    → (char (blank_cells mem base i k) base j
        ≡ (if leb i j && ltb j (i + k) then b' ' else char mem base j))
      × (attr (blank_cells mem base i k) base j
          ≡ (if leb i j && ltb j (i + k) then attrib else attr mem base j))
unfolding blank_cells
blank_cells_lem mem base i zero j = (ground arith, ground arith)
blank_cells_lem mem base i (suc k) j =
    let (c, a) = blank_cells_lem (put_cell mem base i b' ') base (i + 1) k j in
    (ground (arith, c), ground (arith, a))

blank_cells_frame :
    (mem : Mem) (base i k a : ℕ)
    → i + k ≤ 2000
    → IsOutside base a
    → blank_cells mem base i k a ≡ mem a
unfolding blank_cells
blank_cells_frame mem base i zero a h o = refl
blank_cells_frame mem base i (suc k) a h o =
    ground (arith, blank_cells_frame (put_cell mem base i b' ') base (i + 1) k a (omega arith) o)

move_cells_lem :
    (mem : Mem) (base i k j : ℕ)
    → (char (move_cells mem base i k) base j
        ≡ (if leb i j && ltb j (i + k) then char mem base (j + 80) else char mem base j))
      × (attr (move_cells mem base i k) base j
          ≡ (if leb i j && ltb j (i + k) then attrib else attr mem base j))
unfolding move_cells
move_cells_lem mem base i zero j = (ground arith, ground arith)
move_cells_lem mem base i (suc k) j =
    let (c, a) =
      move_cells_lem (put_cell mem base i (mem (base + 2 * (i + 80)))) base (i + 1) k j in
    (ground (arith, c, here), ground (arith, a))
  where
    here : i ≡ j → mem (base + 2 * (i + 80)) ≡ mem (base + 2 * (j + 80))
    here e = ap mem (omega arith)

move_cells_frame :
    (mem : Mem) (base i k a : ℕ)
    → i + k ≤ 2000
    → IsOutside base a
    → move_cells mem base i k a ≡ mem a
unfolding move_cells
move_cells_frame mem base i zero a h o = refl
move_cells_frame mem base i (suc k) a h o = ground (
  arith,
  move_cells_frame (put_cell mem base i (mem (base + 2 * (i + 80)))) base (i + 1) k a (omega arith)
      o,
)

abbrev scrolled : Mem → ℕ → ℕ → ℕ → Mem
scrolled mem base n m = blank_cells (move_cells mem base 0 n) base n m

scrolled_lem :
    (mem : Mem) (base n m j : ℕ)
    → j < n + m
    → (char (scrolled mem base n m) base j ≡ (if ltb j n then char mem base (j + 80) else b' '))
      × (attr (scrolled mem base n m) base j ≡ attrib)
scrolled_lem mem base n m j h = (
  ground (
    arith,
    (blank_cells_lem (move_cells mem base 0 n) base n m j).0,
    (move_cells_lem mem base 0 n j).0,
  ),
  ground (
    arith,
    (blank_cells_lem (move_cells mem base 0 n) base n m j).1,
    (move_cells_lem mem base 0 n j).1,
  ),
)

scrolled_frame :
    (mem : Mem) (base n m a : ℕ) → n + m ≤ 2000 → IsOutside base a → scrolled mem base n m a ≡ mem a
scrolled_frame mem base n m a h o =
    blank_cells_frame (move_cells mem base 0 n) base n m a h o
    ∙ move_cells_frame mem base 0 n a (omega arith) o

-- Scrolling moves the characters of the rows 1 to 24 up by one row, blanks the last row, gives every cell
-- the attribute 7, and changes no byte outside the 4000 bytes of its screen.
pub scroll_at_lem :
    (mem : Mem) (base : ℕ)
    → ((j : ℕ)
        → j < 2000
        → char (scroll_at mem base) base j ≡ (if ltb j 1920 then char mem base (j + 80) else b' '))
      × ((j : ℕ) → j < 2000 → attr (scroll_at mem base) base j ≡ attrib)
      × ((a : ℕ) → IsOutside base a → scroll_at mem base a ≡ mem a)
unfolding scroll_at
scroll_at_lem mem base = (
  (λ j h. (scrolled_lem mem base 1920 80 j h).0),
  (λ j h. (scrolled_lem mem base 1920 80 j h).1),
  (λ a o. scrolled_frame mem base 1920 80 a (omega arith) o),
)

blanked_lem :
    (mem : Mem) (base n j : ℕ)
    → j < n
    → (char (blank_cells mem base 0 n) base j ≡ b' ')
      × (attr (blank_cells mem base 0 n) base j ≡ attrib)
blanked_lem mem base n j h = (
  ground (arith, (blank_cells_lem mem base 0 n j).0),
  ground (arith, (blank_cells_lem mem base 0 n j).1),
)

pub blanked_frame :
    (mem : Mem) (base n a : ℕ) → n ≤ 2000 → IsOutside base a → blank_cells mem base 0 n a ≡ mem a
blanked_frame mem base n a h o = blank_cells_frame mem base 0 n a (omega arith) o

pub keep_cells_lem :
    (mem : Mem) (t i k : ℕ)
    → 1 ≤ t
    → t ≤ 3
    → i + k ≤ 2000
    → ((j : ℕ) → j < 2000 → char (keep_cells mem t i k) video j ≡ char mem video j)
      × ((j : ℕ)
          → j < 2000
          → char (keep_cells mem t i k) (video_term t) j
            ≡ (if leb i j && ltb j (i + k) then char mem video j else char mem (video_term t) j))
unfolding keep_cells
keep_cells_lem mem t i zero lo hi h = ((λ j q. refl), (λ j q. ground arith))
keep_cells_lem mem t i (suc k) lo hi h =
    let (v, r) =
      keep_cells_lem (store mem (video_term t + 2 * i) (mem (video + 2 * i))) t (i + 1) k lo hi
        (omega arith) in
    ((λ j q. ground (arith, v j q)), (λ j q. ground (arith, r j q, here j)))
  where
    here : (j : ℕ) → i ≡ j → mem (video + 2 * i) ≡ mem (video + 2 * j)
    here j e = ap mem (omega arith)

pub show_cells_lem :
    (mem : Mem) (t i k j : ℕ)
    → 1 ≤ t
    → t ≤ 3
    → i + k ≤ 2000
    → j < 2000
    → char (show_cells mem t i k) video j
      ≡ (if leb i j && ltb j (i + k) then char mem (video_term t) j else char mem video j)
unfolding show_cells
show_cells_lem mem t i zero j lo hi h q = ground arith
show_cells_lem mem t i (suc k) j lo hi h q = ground (
  arith,
  show_cells_lem (put_cell mem video i (mem (video_term t + 2 * i))) t (i + 1) k j lo hi
      (omega arith) q,
  here,
)
  where
    here : i ≡ j → mem (video_term t + 2 * i) ≡ mem (video_term t + 2 * j)
    here e = ap mem (omega arith)

back_again :
    (mem mem' : Mem) (t n : ℕ)
    → 1 ≤ t
    → t ≤ 3
    → n ≤ 2000
    → ((j : ℕ) → j < n → char mem' (video_term t) j ≡ char (keep_cells mem t 0 n) (video_term t) j)
    → (j : ℕ) → j < n
    → char (show_cells mem' t 0 n) video j ≡ char mem video j
back_again mem mem' t n lo hi h same j q = ground (
  arith,
  show_cells_lem mem' t 0 n j lo hi (omega arith) (omega arith),
  same j q,
  (keep_cells_lem mem t 0 n lo hi (omega arith)).1 j (omega arith),
)

-- The visible characters that a change of the screen keeps for terminal `t` are the ones that a later
-- change back to `t` shows, if the page of `t` still has them, whatever else has changed in between.
pub show_cells-keep_cells :
    (mem mem' : Mem) (t : ℕ)
    → 1 ≤ t
    → t ≤ 3
    → ((j : ℕ)
        → j < 2000
        → char mem' (video_term t) j ≡ char (keep_cells mem t 0 2000) (video_term t) j)
    → (j : ℕ) → j < 2000
    → char (show_cells mem' t 0 2000) video j ≡ char mem video j
show_cells-keep_cells mem mem' t lo hi same j q =
    back_again mem mem' t 2000 lo hi (omega arith) same j q
