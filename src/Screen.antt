-- ===== src/Screen.antt =====
-- The screen of filesIWorkedOn/lib.c: cells of two bytes, a character and its attribute, in video memory
-- for the visible terminal and in a page of its own for each terminal. Terminals are numbered from
-- 1; `screen_x[t-1]` is `screen_x t`.
pub mod Cells
pub mod Pages
pub mod Cursor
use cl_os.Prelude.{
  ℕ, zero, suc, ◌+◌, ◌-◌, ◌*◌, ◌/◌, ◌%◌, ◌==◌, ◌!=◌, ltb, ◌&&◌, ◌||◌, if◌then◌else◌, Mem, store,
  Option, none, some,
}

abbrev pub video : ℕ
video = 0xb8000

abbrev pub num_cols : ℕ
num_cols = 80

abbrev pub num_rows : ℕ
num_rows = 25

abbrev pub attrib : ℕ
attrib = 7

-- `VIDEO_TERM + VIDEO_OFFSET * t`
abbrev pub video_term : ℕ → ℕ
video_term t = 0x8800000 + 0x1000 * t

pub record Screen : Type 0 where
  pub screen_x : ℕ → ℕ
  pub screen_y : ℕ → ℕ
  pub mem : Mem

-- The two stores for cell `i` of the screen at `base`.
abbrev pub put_cell : Mem → ℕ → ℕ → ℕ → Mem
put_cell mem base i c = store (store mem (base + 2 * i) c) (base + 2 * i + 1) attrib

-- The loops that blank cells and that move them up by one row, from cell `i` on, `k` rounds.
unfoldable pub blank_cells : Mem → ℕ → ℕ → ℕ → Mem
blank_cells mem base i zero = mem
blank_cells mem base i (suc k) = blank_cells (put_cell mem base i b' ') base (i + 1) k

unfoldable pub move_cells : Mem → ℕ → ℕ → ℕ → Mem
move_cells mem base i zero = mem
move_cells mem base i (suc k) =
    move_cells (put_cell mem base i (mem (base + 2 * (i + num_cols)))) base (i + 1) k

unfoldable pub scroll_at : Mem → ℕ → Mem
unfolding blank_cells move_cells
scroll_at mem base = blank_cells (move_cells mem base 0 1920) base 1920 80

-- `current` is `currentTerminal`, and `t` is `pcb->curTerminal`.
unfoldable pub t_scroll : ℕ → ℕ → Mem → Mem
unfolding scroll_at
t_scroll current t mem = if t != current then scroll_at mem (video_term t) else scroll_at mem video

unfoldable pub set_at : (ℕ → ℕ) → ℕ → ℕ → ℕ → ℕ
set_at f t v u = if u == t then v else f u

unfoldable pub clear : ℕ → Screen → Screen
unfolding blank_cells set_at
clear current s = record {
  screen_x = set_at s.screen_x current 0;
  screen_y = set_at s.screen_y current 0;
  mem = blank_cells s.mem video 0 2000;
}

-- Where `backspace` puts the cursor: column and row.
unfoldable pub step_back : ℕ → ℕ → ℕ × ℕ
step_back x y =
    if ltb 0 y
    then if x == 0
      then (79, y - 1)
      else ((x - 1) % num_cols, (y + (x - 1) % num_cols / num_cols) % num_rows)
    else if ltb 0 x
    then (x - 1, y)
    else (x, y)

unfoldable pub backspace : ℕ → Screen → Screen
unfolding step_back set_at
backspace current s =
    let (x, y) = step_back (s.screen_x current) (s.screen_y current) in
    record {
      screen_x = set_at s.screen_x current x;
      screen_y = set_at s.screen_y current y;
      mem = put_cell s.mem video (num_cols * y + x) b' ';
    }

-- The two branches of `putc` differ in the terminal `u` and the memory at `base` alone.
unfoldable pub put_to : (Mem → Mem) → ℕ → ℕ → ℕ → Screen → Screen
unfolding set_at
put_to scroll u base c s =
    let x = s.screen_x u in
    let y = s.screen_y u in
    let mem' = put_cell s.mem base (num_cols * y + x) c in
    if c == b'\n' || c == b'\r'
    then record {
      screen_x = set_at s.screen_x u 0;
      screen_y = if y == 24 then s.screen_y else set_at s.screen_y u (y + 1);
      mem = if y == 24 then scroll s.mem else s.mem;
    }
    else record {
      screen_x = set_at s.screen_x u ((x + 1) % num_cols);
      screen_y =
          if y == 24 && x + 1 == num_cols
          then s.screen_y
          else set_at s.screen_y u ((y + (x + 1) / num_cols) % num_rows);
      mem = if y == 24 && x + 1 == num_cols then scroll mem' else mem';
    }

unfoldable pub putc : ℕ → ℕ → ℕ → ℕ → Screen → Screen
unfolding put_to t_scroll
putc current t key_int c s =
    if t == current || key_int != 0
    then put_to (t_scroll current t) current video c s
    else put_to (t_scroll current t) t (video_term t) c s

-- The loop of `puts` from `index` on: the index where it stops; `none` without fuel.
unfoldable pub puts_from : ℕ → ℕ → ℕ → ℕ → Mem → ℕ → Screen → Option (ℕ × Screen)
unfolding putc
puts_from zero current t key_int str index s = none
puts_from (suc fuel) current t key_int str index s =
    let rest =
      puts_from fuel current t key_int str (index + 1) (putc current t key_int (str index) s) in
    if str index != 0 then rest else some (index, s)

unfoldable pub puts : ℕ → ℕ → ℕ → ℕ → Mem → Screen → Option (ℕ × Screen)
unfolding puts_from
puts fuel current t key_int str s = puts_from fuel current t key_int str 0 s

-- The two loops of `screenChange` that keep the characters of the visible screen in a terminal's page, and
-- that show a terminal's page.
unfoldable pub keep_cells : Mem → ℕ → ℕ → ℕ → Mem
keep_cells mem t i zero = mem
keep_cells mem t i (suc k) =
    keep_cells (store mem (video_term t + 2 * i) (mem (video + 2 * i))) t (i + 1) k

unfoldable pub show_cells : Mem → ℕ → ℕ → ℕ → Mem
show_cells mem t i zero = mem
show_cells mem t i (suc k) =
    show_cells (put_cell mem video i (mem (video_term t + 2 * i))) t (i + 1) k
