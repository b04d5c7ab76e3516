-- ===== src/Screen/Cursor.antt =====
-- The cursor stays on the screen, and a terminal that is not visible leaves the visible screen alone.
use cl_os.Prelude.{
  ℕ, ◌+◌, ◌*◌, ◌<◌, ◌≡◌, ◌≢◌, ◌==◌, ◌!=◌, ◌||◌, if◌then◌else◌, Mem, arith, Bool, true, false, ap,
  ◌∙◌,
}
use cl_os.Screen.{
  Screen, video, video_term, num_cols, num_rows, put_cell, scroll_at, t_scroll, set_at, step_back,
  backspace, put_to, putc,
}
use cl_os.Screen.Cells.{IsOutside, scroll_at_lem}

-- Every terminal's cursor is on a cell.
abbrev pub IsOnScreen : Screen → Type 0
IsOnScreen s = (u : ℕ) → (s.screen_x u < num_cols) × (s.screen_y u < num_rows)

put_to-IsOnScreen :
    (scroll : Mem → Mem) (u base c : ℕ) (s : Screen)
    → IsOnScreen s
    → IsOnScreen (put_to scroll u base c s)
unfolding put_to set_at
put_to-IsOnScreen scroll u base c s h v = (ground (arith, h v, h u), ground (arith, h v, h u))

either-IsOnScreen :
    (b : Bool) (s s' : Screen) → IsOnScreen s → IsOnScreen s' → IsOnScreen (if b then s else s')
either-IsOnScreen true s s' h h' = h
either-IsOnScreen false s s' h h' = h'

-- If every cursor is on the screen, every cursor is so after `putc` of any character.
pub putc-IsOnScreen :
    (current t key_int c : ℕ) (s : Screen) → IsOnScreen s → IsOnScreen (putc current t key_int c s)
unfolding putc
putc-IsOnScreen current t key_int c s h =
    either-IsOnScreen (t == current || key_int != 0) _ _
      (put_to-IsOnScreen (t_scroll current t) current video c s h)
      (put_to-IsOnScreen (t_scroll current t) t (video_term t) c s h)

-- If every cursor is on the screen, every cursor is so after `backspace`.
pub backspace-IsOnScreen :
    (current : ℕ) (s : Screen) → IsOnScreen s → IsOnScreen (backspace current s)
unfolding backspace step_back set_at
backspace-IsOnScreen current s h v =
    (ground (arith, h v, h current), ground (arith, h v, h current))

t_scroll_hidden :
    (current t : ℕ) (mem : Mem)
    → t ≢ current
    → t_scroll current t mem ≡ scroll_at mem (video_term t)
unfolding t_scroll
t_scroll_hidden current t mem ne = ground arith

put_to_frame :
    (scroll : Mem → Mem) (u base c a : ℕ) (s : Screen)
    → ((mem : Mem) → scroll mem a ≡ mem a)
    → IsOutside base a
    → s.screen_x u < num_cols
    → s.screen_y u < num_rows
    → (put_to scroll u base c s).mem a ≡ s.mem a
unfolding put_to
put_to_frame scroll u base c a s keeps o hx hy = ground (
  arith,
  keeps s.mem,
  keeps (put_cell s.mem base (num_cols * s.screen_y u + s.screen_x u) c),
  here,
)
  where
    here : put_cell s.mem base (num_cols * s.screen_y u + s.screen_x u) c a ≡ s.mem a
    here = ground arith

-- With every cursor on the screen, a `putc` of a process of terminal `t` that is not the visible one, outside
-- the keyboard handler, changes no byte but those of the page of `t`; the 4000 bytes of video memory in
-- particular stay as they are.
pub putc_hidden :
    (current t c a : ℕ) (s : Screen)
    → t ≢ current
    → IsOnScreen s
    → IsOutside (video_term t) a
    → (putc current t 0 c s).mem a ≡ s.mem a
unfolding putc
putc_hidden current t c a s ne h o =
    second (t == current || 0 != 0) _ _ (ground arith)
      (put_to_frame (t_scroll current t) t (video_term t) c a s keeps o (h t).0 (h t).1)
  where
    second :
        (b : Bool) (s1 s2 : Screen)
        → b ≡ false
        → s2.mem a ≡ s.mem a
        → (if b then s1 else s2).mem a ≡ s.mem a
    second true s1 s2 e q = ground arith
    second false s1 s2 e q = q

    t_scroll_hidden' : (mem : Mem) → t_scroll current t mem a ≡ scroll_at mem (video_term t) a
    t_scroll_hidden' mem = ap (λ (m : Mem). m a) (t_scroll_hidden current t mem ne)

    keeps : (mem : Mem) → t_scroll current t mem a ≡ mem a
    keeps mem = t_scroll_hidden' mem ∙ (scroll_at_lem mem (video_term t)).2 a o

newline_scrolls :
    (scroll : Mem → Mem) (u base : ℕ) (s : Screen)
    → s.screen_y u ≡ 24
    → (put_to scroll u base b'\n' s).mem ≡ scroll s.mem
unfolding put_to
newline_scrolls scroll u base s y = ground arith

-- A newline that the keyboard handler echoes on the last row of the visible terminal, while a process of
-- another terminal `t` runs: what scrolls is the page of `t`, and no visible cell moves.
pub putc_echo :
    (current t key_int : ℕ) (s : Screen)
    → t ≢ current
    → key_int ≢ 0
    → s.screen_y current ≡ 24
    → (putc current t key_int b'\n' s).mem ≡ scroll_at s.mem (video_term t)
unfolding putc
putc_echo current t key_int s ne k y =
    first (t == current || key_int != 0) _ _ (ground arith)
      (newline_scrolls (t_scroll current t) current video s y ∙ t_scroll_hidden current t s.mem ne)
  where
    first :
        (b : Bool) (s1 s2 : Screen)
        → b ≡ true
        → s1.mem ≡ scroll_at s.mem (video_term t)
        → (if b then s1 else s2).mem ≡ scroll_at s.mem (video_term t)
    first true s1 s2 e q = q
    first false s1 s2 e q = ground arith
