-- ===== src/Console/Sound.antt =====
-- The invariant of the console: no line is longer than its row, every cursor is on the screen, and `keyInt` is 0 between
-- interrupts.
use Prim.Native.Nat.{bit_and}
use cl_os.Prelude.{
  ℕ, ◌≡◌, ◌==◌, leb, ◌&&◌, Mem, Option, none, some, Holds, no_result, has_result, if-Holds,
  map-Holds, elim-Holds, arith,
}
use cl_os.Machine.{Machine}
use cl_os.Process.{Stack, Outcome, returned, entered, resumed}
use cl_os.Terminal.{Lines, clearbuf}
use cl_os.Terminal.Line.{IsBounded, clearbuf_lem}
use cl_os.Screen.{Screen, clear, backspace}
use cl_os.Screen.Cursor.{IsOnScreen}
use cl_os.Printf.OnScreen.{printf-IsShown}
use cl_os.Console.{
  Console, Turn, returns, leaves, print, updatecursor, stay, keep, reveal, after_execute, prepare,
  change_to, change, screen_change, mess_text, higher_text, different_text,
}

pub record IsSound {S : Type 0} (s : Console S) : Type 0 where
  pub lines : IsBounded s.lines
  pub screen : IsOnScreen s.screen
  pub quiet : s.key_int ≡ 0

-- The same but for `keyInt`.
abbrev pub IsPlaced : {S : Type 0} → Console S → Type 0
IsPlaced s = IsBounded s.lines × IsOnScreen s.screen

abbrev pub IsSoundTurn : {S : Type 0} → Turn S → Type 0
IsSoundTurn (returns s) = IsSound s
IsSoundTurn (leaves s) = IsSound s

pub clearbuf-IsBounded : (t : ℕ) (s : Lines) → IsBounded s → IsBounded (clearbuf t s)
clearbuf-IsBounded t s h u = ground (arith, (clearbuf_lem t u 0 s).0, h u)

pub clear-IsOnScreen : (t : ℕ) (s : Screen) → IsOnScreen s → IsOnScreen (clear t s)
unfolding clear cl_os.Screen.set_at
clear-IsOnScreen t s h u = (ground (arith, h u), ground (arith, h u))

pub print-IsSound :
    {S : Type 0} (fuel : ℕ) (format : Mem) (c : ℕ) (s : Console S)
    → IsSound s
    → Holds IsSound (print fuel format c s)
unfolding print
print-IsSound fuel format c s h =
    map-Holds _ (printf-IsShown _ _ _ _ _ _ fuel format s.screen h.screen)
      (λ r k. record { lines = h.lines; screen = k; quiet = h.quiet })

pub print-IsPlaced :
    {S : Type 0} (fuel : ℕ) (format : Mem) (c : ℕ) (s : Console S)
    → IsPlaced s
    → Holds IsPlaced (print fuel format c s)
unfolding print
print-IsPlaced fuel format c s (l, h) =
    map-Holds _ (printf-IsShown _ _ _ _ _ _ fuel format s.screen h) (λ r k. (l, k))

module _ (m : Machine) where
  open m use {State}

  pub updatecursor-IsSound : (s : Console State) → IsSound s → IsSound (updatecursor m s)
  unfolding updatecursor
  updatecursor-IsSound s h = record { lines = h.lines; screen = h.screen; quiet = h.quiet }

  stay-IsSound : (fuel new : ℕ) (s : Console State) → IsSound s → Holds IsSound (stay m fuel new s)
  unfolding stay
  stay-IsSound fuel new s h =
      if-Holds (leb 1 new && leb new 3)
        (map-Holds _ (print-IsSound fuel _ 0 s h) (λ c k. updatecursor-IsSound _ (record {
          lines = clearbuf-IsBounded (c.kernel.pcbs c.kernel.cur).cur_terminal c.lines k.lines;
          screen = k.screen;
          quiet = k.quiet;
        })))
        (map-Holds _ (print-IsSound fuel mess_text 0 s h) updatecursor-IsSound)

  keep-IsSound : (fuel : ℕ) (s : Console State) → IsSound s → Holds IsSound (keep m fuel s)
  unfolding keep
  keep-IsSound fuel s h =
      if-Holds (leb 1 s.kernel.current_terminal && leb s.kernel.current_terminal 3)
        (has_result (record { lines = h.lines; screen = h.screen; quiet = h.quiet }))
        (print-IsSound fuel different_text 0 s h)

  reveal-IsSound : (t : ℕ) (s : Console State) → IsSound s → IsSound (reveal m t s)
  unfolding reveal
  reveal-IsSound t s h =
      updatecursor-IsSound _ (record { lines = h.lines; screen = h.screen; quiet = h.quiet })

  after_execute-IsSoundTurn :
      (t : ℕ) (s : Console State) (o : Option Outcome)
      → IsSound s
      → Holds IsSoundTurn (after_execute m t s o)
  unfolding after_execute
  after_execute-IsSoundTurn t s none h = no_result
  after_execute-IsSoundTurn t s (some (returned r k)) h = has_result (
      reveal-IsSound t (record s { kernel = k })
        (record { lines = h.lines; screen = h.screen; quiet = h.quiet }))
  after_execute-IsSoundTurn t s (some (entered k)) h =
      has_result (record { lines = h.lines; screen = h.screen; quiet = h.quiet })
  after_execute-IsSoundTurn t s (some (resumed n k)) h =
      has_result (record { lines = h.lines; screen = h.screen; quiet = h.quiet })

  prepare-IsSound : (t bit : ℕ) (s : Console State) → IsSound s → IsSound (prepare m t bit s)
  unfolding prepare
  prepare-IsSound t bit s h = record {
    lines = h.lines;
    screen = clear-IsOnScreen t s.screen h.screen;
    quiet = h.quiet;
  }

  module _ (bblock : Mem) (st : Stack) where
    change_to-IsSoundTurn :
        (fuel t bit : ℕ) (s : Console State)
        → IsSound s
        → Holds IsSoundTurn (change_to m bblock st fuel t bit s)
    unfolding change_to
    change_to-IsSoundTurn fuel t bit s h =
        if-Holds (s.kernel.pid_bitmap == 0x3f && bit_and s.kernel.num_shells bit == 0)
          (has_result h)
          (if-Holds (bit_and s.kernel.num_shells bit == 0)
            (after_execute-IsSoundTurn t _ _ (prepare-IsSound t bit s h))
            (has_result (reveal-IsSound t s h)))

    change-IsSoundTurn :
        (fuel new : ℕ) (s : Console State)
        → IsSound s
        → Holds IsSoundTurn (change m bblock st fuel new s)
    unfolding change
    change-IsSoundTurn fuel new s h = if-Holds (new == 1) (change_to-IsSoundTurn fuel 1 1 s h) (
        if-Holds (new == 2) (change_to-IsSoundTurn fuel 2 2 s h) (
          if-Holds (new == 3) (change_to-IsSoundTurn fuel 3 4 s h)
            (map-Holds _ (print-IsSound fuel higher_text 0 s h) (λ c k. k))))

    pub screen_change-IsSoundTurn :
        (fuel new : ℕ) (s : Console State)
        → IsSound s
        → Holds IsSoundTurn (screen_change m bblock st fuel new s)
    unfolding screen_change
    screen_change-IsSoundTurn fuel new s h =
        if-Holds (new == s.kernel.current_terminal)
          (map-Holds _ (stay-IsSound fuel new s h) (λ c k. k))
          (elim-Holds _ (keep-IsSound fuel s h) (change-IsSoundTurn fuel new))
