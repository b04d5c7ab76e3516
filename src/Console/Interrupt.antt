-- ===== src/Console/Interrupt.antt =====
-- What the keyboard's interrupt keeps.
use cl_os.Prelude.{
  ℕ, zero, suc, ◌/◌, ◌%◌, refl, ◌==◌, ◌!=◌, ltb, ◌&&◌, if◌then◌else◌, Bool, true, false, ℤ, pos,
  negsuc, Mem, Option, none, some, Holds, no_result, has_result, if-Holds, map-Holds, elim-Holds,
}
use cl_os.Machine.{Machine}
use cl_os.Pic.{enable_irq, send_eoi}
use cl_os.Process.{Stack}
use cl_os.Terminal.{Lines, insert, backspacebuf, typed, erased, press}
use cl_os.Terminal.Line.{IsBounded, press-IsBounded}
use cl_os.Screen.{backspace}
use cl_os.Screen.Cursor.{backspace-IsOnScreen}
use cl_os.Keyboard.{caps, scan2_let, key_letter}
use cl_os.Console.{Console, Turn, returns, leaves, updatecursor}
use cl_os.Console.Handler.{
  char_format, read_port, wait_make, wait_release, echo, control, erase, shifted, shift_round,
  shift_loop, type_key, finish, alternate, dispatch, keyboard_handler, keyboard_init,
}
use cl_os.Console.Sound.{
  IsSound, IsPlaced, IsSoundTurn, clearbuf-IsBounded, clear-IsOnScreen, print-IsPlaced,
  updatecursor-IsSound, screen_change-IsSoundTurn,
}

insert-IsBounded : (t letter : ℕ) (s : Lines) → IsBounded s → IsBounded (insert t letter s).1
unfolding press
insert-IsBounded t letter s h = press-IsBounded t (typed letter) s h

backspacebuf-IsBounded : (t : ℕ) (s : Lines) → IsBounded s → IsBounded (backspacebuf t s).1
unfolding press
backspacebuf-IsBounded t s h = press-IsBounded t erased s h

abbrev IsSoundRound : {S : Type 0} → Bool × Console S → Type 0
IsSoundRound (b, s) = IsSound s

module _ (m : Machine) where
  open m use {State, inb}

  -- Sound, with other ports.
  moved : (s : Console State) (p : State) → IsSound s → IsSound (record s { ports = p })
  moved s p h = record { lines = h.lines; screen = h.screen; quiet = h.quiet }

  pub read-IsSound : (port : ℕ) (s : Console State) → IsSound s → IsSound (read_port m port s).1
  read-IsSound port s h = moved s (inb s.ports port).1 h

  -- The console after `keyboard_init` is sound if the lines and the cursors are.
  pub keyboard_init-IsSound : (s : Console State) → IsPlaced s → IsSound (keyboard_init m s)
  unfolding keyboard_init
  keyboard_init-IsSound s (l, h) = either ((inb s.ports 0x64).0 % 2 == 0) _ _
    where
      either :
          (b : Bool) (x y : State)
          → let s2 = if b then record s { ports = x } else record s { ports = y } in
            IsSound (record s2 { ports = enable_irq m 1 s2.ports; key_int = 0 })
      either true x y = record { lines = l; screen = h; quiet = refl }
      either false x y = record { lines = l; screen = h; quiet = refl }

  pub wait_make-IsSound :
      (fuel : ℕ) (s : Console State) → IsSound s → Holds IsSound (wait_make m fuel s)
  unfolding wait_make
  wait_make-IsSound zero s h = no_result
  wait_make-IsSound (suc fuel) s h =
      let h' = read-IsSound 0x64 s h in
      if-Holds ((read_port m 0x64 s).0 % 2 == 1) (has_result h')
        (wait_make-IsSound fuel (read_port m 0x64 s).1 h')

  wait_release-IsSound :
      (fuel : ℕ) (s : Console State) → IsSound s → Holds IsSound (wait_release m fuel s)
  unfolding wait_release
  wait_release-IsSound zero s h = no_result
  wait_release-IsSound (suc fuel) s h =
      let h' = read-IsSound 0x60 s h in
      if-Holds ((read_port m 0x60 s).0 != 0x9d)
        (wait_release-IsSound fuel (read_port m 0x60 s).1 h') (has_result h')

  echo-IsSound :
      (fuel letter : ℕ) (s : Console State) → IsSound s → Holds IsSound (echo m fuel letter s)
  unfolding echo updatecursor
  echo-IsSound fuel letter s h =
      let bounded = insert-IsBounded s.kernel.current_terminal letter s.lines h.lines in
      let typing : Console State = record s {
        lines = (insert s.kernel.current_terminal letter s.lines).1;
        key_int = 1;
      } in
      if-Holds (ltb (insert s.kernel.current_terminal letter s.lines).0 128)
        (map-Holds _ (print-IsPlaced fuel char_format letter typing (bounded, h.screen))
          (λ c k. record { lines = k.0; screen = k.1; quiet = refl }))
        (has_result (record { lines = bounded; screen = h.screen; quiet = h.quiet }))

  control-IsSound : (fuel : ℕ) (s : Console State) → IsSound s → Holds IsSound (control m fuel s)
  unfolding control
  control-IsSound fuel s h = elim-Holds _ (wait_make-IsSound fuel s h) (λ s1 h1.
      let h2 = read-IsSound 0x60 s1 h1 in
      if-Holds ((read_port m 0x60 s1).0 == 0x26)
        (map-Holds _ (wait_release-IsSound fuel (read_port m 0x60 s1).1 h2) (λ c k.
          updatecursor-IsSound m _ (record {
            lines = clearbuf-IsBounded (c.kernel.pcbs c.kernel.cur).cur_terminal c.lines k.lines;
            screen = clear-IsOnScreen c.kernel.current_terminal c.screen k.screen;
            quiet = k.quiet;
          })))
        (has_result h2))

  erase-IsSound : (s : Console State) → IsSound s → IsSound (erase m s)
  unfolding erase
  erase-IsSound s h = either (backspacebuf t s.lines).0
    where
      t : ℕ
      t = s.kernel.current_terminal

      bounded : IsBounded (backspacebuf t s.lines).1
      bounded = backspacebuf-IsBounded t s.lines h.lines

      either :
          (i : ℤ)
          → IsSound (elim i as (λ x. Console State) [
            | pos n ↦
                updatecursor m
                  (record s { lines = (backspacebuf t s.lines).1; screen = backspace t s.screen })
            | negsuc n ↦ record s { lines = (backspacebuf t s.lines).1 }
          ])
      either (pos n) = updatecursor-IsSound m _ (record {
        lines = bounded;
        screen = backspace-IsOnScreen t s.screen h.screen;
        quiet = h.quiet;
      })
      either (negsuc n) = record { lines = bounded; screen = h.screen; quiet = h.quiet }

  shifted-IsSoundRound :
      (fuel code : ℕ) (s : Console State) → IsSound s → Holds IsSoundRound (shifted m fuel code s)
  unfolding shifted
  shifted-IsSoundRound fuel code s h =
      if-Holds (ltb code 128)
        (map-Holds _
          (echo-IsSound fuel (key_letter (s.caps_set != 0) true (scan2_let s.caps_set code)) s h)
          (λ c k. k))
        (has_result h)

  shift_round-IsSoundRound :
      (fuel release : ℕ) (s : Console State)
      → IsSound s
      → Holds IsSoundRound (shift_round m fuel release s)
  unfolding shift_round
  shift_round-IsSoundRound fuel release s h =
      let h1 = read-IsSound 0x60 s h in
      if-Holds ((read_port m 0x60 s).0 == release) (has_result h1) (
        elim-Holds _ (wait_make-IsSound fuel (read_port m 0x60 s).1 h1) (λ s2 h2.
          let s3 = (read_port m 0x60 s2).1 in
          let h3 = read-IsSound 0x60 s2 h2 in
          if-Holds ((read_port m 0x60 s2).0 == release) (has_result h3) (
            if-Holds (s3.caps_set == 0) (shifted-IsSoundRound fuel (read_port m 0x60 s2).0 s3 h3) (
              shifted-IsSoundRound fuel (read_port m 0x60 s3).0 (read_port m 0x60 s3).1
                (read-IsSound 0x60 s3 h3)))))

  shift_loop-IsSound :
      (fuel release : ℕ) (s : Console State)
      → IsSound s
      → Holds IsSound (shift_loop m fuel release s)
  unfolding shift_loop
  shift_loop-IsSound zero release s h = no_result
  shift_loop-IsSound (suc fuel) release s h =
      either (λ s' k. shift_loop-IsSound fuel release s' k) (shift_round m fuel release s)
        (shift_round-IsSoundRound fuel release s h)
    where
      either :
          ((s' : Console State) → IsSound s' → Holds IsSound (shift_loop m fuel release s'))
          → (o : Option (Bool × Console State)) → Holds IsSoundRound o
          → Holds IsSound (elim o as (λ x. Option (Console State)) [
            | none ↦ none
            | some (true, s') ↦ some s'
            | some (false, s') ↦ shift_loop m fuel release s'
          ])
      either more none no_result = no_result
      either more (some (true, s')) (has_result k) = has_result k
      either more (some (false, s')) (has_result k) = more s' k

  type_key-IsSound :
      (fuel code : ℕ) (s : Console State) → IsSound s → Holds IsSound (type_key m fuel code s)
  unfolding type_key
  type_key-IsSound fuel code s h =
      let letter = scan2_let s.caps_set code in
      if-Holds (letter == 0x80) (shift_loop-IsSound fuel 0xaa s h) (
        if-Holds (letter == 0x81) (shift_loop-IsSound fuel 0xb6 s h)
          (echo-IsSound fuel (key_letter (s.caps_set != 0) false letter) s h))

  module _ (bblock : Mem) (st : Stack) where
    alternate-IsSoundTurn :
        (fuel : ℕ) (s : Console State)
        → IsSound s
        → Holds IsSoundTurn (alternate m bblock st fuel s)
    unfolding alternate
    alternate-IsSoundTurn fuel s h = elim-Holds _ (wait_make-IsSound fuel s h) (λ s1 h1.
        let s2 = (read_port m 0x60 s1).1 in
        let code = (read_port m 0x60 s1).0 in
        let h2 = read-IsSound 0x60 s1 h1 in
        if-Holds (code == 0x3b) (screen_change-IsSoundTurn m bblock st fuel 1 s2 h2) (
          if-Holds (code == 0x3c) (screen_change-IsSoundTurn m bblock st fuel 2 s2 h2) (
            if-Holds (code == 0x3d) (screen_change-IsSoundTurn m bblock st fuel 3 s2 h2)
              (has_result h2))))

    with_caps : (v : ℕ) (s : Console State) → IsSound s → IsSound (record s { caps_set = v })
    with_caps v s h = record { lines = h.lines; screen = h.screen; quiet = h.quiet }

    dispatch-IsSoundTurn :
        (fuel code : ℕ) (s : Console State)
        → IsSound s
        → Holds IsSoundTurn (dispatch m bblock st fuel code s)
    unfolding dispatch
    dispatch-IsSoundTurn fuel code s h =
        let letter = scan2_let s.caps_set code in
        if-Holds (letter == 0xff) (has_result h) (
          if-Holds (code == caps && letter == 0) (has_result (with_caps 1 s h)) (
            if-Holds (code == caps && letter == 1) (has_result (with_caps 0 s h)) (
              if-Holds (code == 0x1d) (map-Holds _ (control-IsSound fuel s h) (λ c k. k)) (
                if-Holds (code == 0x38) (alternate-IsSoundTurn fuel s h) (
                  if-Holds (code == 0x0e) (has_result (erase-IsSound s h)) (
                    if-Holds (code / 128 % 2 == 0)
                      (map-Holds _ (type_key-IsSound fuel code s h) (λ c k. k)) (has_result h)))))))

    finish-IsSoundTurn : (t : Turn State) → IsSoundTurn t → IsSoundTurn (finish m t)
    finish-IsSoundTurn (returns s) h = moved s (send_eoi m 1 s.ports) h
    finish-IsSoundTurn (leaves s) h = h

    -- The keyboard's interrupt keeps the console sound, whatever the ports give, whether the handler returns or is left
    -- for the shell of a terminal: no line is longer than its row, every cursor is on the screen, and `keyInt` is 0
    -- again.
    pub keyboard_handler-IsSoundTurn :
        (fuel : ℕ) (s : Console State)
        → IsSound s
        → Holds IsSoundTurn (keyboard_handler m bblock st fuel s)
    unfolding keyboard_handler
    keyboard_handler-IsSoundTurn fuel s h =
        map-Holds _
          (dispatch-IsSoundTurn fuel (read_port m 0x60 s).0 (read_port m 0x60 s).1
            (read-IsSound 0x60 s h))
          finish-IsSoundTurn
