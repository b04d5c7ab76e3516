-- ===== src/Console/Handler.antt =====
-- `keyboard_init` and `keyboard_handler` of filesIWorkedOn/keyboard.c. The waits on the ports are on fuel.
use Prim.Native.Nat.{bit_or}
use mathlib.Core.Option
use cl_os.Prelude.{
  ℕ, zero, suc, ◌+◌, ◌/◌, ◌%◌, ◌==◌, ◌!=◌, ltb, ◌&&◌, if◌then◌else◌, Bool, true, false, pos, negsuc,
  Mem, text, [], ◌∷◌, Option, none, some,
}
use cl_os.Machine.{Machine}
use cl_os.Pic.{enable_irq, send_eoi}
use cl_os.Process.{Stack}
use cl_os.Terminal.{insert, clearbuf, backspacebuf}
use cl_os.Screen.{clear, backspace}
use cl_os.Keyboard.{caps, scan2_let, key_letter}
use cl_os.Console.{Console, Turn, returns, leaves, print, updatecursor, screen_change}

abbrev pub char_format : Mem
char_format = text (b'%' ∷ b'c' ∷ [])

-- Keyboard.c counts the letters that it prints in `back`.
unfoldable pub setback : {S : Type 0} → Console S → Console S
setback s = record s { back = 0 }

module _ (m : Machine) where
  open m use {State, inb, outb}

  abbrev pub read_port : ℕ → Console State → ℕ × Console State
  read_port port s = let (b, p) = inb s.ports port in (b, record s { ports = p })

  unfoldable pub keyboard_init : Console State → Console State
  keyboard_init s =
      let (status, s1) = read_port 0x64 s in
      let (cmd, p) = inb (outb s1.ports 0x20 0x64) 0x60 in
      let set = outb (outb p 0x60 0x64) (bit_or cmd 0x41) 0x60 in
      let s2 = if status % 2 == 0 then record s1 { ports = set } else s1 in
      record s2 { ports = enable_irq m 1 s2.ports; key_int = 0 }

  -- `while(!(inb(KB_STAT)&MAKE))`
  unfoldable pub wait_make : ℕ → Console State → Option (Console State)
  wait_make zero s = none
  wait_make (suc fuel) s =
      let (status, s') = read_port 0x64 s in
      let rest = wait_make fuel s' in if status % 2 == 1 then some s' else rest

  -- `while(inb(KB_PORT)!=0x9D)`
  unfoldable pub wait_release : ℕ → Console State → Option (Console State)
  wait_release zero s = none
  wait_release (suc fuel) s =
      let (code, s') = read_port 0x60 s in
      let rest = wait_release fuel s' in if code != 0x9d then rest else some s'

  -- `insert` of a letter, and its echo where the index is below 128.
  unfoldable pub echo : ℕ → ℕ → Console State → Option (Console State)
  unfolding print updatecursor
  echo fuel letter s =
      let (n, lines) = insert s.kernel.current_terminal letter s.lines in
      let s' = record s { lines = lines } in
      let shown : Option (Console State) =
        Option.map (λ c. record (updatecursor m (record c { key_int = 0 })) { back = c.back + 1 })
          (print fuel char_format letter (record s' { key_int = 1 })) in
      if ltb n 128 then shown else some s'

  -- Control and l: the visible screen and the line of the running process's terminal are emptied.
  unfoldable pub control : ℕ → Console State → Option (Console State)
  unfolding wait_make wait_release updatecursor
  control fuel s = elim (wait_make fuel s) [
    | none ↦ none
    | some s1 ↦
        let (code, s2) = read_port 0x60 s1 in
        let cleared : Option (Console State) =
          Option.map
            (λ c. updatecursor m (record c {
              screen = clear c.kernel.current_terminal c.screen;
              lines = clearbuf (c.kernel.pcbs c.kernel.cur).cur_terminal c.lines;
            }))
            (wait_release fuel s2) in
        if code == 0x26 then cleared else some s2
  ]

  -- `int i = backspacebuf();` and what follows.
  unfoldable pub erase : Console State → Console State
  unfolding updatecursor
  erase s =
      let t = s.kernel.current_terminal in
      let (i, lines) = backspacebuf t s.lines in
      elim i [
        | pos n ↦ updatecursor m (record s { lines = lines; screen = backspace t s.screen })
        | negsuc n ↦ record s { lines = lines }
      ]

  -- The key behind a shift key, unless it is the release of that.
  unfoldable pub shifted : ℕ → ℕ → Console State → Option (Bool × Console State)
  unfolding echo
  shifted fuel code s =
      let set = s.caps_set in
      let typed : Option (Bool × Console State) =
        Option.map (λ c. (false, c))
          (echo fuel (key_letter (set != 0) true (scan2_let set code)) s) in
      if ltb code 128 then typed else some (false, s)

  -- A round of the `while` of a shift key whose release is `release`: whether it ends the loop. With the caps lock on, the
  -- port is read once more.
  unfoldable pub shift_round : ℕ → ℕ → Console State → Option (Bool × Console State)
  unfolding wait_make shifted
  shift_round fuel release s =
      let (first, s1) = read_port 0x60 s in
      let round : Option (Bool × Console State) = elim (wait_make fuel s1) [
        | none ↦ none
        | some s2 ↦
            let (code, s3) = read_port 0x60 s2 in
            let (code', s4) = read_port 0x60 s3 in
            if code == release
            then some (true, s3)
            else if s3.caps_set == 0
            then shifted fuel code s3
            else shifted fuel code' s4
      ] in
      if first == release then some (true, s1) else round

  unfoldable pub shift_loop : ℕ → ℕ → Console State → Option (Console State)
  unfolding shift_round
  shift_loop zero release s = none
  shift_loop (suc fuel) release s = elim (shift_round fuel release s) [
    | none ↦ none
    | some (true, s') ↦ some s'
    | some (false, s') ↦ shift_loop fuel release s'
  ]

  -- The last branch of the handler.
  unfoldable pub type_key : ℕ → ℕ → Console State → Option (Console State)
  unfolding echo shift_loop
  type_key fuel code s =
      let letter = scan2_let s.caps_set code in
      if letter == 0x80
      then shift_loop fuel 0xaa s
      else if letter == 0x81
      then shift_loop fuel 0xb6 s
      else echo fuel (key_letter (s.caps_set != 0) false letter) s

  -- `send_eoi(KB_IR_LINE)` where the handler gets to its end.
  abbrev pub finish : Turn State → Turn State
  finish (returns s) = returns (record s { ports = send_eoi m 1 s.ports })
  finish (leaves s) = leaves s

  module _ (bblock : Mem) (st : Stack) where
    unfoldable pub alternate : ℕ → Console State → Option (Turn State)
    unfolding wait_make
    alternate fuel s = elim (wait_make fuel s) [
      | none ↦ none
      | some s1 ↦
          let (code, s2) = read_port 0x60 s1 in
          if code == 0x3b
          then screen_change m bblock st fuel 1 s2
          else if code == 0x3c
          then screen_change m bblock st fuel 2 s2
          else if code == 0x3d
          then screen_change m bblock st fuel 3 s2
          else some (returns s2)
    ]

    -- The branches of the handler for a scan code.
    unfoldable pub dispatch : ℕ → ℕ → Console State → Option (Turn State)
    unfolding alternate control erase type_key
    dispatch fuel code s =
        let letter = scan2_let s.caps_set code in
        if letter == 0xff
        then some (returns s)
        else if code == caps && letter == 0
        then some (returns (record s { caps_set = 1 }))
        else if code == caps && letter == 1
        then some (returns (record s { caps_set = 0 }))
        else if code == 0x1d
        then Option.map returns (control fuel s)
        else if code == 0x38
        then alternate fuel s
        else if code == 0x0e
        then some (returns (erase s))
        else if code / 128 % 2 == 0
        then Option.map returns (type_key fuel code s)
        else some (returns s)

    unfoldable pub keyboard_handler : ℕ → Console State → Option (Turn State)
    unfolding dispatch
    keyboard_handler fuel s =
        let (code, s') = read_port 0x60 s in Option.map finish (dispatch fuel code s')
