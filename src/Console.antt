-- ===== src/Console.antt =====
-- The visible terminal: `screenChange` and `updatecursor` of filesIWorkedOn/lib.c and the interrupt handler of
-- filesIWorkedOn/keyboard.c, on the screen, the lines, the processes and the ports together. `currentTerminal`,
-- `numShells` and `whichTerm` are in the kernel.
pub mod Handler
pub mod Sound
pub mod Keys
pub mod Switch
pub mod Interrupt
pub mod Read
use Prim.Native.Nat.{bit_and, bit_or}
use mathlib.Core.Option
use cl_os.Prelude.{
  ℕ, zero, suc, ◌+◌, ◌*◌, ◌/◌, ◌%◌, ◌^◌, ◌==◌, ltb, leb, ◌&&◌, if◌then◌else◌, Bool, true, false,
  Mem, text, List, [], ◌∷◌, Option, none, some,
}
use cl_os.Machine.{Machine}
use cl_os.Pic.{send_eoi}
use cl_os.Process.{Kernel, Stack, Outcome, returned, entered, resumed, sys_execute}
use cl_os.Terminal.{Lines, clearbuf}
use cl_os.Screen.{Screen, clear, keep_cells, show_cells}
use cl_os.Printf.{printf}

pub record Console (S : Type 0) : Type 0 where
  pub kernel : Kernel
  pub lines : Lines
  pub screen : Screen
  -- `keyInt`, and what `setCaps` last stored
  pub key_int : ℕ
  pub caps_set : ℕ
  -- `back` of keyboard.c
  pub back : ℕ
  pub ports : S

-- A function that may start a shell returns to its caller, or is left for the shell.
pub data Turn (S : Type 0) : Type 0 where
  returns : Console S → Turn S
  leaves : Console S → Turn S

abbrev pub shell_line : Mem
shell_line = text (b's' ∷ b'h' ∷ b'e' ∷ b'l' ∷ b'l' ∷ b'\n' ∷ [])

-- "\nAlready in terminal N\n391OS> ", where `digit` is the character N
abbrev pub already_text : ℕ → Mem
already_text digit = text (
    b'\n' ∷ b'A' ∷ b'l' ∷ b'r' ∷ b'e' ∷ b'a' ∷ b'd' ∷ b'y' ∷ b' ' ∷ b'i' ∷ b'n' ∷ b' ' ∷ b't' ∷ b'e'
    ∷ b'r' ∷ b'm' ∷ b'i' ∷ b'n' ∷ b'a' ∷ b'l' ∷ b' ' ∷ digit ∷ b'\n' ∷ b'3' ∷ b'9' ∷ b'1' ∷ b'O'
    ∷ b'S' ∷ b'>' ∷ b' ' ∷ [])

-- "\nHow did you mess up that badly?!\n"
abbrev pub mess_text : Mem
mess_text = text (
    b'\n' ∷ b'H' ∷ b'o' ∷ b'w' ∷ b' ' ∷ b'd' ∷ b'i' ∷ b'd' ∷ b' ' ∷ b'y' ∷ b'o' ∷ b'u' ∷ b' ' ∷ b'm'
    ∷ b'e' ∷ b's' ∷ b's' ∷ b' ' ∷ b'u' ∷ b'p' ∷ b' ' ∷ b't' ∷ b'h' ∷ b'a' ∷ b't' ∷ b' ' ∷ b'b'
    ∷ b'a' ∷ b'd' ∷ b'l' ∷ b'y' ∷ b'?' ∷ b'!' ∷ b'\n' ∷ [])

-- "How do you have a different Terminal"
abbrev pub different_text : Mem
different_text = text (
    b'H' ∷ b'o' ∷ b'w' ∷ b' ' ∷ b'd' ∷ b'o' ∷ b' ' ∷ b'y' ∷ b'o' ∷ b'u' ∷ b' ' ∷ b'h' ∷ b'a' ∷ b'v'
    ∷ b'e' ∷ b' ' ∷ b'a' ∷ b' ' ∷ b'd' ∷ b'i' ∷ b'f' ∷ b'f' ∷ b'e' ∷ b'r' ∷ b'e' ∷ b'n' ∷ b't'
    ∷ b' ' ∷ b'T' ∷ b'e' ∷ b'r' ∷ b'm' ∷ b'i' ∷ b'n' ∷ b'a' ∷ b'l' ∷ [])

-- "How did you get a higher terminal"
abbrev pub higher_text : Mem
higher_text = text (
    b'H' ∷ b'o' ∷ b'w' ∷ b' ' ∷ b'd' ∷ b'i' ∷ b'd' ∷ b' ' ∷ b'y' ∷ b'o' ∷ b'u' ∷ b' ' ∷ b'g' ∷ b'e'
    ∷ b't' ∷ b' ' ∷ b'a' ∷ b' ' ∷ b'h' ∷ b'i' ∷ b'g' ∷ b'h' ∷ b'e' ∷ b'r' ∷ b' ' ∷ b't' ∷ b'e'
    ∷ b'r' ∷ b'm' ∷ b'i' ∷ b'n' ∷ b'a' ∷ b'l' ∷ [])

-- `printf` of a format that takes no parameter but one character, `c`.
unfoldable pub print : {S : Type 0} → ℕ → Mem → ℕ → Console S → Option (Console S)
print fuel format c s =
    Option.map (λ r. record s { screen = r.1 })
      (printf s.kernel.current_terminal (s.kernel.pcbs s.kernel.cur).cur_terminal s.key_int (λ i. c)
        (λ p. text []) (text []) fuel format s.screen)

module _ (m : Machine) where
  open m use {State, inb, outb}

  -- `position` has 16 bits.
  unfoldable pub updatecursor : Console State → Console State
  updatecursor s =
      let t = s.kernel.current_terminal in
      let position = (s.screen.screen_y t * 80 + s.screen.screen_x t) % 65536 in
      let low = outb (outb s.ports 0x0f 0x3d4) (position % 256) 0x3d5 in
      record s { ports = outb (outb low 0x0e 0x3d4) (position / 256) 0x3d5 }

  -- `newScreen == currentTerminal`. `clearbuf` empties the line of the running process's terminal.
  unfoldable pub stay : ℕ → ℕ → Console State → Option (Console State)
  unfolding print updatecursor
  stay fuel new s =
      let cleared : Option (Console State) =
        Option.map
          (λ c.
            updatecursor
              (record c { lines = clearbuf (c.kernel.pcbs c.kernel.cur).cur_terminal c.lines }))
          (print fuel (already_text (b'0' + new)) 0 s) in
      if leb 1 new && leb new 3 then cleared else Option.map updatecursor (print fuel mess_text 0 s)

  -- The first `switch`.
  unfoldable pub keep : ℕ → Console State → Option (Console State)
  unfolding print
  keep fuel s =
      let t = s.kernel.current_terminal in
      if leb 1 t && leb t 3
      then some (record s { screen = record s.screen { mem = keep_cells s.screen.mem t 0 2000 } })
      else print fuel different_text 0 s

  -- The end of each case of the second `switch`.
  unfoldable pub reveal : ℕ → Console State → Console State
  unfolding updatecursor
  reveal t s = updatecursor (record s {
    screen = record s.screen { mem = show_cells s.screen.mem t 0 2000 };
    kernel = record s.kernel { current_terminal = t };
  })

  -- Behind `sys_execute`: it comes back where it fails.
  unfoldable pub after_execute : ℕ → Console State → Option Outcome → Option (Turn State)
  unfolding reveal
  after_execute t s none = none
  after_execute t s (some (returned r k)) = some (returns (reveal t (record s { kernel = k })))
  after_execute t s (some (entered k)) = some (leaves (record s { kernel = k }))
  after_execute t s (some (resumed n k)) = some (leaves (record s { kernel = k }))

  -- The state in which the shell of terminal `t` is executed; `bit` is its bit in `numShells`.
  unfoldable pub prepare : ℕ → ℕ → Console State → Console State
  prepare t bit s = record s {
    ports = send_eoi m 1 s.ports;
    screen = clear t s.screen;
    kernel = record s.kernel {
      num_shells = bit_or s.kernel.num_shells bit;
      current_terminal = t;
      which_term = bit;
    };
  }

  module _ (bblock : Mem) (st : Stack) where
    -- A case of the second `switch`.
    unfoldable pub change_to : ℕ → ℕ → ℕ → Console State → Option (Turn State)
    unfolding after_execute prepare
    change_to fuel t bit s =
        let s' = prepare t bit s in
        let opened = after_execute t s' (sys_execute fuel bblock st shell_line s'.kernel) in
        let missing = bit_and s.kernel.num_shells bit == 0 in
        if s.kernel.pid_bitmap == 0x3f && missing
        then some (returns s)
        else if missing
        then opened
        else some (returns (reveal t s))

    unfoldable pub change : ℕ → ℕ → Console State → Option (Turn State)
    unfolding change_to print
    change fuel new s =
        if new == 1
        then change_to fuel 1 1 s
        else if new == 2
        then change_to fuel 2 2 s
        else if new == 3
        then change_to fuel 3 4 s
        else Option.map returns (print fuel higher_text 0 s)

    unfoldable pub screen_change : ℕ → ℕ → Console State → Option (Turn State)
    unfolding stay keep change
    screen_change fuel new s =
        let changed : Option (Turn State) = elim (keep fuel s) [
          | none ↦ none
          | some s' ↦ change fuel new s'
        ] in
        if new == s.kernel.current_terminal then Option.map returns (stay fuel new s) else changed
