-- ===== src/Tests/Reading.antt =====
-- `tRead` on a keyboard with a list of scan codes.
use cl_os.Prelude.{
  ℕ, ◌≡◌, ◌==◌, if◌then◌else◌, refl, Option, none, some, false, true, arith, List, [], ◌∷◌, Bool,
}
use cl_os.Machine.{Machine}
use cl_os.Console.{Console, print, updatecursor}
use cl_os.Console.Read.{
  Reading, got, left, fill_row, read_terminal, wait_keys, take_row, finish_read,
}
use cl_os.Console.Handler.{keyboard_handler, dispatch, type_key, echo, setback}
use cl_os.Keyboard.{scan2_let}
use cl_os.Screen.{putc, put_to}
use cl_os.Printf.{printf, printf_from, specifier}
use cl_os.Terminal.{line_is_ready, insert, clearbuf}
use cl_os.Console.Sound.{IsSound}
use cl_os.Console.Read.Full.{nothing, key, ended, fill_row-Gives}
use cl_os.Console.Read.Kept.{IsSoundReading, read_terminal-IsSoundReading}
use cl_os.Tests.Disk.{disk, blank}
use cl_os.Tests.Kernel.{kernel, stack}

abbrev next_code : List ℕ → ℕ × List ℕ
next_code [] = (0, [])
next_code (c ∷ l) = (c, l)

abbrev keyboard : Machine
keyboard = record {
  State = List ℕ;
  inb = λ l port. if port == 0x60 then next_code l else (1, l);
  outb = λ l byte port. l;
}

-- Terminal 1 with a full line, and the keys a, b and enter.
abbrev full_line : Console (List ℕ)
full_line = record {
  kernel = kernel;
  lines = record { idx = λ t. 128; tbuf = blank };
  screen = record { screen_x = λ t. 3; screen_y = λ t. 4; mem = blank };
  key_int = 0;
  caps_set = 0;
  back = 0;
  ports = 0x1e ∷ 0x30 ∷ 0x1c ∷ [];
}

abbrev no_events : ℕ → Bool
no_events i = false

fill_row-Gives_example :
    fill_row keyboard disk stack 5 no_events 1 0 1 full_line
    ≡ some (
      false,
      record { scancode = 0x1c; set = 1; enabled = false; console = ended keyboard 1 full_line [] },
    )
fill_row-Gives_example =
    fill_row-Gives keyboard disk stack no_events 1 1 full_line 5 (0x1e ∷ 0x30 ∷ []) 0 []
      (omega arith) refl refl (omega arith) refl
      (key {p1 = full_line.ports} refl refl refl
        (key {p1 = 0x30 ∷ 0x1c ∷ []} refl refl refl (key {p1 = 0x1c ∷ []} refl refl refl nothing)))
      (omega arith) (omega arith)

-- The enter key comes in by an interrupt in front of the second test of the line.
abbrev enter_pressed : Option (Reading (List ℕ))
enter_pressed =
    read_terminal keyboard disk stack 9 (true ∷ false ∷ []) no_events 1 0 1 blank 64
      (record full_line { ports = 0x1c ∷ [] })

abbrev enter_read : Reading (List ℕ)
enter_read = elim enter_pressed [ none ↦ left full_line | some r ↦ r ]

enter_reads : enter_pressed ≡ some enter_read
unfolding read_terminal wait_keys take_row fill_row line_is_ready keyboard_handler dispatch type_key
    echo print printf printf_from specifier insert clearbuf setback finish_read scan2_let putc
    put_to updatecursor cl_os.Keyboard.key_letter
enter_reads = refl

enter_line : IsSound (record full_line { ports = 0x1c ∷ [] })
enter_line = record {
  lines = λ t. omega arith;
  screen = λ t. (omega arith, omega arith);
  quiet = refl;
}

read_terminal-IsSoundReading_example : IsSoundReading 64 enter_read
read_terminal-IsSoundReading_example =
    read_terminal-IsSoundReading keyboard disk stack 9 (true ∷ false ∷ []) no_events 1 0 1 blank 64
      (record full_line { ports = 0x1c ∷ [] }) enter_read enter_line enter_reads

-- It is the newline.
abbrev characters : Reading (List ℕ) → List ℕ
characters (got n b set s) = n ∷ b 0 ∷ b 1 ∷ []
characters (left s) = []

newline_read : characters enter_read ≡ 1 ∷ b'\n' ∷ 0 ∷ []
unfolding read_terminal wait_keys take_row fill_row line_is_ready keyboard_handler dispatch type_key
    echo print printf printf_from specifier insert clearbuf setback finish_read scan2_let putc
    put_to updatecursor cl_os.Keyboard.key_letter cl_os.Strings.strncpy
newline_read = refl
