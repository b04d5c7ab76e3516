-- ===== src/Tests/Console.antt =====
-- A console with two terminals in use, and the keyboard's theorems for it.
use cl_os.Prelude.{
  ℕ, ◌+◌, ◌≤◌, ◌<◌, ◌≡◌, ◌≢◌, refl, Mem, Holds, some, minus_one, arith, text, [], ◌∷◌,
}
use cl_os.Machine.{Machine}
use cl_os.Fs.Lookup.{read_dentry_by_name, same_name, find_name}
use cl_os.Strings.{strncmp, strncmp_from}
use cl_os.Execute.{parser, copy_cmd, copy_args, check_exe}
use cl_os.Process.{returned, sys_execute}
use cl_os.Terminal.{typed}
use cl_os.Terminal.Editor.{line, edit}
use cl_os.Screen.{putc, backspace, video, video_term, attrib}
use cl_os.Screen.Cells.{char, attr}
use cl_os.Console.{Console, returns, screen_change, prepare, shell_line}
use cl_os.Console.Handler.{echo, erase, keyboard_handler}
use cl_os.Console.Keys.{IsPlainKey, character, keyboard_handler_plain, erase-echo}
use cl_os.Console.Sound.{IsSound, IsSoundTurn}
use cl_os.Console.Interrupt.{keyboard_handler-IsSoundTurn}
use cl_os.Console.Switch.{screen_change-screen_change, screen_change_failed}
use cl_os.Tests.Disk.{disk, blank}
use cl_os.Tests.Kernel.{kernel, stack}

-- A machine whose ports all hold one byte, and are not changed.
abbrev pub board : Machine
board = record { State = ℕ; inb = λ s port. (s, s); outb = λ s byte port. s }

-- The key `a` is pressed in terminal 1, and terminal 2 has a shell, too.
abbrev pub console : Console ℕ
console = record {
  kernel = record kernel { num_shells = 3 };
  lines = record { idx = λ t. 5; tbuf = blank };
  screen = record { screen_x = λ t. 3; screen_y = λ t. 4; mem = blank };
  key_int = 0;
  caps_set = 0;
  back = 0;
  ports = 0x1e;
}

pub console-IsSound : IsSound console
console-IsSound = record {
  lines = λ t. omega arith;
  screen = λ t. (omega arith, omega arith);
  quiet = refl;
}

keyboard_handler-IsSoundTurn_example :
    Holds IsSoundTurn (keyboard_handler board disk stack 9 console)
keyboard_handler-IsSoundTurn_example =
    keyboard_handler-IsSoundTurn board disk stack 9 console console-IsSound

a-IsPlainKey : IsPlainKey 0 0x1e
unfolding cl_os.Keyboard.scan2_let
a-IsPlainKey = record {
  pressed = omega arith;
  not_caps = omega arith;
  not_control = omega arith;
  not_alternate = omega arith;
  not_backspace = omega arith;
  has_letter = omega arith;
  not_left_shift = omega arith;
  not_right_shift = omega arith;
}

keyboard_handler_plain_example :
    let c = character 0 0x1e in
    (s' : Console ℕ) × (keyboard_handler board disk stack 9 console ≡ some (returns s'))
    × (line 1 s'.lines ≡ edit (typed c) (line 1 console.lines))
    × (s'.screen ≡ putc 1 1 1 c console.screen)
    × (s'.kernel ≡ console.kernel)
keyboard_handler_plain_example =
    keyboard_handler_plain board disk stack 9 console (omega arith) a-IsPlainKey (omega arith)

abbrev long_line : Console ℕ
long_line = record console { lines = record { idx = λ t. 127; tbuf = blank } }

erase-echo_example :
    (s' : Console ℕ) × (echo board 9 b'x' long_line ≡ some s')
    × (s'.screen ≡ long_line.screen)
    × (line 1 s'.lines ≡ edit (typed b'x') (line 1 long_line.lines))
    × ((erase board s').screen ≡ backspace 1 long_line.screen)
    × (line 1 (erase board s').lines ≡ line 1 long_line.lines)
erase-echo_example = erase-echo board 9 b'x' long_line refl

screen_change-screen_change_example :
    (s1 s2 : Console ℕ) × (screen_change board disk stack 9 2 console ≡ some (returns s1))
    × (screen_change board disk stack 9 1 s1 ≡ some (returns s2))
    × (s2.kernel ≡ console.kernel)
    × ((j : ℕ)
        → j < 2000
        → (char s2.screen.mem video j ≡ char blank video j)
          × (attr s2.screen.mem video j ≡ attrib)
          × (char s2.screen.mem (video_term 2) j ≡ char blank (video_term 2) j))
screen_change-screen_change_example =
    screen_change-screen_change board disk stack 9 2 console (omega arith) (omega arith)
      (omega arith) (omega arith) (omega arith) (omega arith) (omega arith)

-- An image without any file.
abbrev no_files : Mem
no_files = text []

third_fails :
    sys_execute 9 no_files stack shell_line (prepare board 3 4 console).kernel
    ≡ some (returned minus_one (prepare board 3 4 console).kernel)
unfolding sys_execute parser copy_cmd copy_args check_exe read_dentry_by_name find_name same_name
    strncmp strncmp_from cl_os.Prelude.diff8
third_fails = refl

screen_change_failed_example :
    (s' : Console ℕ) × (screen_change board no_files stack 9 3 console ≡ some (returns s'))
    × (s'.kernel ≡ record kernel { current_terminal = 3; num_shells = 7; which_term = 4 })
screen_change_failed_example =
    screen_change_failed board no_files stack 9 3 console minus_one
      (prepare board 3 4 console).kernel (omega arith) (omega arith) (omega arith) (omega arith)
      (omega arith) refl (omega arith) third_fails
