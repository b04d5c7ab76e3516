-- ===== src/Tests/Screen.antt =====
-- Screens of three terminals, of which the first is visible.
use cl_os.Prelude.{◌≡◌, inl, arith}
use cl_os.Screen.{Screen, putc}
use cl_os.Screen.Cursor.{IsOnScreen, putc_hidden}
use cl_os.Tests.Disk.{blank}

-- Every cursor is at the end of the last row.
abbrev screens : Screen
screens = record { screen_x = λ t. 79; screen_y = λ t. 24; mem = blank }

screens-IsOnScreen : IsOnScreen screens
screens-IsOnScreen u = (omega arith, omega arith)

putc_hidden_example : (putc 1 2 0 b'x' screens).mem 0xb8000 ≡ 0xaa
putc_hidden_example =
    putc_hidden 1 2 b'x' 0xb8000 screens (omega arith) screens-IsOnScreen (inl (omega arith))
