-- ===== src/Tests/Text.antt =====
-- Numbers as text, formats, and the keys of a line.
use cl_os.Prelude.{ℕ, zero, suc, ◌<◌, ◌≡◌, ◌≢◌, Mem, List, [], ◌∷◌, some, arith}
use cl_os.Strings.Copy.{EndsAt}
use cl_os.Numbers.{itoa}
use cl_os.Numbers.Digits.{value_of, value_of-itoa}
use cl_os.Screen.{Screen, puts}
use cl_os.Printf.{printf}
use cl_os.Printf.Format.{printf-puts}
use cl_os.Terminal.{Lines, Key, typed, erased}
use cl_os.Terminal.Editor.{line, press_all, edit_all, press_all-line}
use cl_os.Tests.Disk.{blank, shell_name}
use cl_os.Tests.Strings.{shell_name-EndsAt}

value_of-itoa_example :
    (d : ℕ) × (r : Mem) × (itoa 33 391 blank 16 ≡ some r) × EndsAt r 0 d × (value_of 16 r d ≡ 391)
value_of-itoa_example =
    value_of-itoa 33 391 16 blank (omega arith) (omega arith) (omega arith) (omega arith)

abbrev screen : Screen
screen = record { screen_x = λ t. 0; screen_y = λ t. 0; mem = blank }

printf-puts_example :
    printf 1 1 0 blank (λ p. blank) blank 9 shell_name screen ≡ puts 9 1 1 0 shell_name screen
printf-puts_example =
    printf-puts 1 1 0 blank (λ p. blank) blank 9 5 shell_name screen shell_name-EndsAt plain
  where
    plain : (j : ℕ) → j < 5 → shell_name j ≢ b'%'
    plain zero h = omega arith
    plain (suc zero) h = omega arith
    plain (suc (suc zero)) h = omega arith
    plain (suc (suc (suc zero))) h = omega arith
    plain (suc (suc (suc (suc zero)))) h = omega arith
    plain (suc (suc (suc (suc (suc j))))) h = absurd (omega arith)

abbrev lines : Lines
lines = record { idx = λ t. 0; tbuf = blank }

-- `x`, backspace, `l`, enter
abbrev keys : List Key
keys = typed b'x' ∷ erased ∷ typed b'l' ∷ typed b'\n' ∷ []

press_all-line_example : line 2 (press_all 2 keys lines) ≡ edit_all keys (line 2 lines)
press_all-line_example = press_all-line 2 keys lines
