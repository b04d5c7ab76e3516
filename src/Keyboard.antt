-- ===== src/Keyboard.antt =====
-- The characters of filesIWorkedOn/keyboard.c and keyhelper.c: the table of scan codes, the shifted
-- characters, and which character the handler inserts for a key.
pub mod Layout
use cl_os.Prelude.{
  ℕ, ◌+◌, ◌-◌, ◌==◌, ltb, ◌&&◌, if◌then◌else◌, Bool, true, false, text, List, [], ◌∷◌,
}

-- `getChar`, less the zeros at its end; 0xff stands for a key without a character.
abbrev pub get_char : List ℕ
get_char =
    0xff ∷ 0xff ∷ b'1' ∷ b'2' ∷ b'3' ∷ b'4' ∷ b'5' ∷ b'6' ∷ b'7' ∷ b'8' ∷ b'9' ∷ b'0' ∷ b'-' ∷ b'='
    ∷ 8 ∷ 0xff ∷ b'q' ∷ b'w' ∷ b'e' ∷ b'r' ∷ b't' ∷ b'y' ∷ b'u' ∷ b'i' ∷ b'o' ∷ b'p' ∷ b'[' ∷ b']'
    ∷ b'\n' ∷ 0 ∷ b'a' ∷ b's' ∷ b'd' ∷ b'f' ∷ b'g' ∷ b'h' ∷ b'j' ∷ b'k' ∷ b'l' ∷ b';' ∷ 0x27 ∷ b'`'
    ∷ 0x80 ∷ 0x5c ∷ b'z' ∷ b'x' ∷ b'c' ∷ b'v' ∷ b'b' ∷ b'n' ∷ b'm' ∷ b',' ∷ b'.' ∷ b'/' ∷ 0x81
    ∷ b'*' ∷ 0 ∷ b' ' ∷ 0 ∷ 0xff ∷ 0xff ∷ 0xff ∷ 0xff ∷ 0xff ∷ 0xff ∷ 0xff ∷ 0xff ∷ 0xff ∷ 0xff
    ∷ 0xff ∷ 0xff ∷ 0xff ∷ 0xff ∷ 0xff ∷ b'-' ∷ 0xff ∷ 0xff ∷ 0xff ∷ b'+' ∷ 0xff ∷ 0xff ∷ 0xff
    ∷ 0xff ∷ 0xff ∷ 0xff ∷ 0xff ∷ 0xff ∷ 0xff ∷ 0xff ∷ 0xff ∷ []

abbrev pub caps : ℕ
caps = 0x3a

-- `scan2Let`, where `set` is what `setCaps` last stored at `CAPS`.
unfoldable pub scan2_let : ℕ → ℕ → ℕ
scan2_let set scancode = if scancode == caps then set else text get_char scancode

unfoldable pub get_shift : ℕ → ℕ
get_shift letter =
    if letter == b'`'
    then b'~'
    else if letter == b'1'
    then b'!'
    else if letter == b'2'
    then b'@'
    else if letter == b'3'
    then b'#'
    else if letter == b'4'
    then b'$'
    else if letter == b'5'
    then b'%'
    else if letter == b'6'
    then b'^'
    else if letter == b'7'
    then b'&'
    else if letter == b'8'
    then b'*'
    else if letter == b'9'
    then b'('
    else if letter == b'0'
    then b')'
    else if letter == b'-'
    then b'_'
    else if letter == b'='
    then b'+'
    else if letter == b'['
    then b'{'
    else if letter == b']'
    then b'}'
    else if letter == 0x5c
    then b'|'
    else if letter == b';'
    then b':'
    else if letter == 0x27
    then 0x22
    else if letter == b','
    then b'<'
    else if letter == b'.'
    then b'>'
    else if letter == b'/'
    then b'?'
    else 0xff

-- `(letter>LOWERLET)&&(letter<UPPERLET)`
abbrev pub is_letter : ℕ → Bool
is_letter letter = ltb 0x60 letter && ltb letter 0x7b

-- What the handler passes to `insert` for a key, by the state of the caps lock and inside the loop of a
-- shift key or not.
unfoldable pub key_letter : Bool → Bool → ℕ → ℕ
unfolding get_shift
key_letter caps_on shift letter =
    if caps_on
    then if shift
      then if is_letter letter then letter else get_shift letter
      else if is_letter letter
      then letter - 0x20
      else letter
    else if shift
    then if is_letter letter then letter - 0x20 else get_shift letter
    else letter
