-- ===== src/Printf.antt =====
-- `printf` of filesIWorkedOn/lib.c. The format is read from index `i` on. The parameters on the stack are words of 32
-- bits, the one at index `arg` by `words arg`; `string_at p` is the memory from the pointer `p` on.
pub mod Convert
pub mod Format
pub mod OnScreen
pub mod Total
use mathlib.Core.Option
use cl_os.Prelude.{
  ℕ, zero, suc, ◌+◌, ◌-◌, ◌^◌, ◌%◌, ◌==◌, ltb, if◌then◌else◌, Mem, store, offset, Option, none,
  some, Bool, true, false,
}
use cl_os.Strings.{strlen}
use cl_os.Numbers.{itoa}
use cl_os.Screen.{Screen, putc, puts}

-- `b` is the memory from `base + k` on after a call on `&base[k]`.
abbrev pub splice : Mem → ℕ → Mem → Mem
splice base k b a = if ltb a k then base a else b (a - k)

-- `while(i < 8)` of the alternate format, from `i` on, for at most so many rounds.
unfoldable pub pad_zeros : ℕ → Mem → ℕ → Mem
pad_zeros zero conv_buf i = conv_buf
pad_zeros (suc k) conv_buf i =
    let rest = pad_zeros k (store conv_buf i b'0') (i + 1) in if ltb i 8 then rest else conv_buf

-- What `%x`, `%#x`, `%u` and `%d` pass to `puts`: the memory and the index where the text starts. `conv_buf` is what the
-- stack held.
unfoldable pub convert_hex : ℕ → Mem → ℕ → Option (Mem × ℕ)
convert_hex fuel conv_buf value = Option.map (λ b. (b, 0)) (itoa fuel value conv_buf 16)

unfoldable pub convert_aligned : ℕ → Mem → ℕ → Option (Mem × ℕ)
unfolding pad_zeros
convert_aligned fuel conv_buf value = elim (itoa fuel value (offset conv_buf 8) 16) [
  | none ↦ none
  | some b ↦ elim (strlen fuel b) [
    | none ↦ none
    | some l ↦ some (pad_zeros 8 (splice conv_buf 8 b) l, l)
  ]
]

unfoldable pub convert_unsigned : ℕ → Mem → ℕ → Option (Mem × ℕ)
convert_unsigned fuel conv_buf value = Option.map (λ b. (b, 0)) (itoa fuel value conv_buf 10)

-- A word from 2 ^ 31 on is negative, and `-value` is then 2 ^ 32 less the word.
unfoldable pub convert_signed : ℕ → Mem → ℕ → Option (Mem × ℕ)
convert_signed fuel conv_buf value =
    if ltb value (2 ^ 31)
    then Option.map (λ b. (b, 0)) (itoa fuel value conv_buf 10)
    else Option.map (λ b. (splice (store conv_buf 0 b'-') 1 b, 0))
        (itoa fuel (2 ^ 32 - value) (offset (store conv_buf 0 b'-') 1) 10)

module _ (current t key_int : ℕ) (words : ℕ → ℕ) (string_at : ℕ → Mem) (conv_buf : Mem) where
  -- `puts(&conv_buf[start])`, and the parameter is used up.
  unfoldable pub put_converted : ℕ → ℕ → ℕ → Option (Mem × ℕ) → Screen → Option (ℕ × ℕ × Screen)
  put_converted fuel i arg none s = none
  put_converted fuel i arg (some (b, start)) s =
      Option.map (λ r. (i, arg + 1, r.1)) (puts fuel current t key_int (offset b start) s)

  -- The `switch` at `format_char_switch`: the index of its character, the index of the next parameter, and the
  -- screen.
  unfoldable pub specifier : ℕ → Mem → ℕ → Bool → ℕ → Screen → Option (ℕ × ℕ × Screen)
  unfolding put_converted
  specifier zero format i alternate arg s = none
  specifier (suc fuel) format i alternate arg s =
      let c = format i in
      let again = specifier fuel format (i + 1) true arg s in
      let plain = convert_hex fuel conv_buf (words arg) in
      let aligned = convert_aligned fuel conv_buf (words arg) in
      let string =
        Option.map (λ r. (i, arg + 1, r.1))
          (puts fuel current t key_int (string_at (words arg)) s) in
      if c == b'%'
      then some (i, arg, putc current t key_int b'%' s)
      else if c == b'#'
      then again
      else if c == b'x'
      then put_converted fuel i arg (if alternate then aligned else plain) s
      else if c == b'u'
      then put_converted fuel i arg (convert_unsigned fuel conv_buf (words arg)) s
      else if c == b'd'
      then put_converted fuel i arg (convert_signed fuel conv_buf (words arg)) s
      else if c == b'c'
      then some (i, arg + 1, putc current t key_int (words arg % 256) s)
      else if c == b's'
      then string
      else some (i, arg, s)

  -- The `while` of `printf`: the number it returns, and the screen; `none` without fuel.
  unfoldable pub printf_from : ℕ → Mem → ℕ → ℕ → Screen → Option (ℕ × Screen)
  unfolding specifier
  printf_from zero format i arg s = none
  printf_from (suc fuel) format i arg s =
      let literal = printf_from fuel format (i + 1) arg (putc current t key_int (format i) s) in
      let special : Option (ℕ × Screen) = elim (specifier fuel format (i + 1) false arg s) [
        | none ↦ none
        | some (j, arg', s') ↦ printf_from fuel format (j + 1) arg' s'
      ] in
      if format i == 0 then some (i, s) else if format i == b'%' then special else literal

  unfoldable pub printf : ℕ → Mem → Screen → Option (ℕ × Screen)
  unfolding printf_from
  printf fuel format s = printf_from fuel format 0 0 s
