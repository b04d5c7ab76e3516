-- ===== src/Printf/OnScreen.antt =====
-- `puts` and `printf` keep the cursors on the screen.
use cl_os.Prelude.{
  ℕ, zero, suc, ◌+◌, ◌%◌, ◌==◌, ◌!=◌, Bool, true, false, Mem, offset, Option, none, some, Holds,
  no_result, has_result, if-Holds, map-Holds, elim-Holds,
}
use cl_os.Screen.{Screen, putc, puts_from, puts}
use cl_os.Screen.Cursor.{IsOnScreen, putc-IsOnScreen}
use cl_os.Printf.{put_converted, specifier, printf_from, printf}

-- A number and a screen with its cursors on it.
abbrev pub IsShown : ℕ × Screen → Type 0
IsShown (n, s) = IsOnScreen s

abbrev IsSpecified : ℕ × ℕ × Screen → Type 0
IsSpecified (i, arg, s) = IsOnScreen s

puts_from-IsShown :
    (fuel current t key_int : ℕ) (str : Mem) (i : ℕ) (s : Screen)
    → IsOnScreen s
    → Holds IsShown (puts_from fuel current t key_int str i s)
unfolding puts_from
puts_from-IsShown zero current t key_int str i s h = no_result
puts_from-IsShown (suc fuel) current t key_int str i s h =
    if-Holds (str i != 0)
      (puts_from-IsShown fuel current t key_int str (i + 1) (putc current t key_int (str i) s)
        (putc-IsOnScreen current t key_int (str i) s h))
      (has_result h)

module _ (current t key_int : ℕ) (words : ℕ → ℕ) (string_at : ℕ → Mem) (conv_buf : Mem) where
  put_converted-IsSpecified :
      (fuel i arg : ℕ) (o : Option (Mem × ℕ)) (s : Screen)
      → IsOnScreen s
      → Holds IsSpecified (put_converted current t key_int words string_at conv_buf fuel i arg o s)
  unfolding put_converted puts
  put_converted-IsSpecified fuel i arg none s h = no_result
  put_converted-IsSpecified fuel i arg (some (b, start)) s h =
      map-Holds _ (puts_from-IsShown fuel current t key_int (offset b start) 0 s h) (λ a k. k)

  specifier-IsSpecified :
      (fuel : ℕ) (format : Mem) (i : ℕ) (alternate : Bool) (arg : ℕ) (s : Screen)
      → IsOnScreen s
      → Holds IsSpecified
          (specifier current t key_int words string_at conv_buf fuel format i alternate arg s)
  unfolding specifier puts
  specifier-IsSpecified zero format i alternate arg s h = no_result
  specifier-IsSpecified (suc fuel) format i alternate arg s h =
      if-Holds (format i == b'%') (has_result (putc-IsOnScreen current t key_int b'%' s h)) (
        if-Holds (format i == b'#') (specifier-IsSpecified fuel format (i + 1) true arg s h) (
          if-Holds (format i == b'x') (put_converted-IsSpecified fuel i arg _ s h) (
            if-Holds (format i == b'u') (put_converted-IsSpecified fuel i arg _ s h) (
              if-Holds (format i == b'd') (put_converted-IsSpecified fuel i arg _ s h) (
                if-Holds (format i == b'c')
                  (has_result (putc-IsOnScreen current t key_int (words arg % 256) s h))
                  (if-Holds (format i == b's')
                    (map-Holds _
                      (puts_from-IsShown fuel current t key_int (string_at (words arg)) 0 s h)
                      (λ a k. k))
                    (has_result h)))))))

  printf_from-IsShown :
      (fuel : ℕ) (format : Mem) (i arg : ℕ) (s : Screen)
      → IsOnScreen s
      → Holds IsShown (printf_from current t key_int words string_at conv_buf fuel format i arg s)
  unfolding printf_from
  printf_from-IsShown zero format i arg s h = no_result
  printf_from-IsShown (suc fuel) format i arg s h = if-Holds (format i == 0) (has_result h) (
      if-Holds (format i == b'%')
        (elim-Holds _ (specifier-IsSpecified fuel format (i + 1) false arg s h)
          (λ r k. printf_from-IsShown fuel format (r.0 + 1) r.1 r.2 k))
        (printf_from-IsShown fuel format (i + 1) arg (putc current t key_int (format i) s)
          (putc-IsOnScreen current t key_int (format i) s h)))

  -- If every cursor is on the screen, every cursor is so when `printf` returns, whatever its format and parameters.
  pub printf-IsShown :
      (fuel : ℕ) (format : Mem) (s : Screen)
      → IsOnScreen s
      → Holds IsShown (printf current t key_int words string_at conv_buf fuel format s)
  unfolding printf
  printf-IsShown fuel format s h = printf_from-IsShown fuel format 0 0 s h
