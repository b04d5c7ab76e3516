-- ===== src/Syscalls/Arguments.antt =====
-- `sys_getargs`, `vidmap` and the two signal calls of filesIWorkedOn/syscalls.c.
use cl_os.Prelude.{
  ℕ, zero, suc, ◌+◌, ◌==◌, ltb, leb, ◌&&◌, ◌||◌, if◌then◌else◌, ◌<◌, ◌≤◌, ◌≡◌, ℤ, pos, minus_one,
  Mem, store, Option, none, some, arith,
}
use cl_os.Strings.{strlen, strncpy}
use cl_os.Strings.Copy.{EndsAt, char_of_full, strlen_lem, strncpy_lem}

-- The loop that clears the old string in the buffer.
unfoldable pub clear_string : Mem → ℕ → ℕ → Mem
clear_string buf i zero = buf
clear_string buf i (suc k) = clear_string (store buf i 0) (i + 1) k

-- The result and the buffer; `none` without fuel for the two strings. A `NULL` buffer is `none`.
unfoldable pub sys_getargs : ℕ → Mem → Option Mem → ℕ → Option (ℤ × Option Mem)
unfolding clear_string
sys_getargs fuel arguments none nbytes = some (minus_one, none)
sys_getargs fuel arguments (some buf) nbytes = elim (strlen fuel buf) [
  | none ↦ none
  | some buf_size ↦ elim (strlen fuel arguments) [
    | none ↦ none
    | some arg_length ↦
        let buf' = clear_string buf 0 buf_size in
        some (
          if ltb nbytes arg_length
          then (minus_one, some buf')
          else if arg_length == 0
          then (minus_one, some buf')
          else (pos 0, some (strncpy buf' arguments arg_length)))
  ]
]

abbrev pub prog_vir_addr_start : ℕ
prog_vir_addr_start = 0x8000000

abbrev pub prog_page_size : ℕ
prog_page_size = 0x400000

-- The address where the user's pointer lies, and what `*screen_start` and the argument of
-- `add_vidmap` are; `none` where nothing is written.
unfoldable pub vidmap : ℕ → ℤ × Option ℕ
vidmap screen_start =
    if ltb screen_start prog_vir_addr_start
      || leb (prog_vir_addr_start + prog_page_size) screen_start
    then (minus_one, none)
    else (pos 0, some (prog_vir_addr_start + prog_page_size))

pub set_handler : ℕ → ℕ → ℤ
set_handler signum handler_address = minus_one

pub sigreturn : ℤ
sigreturn = minus_one

clear_string_lem :
    (buf : Mem) (i k a : ℕ)
    → clear_string buf i k a ≡ (if leb i a && ltb a (i + k) then 0 else buf a)
unfolding clear_string
clear_string_lem buf i zero a = ground arith
clear_string_lem buf i (suc k) a = ground (arith, clear_string_lem (store buf i 0) (i + 1) k a)

-- Arguments of `l` characters, at least one and at most `nbytes`, and a buffer that holds a string of `n`
-- characters: `sys_getargs` ends, returns 0 and gives the `l` characters; behind them the rest of the old
-- string is cleared, and no other byte is written, a terminating NUL neither.
pub sys_getargs_lem :
    (fuel l n nbytes : ℕ) (arguments buf : Mem)
    → EndsAt arguments 0 l
    → EndsAt buf 0 n
    → l < fuel
    → n < fuel
    → 0 < l
    → l ≤ nbytes
    → (b : Mem) × (sys_getargs fuel arguments (some buf) nbytes ≡ some (pos 0, some b))
      × ((i : ℕ) → b i ≡ (if ltb i l then arguments i else if ltb i n then 0 else buf i))
unfolding sys_getargs
sys_getargs_lem fuel l n nbytes arguments buf ea eb hl hn lo hi = (
  strncpy (clear_string buf 0 n) arguments l,
  rw (strlen_lem fuel buf n eb hn, sys_getargs, strlen_lem fuel arguments l ea hl, sys_getargs)
      (ground arith),
  (λ i. ground (
    arith,
    strncpy_lem (clear_string buf 0 n) arguments l i,
    clear_string_lem buf 0 n i,
    (λ (q : i < l). char_of_full arguments i (λ j p. ea.full j (omega arith) (omega arith))),
  )),
)
