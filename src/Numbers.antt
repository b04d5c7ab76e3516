-- ===== src/Numbers.antt =====
-- `itoa` and `strrev` of filesIWorkedOn/lib.c.
pub mod Reverse
pub mod Digits
use cl_os.Prelude.{
  ℕ, zero, suc, ◌+◌, ◌-◌, ◌/◌, ◌%◌, ◌==◌, ltb, leb, ◌||◌, if◌then◌else◌, Mem, store, Option, none,
  some,
}
use cl_os.Strings.{strlen}

-- `lookup[i]`, for an index in the table
abbrev pub lookup : ℕ → ℕ
lookup i = if ltb i 10 then b'0' + i else b'A' + (i - 10)

-- The swap in the `while` of `strrev`.
abbrev pub swap : Mem → ℕ → ℕ → Mem
swap s beg end = store (store s end (s beg)) beg (s end)

-- That `while`, for at most so many rounds.
unfoldable pub reverse_from : ℕ → Mem → ℕ → ℕ → Mem
reverse_from zero s beg end = s
reverse_from (suc k) s beg end =
    let rest = reverse_from k (swap s beg end) (beg + 1) (end - 1) in
    if ltb beg end then rest else s

-- The string's length is more rounds than there are. An empty string is left as it is.
unfoldable pub strrev : ℕ → Mem → Option Mem
unfolding reverse_from
strrev fuel s = elim (strlen fuel s) [
  | none ↦ none
  | some l ↦ some (if l == 0 then s else reverse_from l s 0 (l - 1))
]

-- The `while` of `itoa` from index `i`, and the NUL behind it.
-- There is no result where the source divides by 0 or reads behind its table.
unfoldable pub digits_from : ℕ → Mem → ℕ → ℕ → ℕ → Option Mem
digits_from zero buf i newval radix = none
digits_from (suc fuel) buf i newval radix =
    let rest =
      digits_from fuel (store buf i (lookup (newval % radix))) (i + 1) (newval / radix) radix in
    let read : Option Mem = if radix == 0 || leb 36 (newval % radix) then none else rest in
    if ltb 0 newval then read else some (store buf i 0)

unfoldable pub itoa : ℕ → ℕ → Mem → ℕ → Option Mem
unfolding digits_from strrev
itoa fuel value buf radix =
    if value == 0
    then some (store (store buf 0 b'0') 1 0)
    else elim (digits_from fuel buf 0 value radix) [ none ↦ none | some b ↦ strrev fuel b ]
