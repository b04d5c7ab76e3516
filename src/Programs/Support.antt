-- ===== src/Programs/Support.antt =====
-- The library of the user programs, syscalls/ece391support.c. A loop that ends at a NUL takes fuel.
pub mod Compare
pub mod Same
use cl_os.Prelude.{
  ℕ, zero, suc, ◌+◌, ◌-◌, ◌/◌, ◌%◌, ◌==◌, ◌!=◌, ltb, leb, ◌||◌, if◌then◌else◌, ℤ, pos, sub_ℕ, Mem,
  store, Option, none, some,
}
use cl_os.Prelude.Literal.{◌>>=◌, literal}

-- The `for` of `ece391_strlen` at index `len`.
unfoldable pub length_from : ℕ → Mem → ℕ → Option ℕ
length_from zero s len = none
length_from (suc fuel) s len =
    let rest = length_from fuel s (len + 1) in if 0 != s len then rest else some len

unfoldable pub ece391_strlen : ℕ → Mem → Option ℕ
unfolding length_from
ece391_strlen fuel s = length_from fuel s 0

-- In one memory, from address `src` to address `dst`.
unfoldable pub ece391_strcpy : ℕ → Mem → ℕ → ℕ → Option Mem
ece391_strcpy zero m dst src = none
ece391_strcpy (suc fuel) m dst src =
    let m' = store m dst (m src) in
    let rest = ece391_strcpy fuel m' (dst + 1) (src + 1) in if 0 != m src then rest else some m'

-- The `while` of `ece391_strcmp` at index `i`.
unfoldable pub compare_from : ℕ → Mem → Mem → ℕ → Option ℤ
compare_from zero s1 s2 i = none
compare_from (suc fuel) s1 s2 i =
    let rest = compare_from fuel s1 s2 (i + 1) in
    if s1 i == s2 i then if s1 i == 0 then some (pos 0) else rest else some (sub_ℕ (s1 i) (s2 i))

unfoldable pub ece391_strcmp : ℕ → Mem → Mem → Option ℤ
unfolding compare_from
ece391_strcmp fuel s1 s2 = compare_from fuel s1 s2 0

-- The `while` of `ece391_strncmp` at index `i`, with `n` = `suc k` left.
unfoldable pub compare_bounded : Mem → Mem → ℕ → ℕ → ℤ
compare_bounded s1 s2 i zero = pos 0
compare_bounded s1 s2 i (suc k) =
    let rest = compare_bounded s1 s2 (i + 1) k in
    if s1 i == s2 i then if s1 i == 0 || k == 0 then pos 0 else rest else sub_ℕ (s1 i) (s2 i)

unfoldable pub ece391_strncmp : Mem → Mem → ℕ → ℤ
unfolding compare_bounded
ece391_strncmp s1 s2 n = if 0 == n then pos 0 else compare_bounded s1 s2 0 n

-- The `while` of `ece391_strrev`, for at most so many rounds.
unfoldable pub swap_from : ℕ → Mem → ℕ → ℕ → Mem
swap_from zero s beg end = s
swap_from (suc k) s beg end =
    let rest = swap_from k (store (store s end (s beg)) beg (s end)) (beg + 1) (end - 1) in
    if ltb beg end then rest else s

-- `end` is signed: for an empty string it is -1. The string's length is more rounds than there are.
unfoldable pub ece391_strrev : ℕ → Mem → Option Mem
unfolding ece391_strlen swap_from
ece391_strrev fuel s = do
  l ← ece391_strlen fuel s
  some (if leb l 1 then s else swap_from l s 0 (l - 1))

-- `lookup[i]`, for an index in the table
abbrev pub digit_char : ℕ → ℕ
digit_char = literal "0123456789ABCDEFGHIJKLMNOPQRSTUVWXYZ"

-- The `while` of `ece391_itoa` from index `i`, and the NUL behind it.
-- There is no result where the source divides by 0 or reads behind its table.
unfoldable pub number_from : ℕ → Mem → ℕ → ℕ → ℕ → Option Mem
number_from zero buf i newval radix = none
number_from (suc fuel) buf i newval radix =
    let rest =
      number_from fuel (store buf i (digit_char (newval % radix))) (i + 1) (newval / radix) radix in
    let read : Option Mem = if radix == 0 || leb 36 (newval % radix) then none else rest in
    if ltb 0 newval then read else some (store buf i 0)

unfoldable pub ece391_itoa : ℕ → ℕ → Mem → ℕ → Option Mem
ece391_itoa fuel value buf radix =
    if value == 0
    then some (store (store buf 0 b'0') 1 0)
    else number_from fuel buf 0 value radix >>= ece391_strrev fuel
