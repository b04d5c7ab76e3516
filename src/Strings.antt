-- ===== src/Strings.antt =====
-- The string routines of filesIWorkedOn/lib.c. A `char *` is the memory from that pointer on. A
-- routine that writes through its pointer returns the memory after the call.
pub mod Compare
pub mod Copy
use cl_os.Prelude.{
  ℕ, zero, suc, ◌+◌, ◌-◌, ℤ, pos, diff8, ◌==◌, ◌!=◌, ◌||◌, if◌then◌else◌, Mem, store, Option, none,
  some,
}

-- The `while` of `strlen` at index `len`; `none` when the fuel is used up before a NUL.
unfoldable pub strlen_from : ℕ → Mem → ℕ → Option ℕ
strlen_from zero s len = none
strlen_from (suc fuel) s len =
    let rest = strlen_from fuel s (len + 1) in if s len != 0 then rest else some len

unfoldable pub strlen : ℕ → Mem → Option ℕ
unfolding strlen_from
strlen fuel s = strlen_from fuel s 0

-- The loop of `strncmp` from index `i`, with `k` rounds left.
unfoldable pub strncmp_from : Mem → Mem → ℕ → ℕ → ℤ
strncmp_from s1 s2 i zero = pos 0
strncmp_from s1 s2 i (suc k) =
    let rest = strncmp_from s1 s2 (i + 1) k in
    if s1 i != s2 i || s1 i == 0 then diff8 (s1 i) (s2 i) else rest

unfoldable pub strncmp : Mem → Mem → ℕ → ℤ
unfolding strncmp_from
strncmp s1 s2 n = strncmp_from s1 s2 0 n

-- The `while` of `strcpy` at index `i`, and the NUL that it writes behind the loop.
unfoldable pub strcpy_from : ℕ → Mem → Mem → ℕ → Option Mem
strcpy_from zero dest src i = none
strcpy_from (suc fuel) dest src i =
    let rest = strcpy_from fuel (store dest i (src i)) src (i + 1) in
    if src i != 0 then rest else some (store dest i 0)

unfoldable pub strcpy : ℕ → Mem → Mem → Option Mem
unfolding strcpy_from
strcpy fuel dest src = strcpy_from fuel dest src 0

-- The second loop of `strncpy`: NULs from index `i` on, `k` of them.
pad_from : Mem → ℕ → ℕ → Mem
pad_from dest i zero = dest
pad_from dest i (suc k) = pad_from (store dest i 0) (i + 1) k

-- The first loop of `strncpy` from index `i`, with `n - i` = `k`, and then the second one.
strncpy_from : Mem → Mem → ℕ → ℕ → Mem
unfolding pad_from
strncpy_from dest src i zero = dest
strncpy_from dest src i (suc k) =
    let rest = strncpy_from (store dest i (src i)) src (i + 1) k in
    if src i != 0 then rest else pad_from dest i (suc k)

unfoldable pub strncpy : Mem → Mem → ℕ → Mem
unfolding strncpy_from
strncpy dest src n = strncpy_from dest src 0 n
