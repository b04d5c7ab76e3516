-- ===== src/Blocks.antt =====
-- The block routines of lib.c, written there in assembly: `memset` and its word forms, `memcpy`
-- and `memmove`. `edi`, `esi` and `ecx` are the registers of the same names.
pub mod Laws
pub mod Overlap
use cl_os.Prelude.{ℕ, zero, suc, ◌+◌, ◌-◌, ◌*◌, ◌/◌, ◌%◌, ◌==◌, leb, if◌then◌else◌, Mem, store}

-- A little-endian word of four bytes `w i`.
abbrev pub store4 : Mem → ℕ → Mem → Mem
store4 m a w = store (store (store (store m a (w 0)) (a + 1) (w 1)) (a + 2) (w 2)) (a + 3) (w 3)

-- The byte loop of `.memset_top` and `.memset_bottom`.
unfoldable pub set_bytes : Mem → ℕ → ℕ → ℕ → Mem
set_bytes m edi c zero = m
set_bytes m edi c (suc n) = set_bytes (store m edi c) (edi + 1) c n

-- `rep stosl` with the byte `c` in all four places of `eax`.
unfoldable pub set_words : Mem → ℕ → ℕ → ℕ → Mem
set_words m edi c zero = m
set_words m edi c (suc n) = set_words (store4 m edi (λ i. c)) (edi + 4) c n

-- `.memset_aligned`: `ecx / 4` words and then `ecx % 4` bytes.
unfoldable pub set_aligned : Mem → ℕ → ℕ → ℕ → Mem
unfolding set_bytes set_words
set_aligned m edi c ecx = set_bytes (set_words m edi c (ecx / 4)) (edi + 4 * (ecx / 4)) c (ecx % 4)

-- `.memset_top`: bytes until the address is a multiple of four.
unfoldable pub set_top : Mem → ℕ → ℕ → ℕ → Mem
unfolding set_aligned
set_top m edi c zero = m
set_top m edi c (suc ecx) =
    let rest = set_top (store m edi c) (edi + 1) c ecx in
    if edi % 4 == 0 then set_aligned m edi c (suc ecx) else rest

unfoldable pub memset : Mem → ℕ → ℕ → ℕ → Mem
unfolding set_top
memset m s c n = set_top m s (c % 256) n

-- `rep stosw` and `rep stosl` of `memset_word` and `memset_dword`.
unfoldable pub memset_word : Mem → ℕ → ℕ → ℕ → Mem
memset_word m s c zero = m
memset_word m s c (suc n) =
    memset_word (store (store m s (c % 256)) (s + 1) (c / 256 % 256)) (s + 2) c n

unfoldable pub memset_dword : Mem → ℕ → ℕ → ℕ → Mem
memset_dword m s c zero = m
memset_dword m s c (suc n) = memset_dword (store4 m s (text4 c)) (s + 4) c n
  where
    text4 : ℕ → Mem
    text4 c i =
        if i == 0
        then c % 256
        else if i == 1
        then c / 256 % 256
        else if i == 2
        then c / 65536 % 256
        else c / 16777216 % 256

-- `memcpy`, forward in one memory: bytes, words of four bytes read before they are written, bytes.
unfoldable pub copy_bytes : Mem → ℕ → ℕ → ℕ → Mem
copy_bytes m edi esi zero = m
copy_bytes m edi esi (suc n) = copy_bytes (store m edi (m esi)) (edi + 1) (esi + 1) n

unfoldable pub copy_words : Mem → ℕ → ℕ → ℕ → Mem
copy_words m edi esi zero = m
copy_words m edi esi (suc n) = copy_words (store4 m edi (λ i. m (esi + i))) (edi + 4) (esi + 4) n

unfoldable pub copy_aligned : Mem → ℕ → ℕ → ℕ → Mem
unfolding copy_bytes copy_words
copy_aligned m edi esi ecx =
    copy_bytes (copy_words m edi esi (ecx / 4)) (edi + 4 * (ecx / 4)) (esi + 4 * (ecx / 4))
      (ecx % 4)

unfoldable pub copy_top : Mem → ℕ → ℕ → ℕ → Mem
unfolding copy_aligned
copy_top m edi esi zero = m
copy_top m edi esi (suc ecx) =
    let rest = copy_top (store m edi (m esi)) (edi + 1) (esi + 1) ecx in
    if edi % 4 == 0 then copy_aligned m edi esi (suc ecx) else rest

unfoldable pub memcpy : Mem → ℕ → ℕ → ℕ → Mem
unfolding copy_top
memcpy m dest src n = copy_top m dest src n

-- `rep movsb` with the direction flag set: from the last byte down.
unfoldable pub copy_down : Mem → ℕ → ℕ → ℕ → Mem
copy_down m dest src zero = m
copy_down m dest src (suc n) = copy_down (store m (dest + n) (m (src + n))) dest src n

unfoldable pub memmove : Mem → ℕ → ℕ → ℕ → Mem
unfolding copy_bytes copy_down
memmove m dest src n = if leb dest src then copy_bytes m dest src n else copy_down m dest src n
