-- ===== src/Tests/Disk.antt =====
-- A file system image with the directory entries `.`, `shell` and `rtc`, one inode, and its file of six
-- bytes in data block 1.
use cl_os.Prelude.{
  ℕ, zero, suc, ◌-◌, ◌<◌, ◌≡◌, refl, List, [], ◌∷◌, Mem, IsBytes, text, ltb, if◌then◌else◌, Bool,
  true, false, arith,
}
use cl_os.Fs.Image.{inode_length, data_block}
use cl_os.Fs.Read.{IsAllocated}

abbrev pub zeros : ℕ → List ℕ → List ℕ
zeros zero l = l
zeros (suc n) l = 0 ∷ zeros n l

abbrev pub boot : List ℕ
boot =
    3
    ∷ 0
    ∷ 0
    ∷ 0
    ∷ 1
    ∷ zeros 59 (
        b'.'
        ∷ zeros 31 (
            1
            ∷ zeros 31 (
                b's'
                ∷ b'h'
                ∷ b'e'
                ∷ b'l'
                ∷ b'l'
                ∷ zeros 27 (2 ∷ zeros 31 (b'r' ∷ b't' ∷ b'c' ∷ [])))))

abbrev pub first_inode : List ℕ
first_inode = 6 ∷ 0 ∷ 0 ∷ 0 ∷ 1 ∷ []

abbrev pub contents : List ℕ
contents = 0x7f ∷ b'E' ∷ b'L' ∷ b'F' ∷ b'o' ∷ b'k' ∷ []

abbrev pub disk : Mem
disk a =
    if ltb a 4096
    then text boot a
    else if ltb a 12288
    then text first_inode (a - 4096)
    else text contents (a - 12288)

abbrev pub all_bytes : List ℕ → Bool
all_bytes [] = true
all_bytes (c ∷ l) = if ltb c 256 then all_bytes l else false

pub text-IsBytes : (l : List ℕ) → all_bytes l ≡ true → IsBytes (text l)
text-IsBytes [] h i = omega arith
text-IsBytes (c ∷ l) h zero = ground arith
text-IsBytes (c ∷ l) h (suc i) = text-IsBytes l (ground arith) i

either_byte : (b : Bool) (x y : ℕ) → x < 256 → y < 256 → (if b then x else y) < 256
either_byte true x y h k = h
either_byte false x y h k = k

pub disk-IsBytes : IsBytes disk
disk-IsBytes a = either_byte (ltb a 4096) _ _ (text-IsBytes boot refl a) (
    either_byte (ltb a 12288) _ _ (text-IsBytes first_inode refl (a - 4096))
      (text-IsBytes contents refl (a - 12288)))

-- A buffer of a known byte.
abbrev pub blank : Mem
blank i = 0xaa

abbrev pub shell_name : Mem
shell_name = text (b's' ∷ b'h' ∷ b'e' ∷ b'l' ∷ b'l' ∷ [])

pub shell_name-IsBytes : IsBytes shell_name
shell_name-IsBytes = text-IsBytes (b's' ∷ b'h' ∷ b'e' ∷ b'l' ∷ b'l' ∷ []) refl

pub disk-IsAllocated : IsAllocated disk 0
unfolding inode_length data_block
disk-IsAllocated zero h = omega arith
disk-IsAllocated (suc b) h = absurd (omega arith)
