-- ===== src/Tests/Files.antt =====
-- Lookups, descriptors and the calls on them, on the image of `Disk`.
use cl_os.Prelude.{
  ℕ, zero, suc, ◌<◌, ◌≡◌, ◌≢◌, refl, ◌==◌, leb, if◌then◌else◌, pos, Mem, some, arith, text, [], ◌∷◌,
  sym, ◌∙◌, ==_iff, IsBytes, Bool, not, true,
}
use cl_os.Prelude.Bits.{all_below, all_below_sound}
use cl_os.Strings.Copy.{EndsAt}
use cl_os.Fs.Image.{file_name, inode_num}
use cl_os.Fs.Lookup.{Dentry, read_dentry_by_name}
use cl_os.Fs.Lookup.Find.{IsPassed, read_dentry_by_name_found}
use cl_os.Fs.Lookup.Index.{IsFileOf}
use cl_os.Tests.Disk.{disk, disk-IsBytes, blank, shell_name, shell_name-IsBytes, text-IsBytes}
use cl_os.Tests.Strings.{shell_name-EndsAt}

abbrev pub junk : Dentry
junk = record { name = blank; kind = 7; inode = 9 }

first-IsPassed : (j : ℕ) → j < 1 → IsPassed disk disk-IsBytes shell_name shell_name-IsBytes j
first-IsPassed zero h = (
  omega arith,
  (λ s. absurd (omega (arith, s 0 (omega arith) (omega arith) (λ j p q. absurd (omega arith))))),
)
first-IsPassed (suc j) h = absurd (omega arith)

second_same : (i : ℕ) → i < 32 → file_name disk 1 i ≡ shell_name i
unfolding all_below
second_same i h =
    (==_iff _ _).0 (all_below_sound 32 (λ i. file_name disk 1 i == shell_name i) i refl h)

second-EndsAt : EndsAt (file_name disk 1) 0 5
second-EndsAt = record {
  later = omega arith;
  nul = refl;
  full = λ j p h z. shell_name-EndsAt.full j p h (sym (second_same j (omega arith)) ∙ z);
}

pub found_shell :
    (name : Mem) × (read_dentry_by_name disk 9 shell_name junk
      ≡ some (pos 0, record { name = name; kind = 2; inode = 0 }))
found_shell =
    let (name, e, _) =
      read_dentry_by_name_found disk disk-IsBytes shell_name shell_name-IsBytes 9 1 5 junk
        (omega arith) first-IsPassed (λ i _ h _. second_same i h) second-EndsAt (omega arith)
        (omega arith) in
    (name, e)

read_dentry_by_name_found_example :
    (name : Mem) × (read_dentry_by_name disk 9 shell_name junk
      ≡ some (pos 0, record { name = name; kind = 2; inode = 0 }))
    × ((i : ℕ) → name i ≡ (if leb i 5 then file_name disk 1 i else blank i))
read_dentry_by_name_found_example =
    read_dentry_by_name_found disk disk-IsBytes shell_name shell_name-IsBytes 9 1 5 junk
      (omega arith) first-IsPassed (λ i _ h _. second_same i h) second-EndsAt (omega arith)
      (omega arith)

abbrev other_name : Mem
other_name = text (b'l' ∷ b's' ∷ [])

other_name-IsBytes : IsBytes other_name
other_name-IsBytes = text-IsBytes (b'l' ∷ b's' ∷ []) refl

differs :
    (d : ℕ)
    → file_name disk d 0 ≢ 0
    → file_name disk d 0 ≢ b'l'
    → IsPassed disk disk-IsBytes other_name other_name-IsBytes d
differs d h g = (h, (λ s. g (s 0 (omega arith) (omega arith) (λ j p q. absurd (omega arith)))))

all-IsPassed : (j : ℕ) → j < 3 → IsPassed disk disk-IsBytes other_name other_name-IsBytes j
all-IsPassed zero h = differs 0 (omega arith) (omega arith)
all-IsPassed (suc zero) h = differs 1 (omega arith) (omega arith)
all-IsPassed (suc (suc zero)) h = differs 2 (omega arith) (omega arith)
all-IsPassed (suc (suc (suc j))) h = absurd (omega arith)

not_first : (j : ℕ) → j < 1 → ¬ IsFileOf disk 0 j
not_first zero h (e, f) = absurd (omega arith)
not_first (suc j) h f = absurd (omega arith)

abbrev is_file_of_three : ℕ → Bool
is_file_of_three j = inode_num disk j == 3

if_false : {b : Bool} → not b ≡ true → b ≢ true
if_false h = ground arith

none_of_three : (j : ℕ) → j < 63 → ¬ IsFileOf disk 3 j
unfolding all_below
none_of_three j h (e, f) =
    (if_false (all_below_sound 63 (λ j. not (is_file_of_three j)) j refl h)) ((==_iff _ _).1 e)
