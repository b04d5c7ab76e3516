-- ===== src/Syscalls/Files/Sound.antt =====
-- Every open descriptor has the table of its type, so that no call goes through a stray pointer.
use mathlib.Core.Path.{subst}
use cl_os.Prelude.{
  ℕ, ◌+◌, ◌≤◌, ◌<◌, ◌≡◌, ◌≢◌, ◌⊎◌, inl, inr, ℤ, pos, minus_one, Mem, true, Option, none, some,
  arith, Option-cases,
}
use cl_os.Pcb.{
  FileArray, FileStruct, no_table, fops_rtc, fops_dir, fops_file, fops_term, open_flag, close_flag,
  set_file,
}
use cl_os.Fs.Image.{type_dir, type_file, type_rtc, type_term}
use cl_os.Fs.Lookup.{Dentry, read_dentry_by_name}
use cl_os.Syscalls.Files.{free_fd, opened, type_of, open_entry, sys_open, sys_close, is_open}
use cl_os.Syscalls.Files.Slots.{sys_open_lem, free_fd_found}

-- A descriptor is closed, or its flags are those of its table.
abbrev pub IsSound : FileStruct → Type 0
IsSound f =
    (f.flags ≡ close_flag)
    ⊎ ((f.flags ≡ open_flag + type_dir) × (f.fops_table ≡ fops_dir))
    ⊎ ((f.flags ≡ open_flag + type_file) × (f.fops_table ≡ fops_file))
    ⊎ ((f.flags ≡ open_flag + type_rtc) × (f.fops_table ≡ fops_rtc))
    ⊎ ((f.flags ≡ open_flag + type_term) × (f.fops_table ≡ fops_term))

abbrev pub AllSound : FileArray → Type 0
AllSound files = (fd : ℕ) → IsSound (files fd)

opened-IsSound : (t n : ℕ) (f : FileStruct) → IsSound f → IsSound (opened t n f)
unfolding opened
opened-IsSound t n f h = ground arith

set_file-AllSound :
    (files : FileArray) (fd : ℕ) (f : FileStruct)
    → AllSound files
    → IsSound f
    → AllSound (set_file files fd f)
set_file-AllSound files fd f h g k = ground (arith, h k)

open_entry-AllSound :
    (filename : Mem) (files : FileArray) (i : ℕ) (r : ℤ × Dentry)
    → AllSound files
    → AllSound (open_entry filename files i r).1
unfolding open_entry
open_entry-AllSound filename files i (pos n, e) h =
    set_file-AllSound files i _ h (opened-IsSound (type_of filename e.kind) e.inode (files i) (h i))
open_entry-AllSound filename files i (ℤ.negsuc n, e) h = h

abbrev AllSoundAfter : Option (ℤ × FileArray) → Type 0
AllSoundAfter none = Unit
AllSoundAfter (some (r, files)) = AllSound files

sys_open-AllSoundAfter :
    (fuel : ℕ) (bblock : Mem) (junk : Dentry) (filename : Mem) (files : FileArray)
    → AllSound files
    → AllSoundAfter (sys_open fuel bblock junk filename files)
unfolding sys_open
sys_open-AllSoundAfter fuel bblock junk filename files h = elim (Option-cases (free_fd files 2 5)) [
  | inl n ↦ rw (n, sys_open) h
  | inr (i, p) ↦ elim (Option-cases (read_dentry_by_name bblock fuel filename junk)) [
    | inl n ↦ rw (p, sys_open, n, sys_open) tt
    | inr (q, f) ↦ rw (p, sys_open, f, sys_open) (open_entry-AllSound filename files i q h)
  ]
]

-- If all descriptors are sound, they are so after any `sys_open` that returns, whatever it finds.
pub sys_open-AllSound :
    (fuel : ℕ) (bblock : Mem) (junk : Dentry) (filename : Mem) (files files' : FileArray) (r : ℤ)
    → AllSound files
    → sys_open fuel bblock junk filename files ≡ some (r, files')
    → AllSound files'
sys_open-AllSound fuel bblock junk filename files files' r h e =
    subst AllSoundAfter e (sys_open-AllSoundAfter fuel bblock junk filename files h)

-- A sound descriptor that the calls take for open points to a table.
pub fops_table-IsSound : (f : FileStruct) → IsSound f → is_open f ≡ true → f.fops_table ≢ no_table
fops_table-IsSound f h o = ground arith

-- A descriptor from 2 on that `sys_open` filled for a known type is closed by `sys_close`, which
-- returns 0; a second `sys_close` returns -1, and the descriptor is free for the next `sys_open`.
pub sys_close-sys_open :
    (fuel : ℕ) (bblock : Mem) (junk e : Dentry) (filename : Mem) (files : FileArray) (l : ℕ)
    → 2 ≤ l
    → l < 8
    → ((j : ℕ) → 2 ≤ j → j < l → (files j).flags ≢ close_flag)
    → (files l).flags ≡ close_flag
    → read_dentry_by_name bblock fuel filename junk ≡ some (pos 0, e)
    → (e.kind ≡ type_dir) ⊎ (e.kind ≡ type_file) ⊎ (e.kind ≡ type_rtc)
    → (opened_files : FileArray) × (sys_open fuel bblock junk filename files
        ≡ some (pos l, opened_files))
      × ((sys_close opened_files l).0 ≡ pos 0)
      × ((sys_close (sys_close opened_files l).1 l).0 ≡ minus_one)
      × ((free_fd (sys_close opened_files l).1 2 5) ≡ some l)
unfolding sys_close
sys_close-sys_open fuel bblock junk e filename files l lo hi h z found kind = (
  new,
  sys_open_lem fuel bblock junk e filename files l lo hi h z found,
  ground (arith, open_l),
  ground (arith, open_l),
  free_fd_found _ l 2 5 lo (omega arith) (λ j p q. ground (arith, h j p q, open_l))
      (ground (arith, open_l)),
)
  where
    f : FileStruct
    f = opened (type_of filename e.kind) e.inode (files l)

    new : FileArray
    new = set_file files l f

    open_l : is_open f ≡ true
    open_l = unfold opened in ground arith
