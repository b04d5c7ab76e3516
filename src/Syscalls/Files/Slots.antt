-- ===== src/Syscalls/Files/Slots.antt =====
-- Which descriptor `sys_open` gives.
use cl_os.Prelude.{
  ℕ, zero, suc, ◌+◌, ◌≤◌, ◌<◌, ◌≡◌, ◌≢◌, inl, inr, refl, pos, minus_one, Mem, none, some, arith,
  eq_or_ne,
}
use cl_os.Pcb.{FileArray, close_flag, set_file}
use cl_os.Fs.Lookup.{Dentry, read_dentry_by_name}
use cl_os.Syscalls.Files.{free_fd, opened, type_of, open_entry, sys_open}

pub free_fd_found :
    (files : FileArray) (l i k : ℕ)
    → i ≤ l
    → l ≤ i + k
    → ((j : ℕ) → i ≤ j → j < l → (files j).flags ≢ close_flag)
    → (files l).flags ≡ close_flag
    → free_fd files i k ≡ some l
unfolding free_fd
free_fd_found files l i zero p q h z = let e : i ≡ l = omega arith in rw e (ground (arith, z))
free_fd_found files l i (suc k) p q h z = elim (eq_or_ne i l) [
  | inl e ↦ rw e (ground (arith, z))
  | inr ne ↦ ground (
    arith,
    h i (omega arith) (omega arith),
    free_fd_found files l (i + 1) k (omega arith) (omega arith) (λ j p' q'. h j (omega arith) q') z,
  )
]

free_fd_full :
    (files : FileArray) (i k : ℕ)
    → ((j : ℕ) → i ≤ j → j ≤ i + k → (files j).flags ≢ close_flag)
    → free_fd files i k ≡ none
unfolding free_fd
free_fd_full files i zero h = ground (arith, h i (omega arith) (omega arith))
free_fd_full files i (suc k) h = ground (
  arith,
  h i (omega arith) (omega arith),
  free_fd_full files (i + 1) k (λ j p q. h j (omega arith) (omega arith)),
)

-- With a free descriptor and a name that the directory has, `sys_open` returns the lowest free
-- descriptor from 2 on and fills that one alone, by the type of the entry.
pub sys_open_lem :
    (fuel : ℕ) (bblock : Mem) (junk e : Dentry) (filename : Mem) (files : FileArray) (l : ℕ)
    → 2 ≤ l
    → l < 8
    → ((j : ℕ) → 2 ≤ j → j < l → (files j).flags ≢ close_flag)
    → (files l).flags ≡ close_flag
    → read_dentry_by_name bblock fuel filename junk ≡ some (pos 0, e)
    → sys_open fuel bblock junk filename files
      ≡ some (pos l, set_file files l (opened (type_of filename e.kind) e.inode (files l)))
unfolding sys_open open_entry
sys_open_lem fuel bblock junk e filename files l lo hi h z found =
    rw (free_fd_found files l 2 5 lo (omega arith) h z, sys_open, found, sys_open) refl

-- With the descriptors 2 to 7 in use `sys_open` returns -1 and changes nothing.
pub sys_open_full :
    (fuel : ℕ) (bblock : Mem) (junk : Dentry) (filename : Mem) (files : FileArray)
    → ((j : ℕ) → 2 ≤ j → j < 8 → (files j).flags ≢ close_flag)
    → sys_open fuel bblock junk filename files ≡ some (minus_one, files)
unfolding sys_open
sys_open_full fuel bblock junk filename files h =
    rw (free_fd_full files 2 5 (λ j p q. h j p (omega arith)), sys_open)
