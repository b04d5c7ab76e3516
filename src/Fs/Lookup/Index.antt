-- ===== src/Fs/Lookup/Index.antt =====
-- The search of `read_dentry_by_index` through the 63 entries.
use cl_os.Prelude.{
  ℕ, leb, if◌then◌else◌, zero, suc, ◌+◌, ◌≤◌, ◌<◌, ◌≡◌, inl, inr, Mem, pos, minus_one, none, some,
  arith, eq_or_ne,
}
use cl_os.Strings.Copy.{EndsAt, strcpy_lem}
use cl_os.Fs.Image.{file_name, file_type, inode_num, type_file, max_files}
use cl_os.Fs.Lookup.{Dentry, find_index, read_dentry_by_index}

module _ (bblock : Mem) (index : ℕ) where
  -- The entry `d` is a regular file whose inode is `index`.
  abbrev pub IsFileOf : ℕ → Type 0
  IsFileOf d = (inode_num bblock d ≡ index) × (file_type bblock d ≡ type_file)

  find_index_found :
      (l d k : ℕ)
      → d ≤ l
      → l ≤ d + k
      → ((j : ℕ) → d ≤ j → j < l → ¬ IsFileOf j)
      → IsFileOf l
      → find_index bblock index d k ≡ some l
  unfolding find_index
  find_index_found l d zero p q h f = let e : d ≡ l = omega arith in rw e (ground (arith, f))
  find_index_found l d (suc k) p q h f = elim (eq_or_ne d l) [
    | inl e ↦ rw e (ground (arith, f))
    | inr ne ↦ ground (
      arith,
      h d (omega arith) (omega arith),
      find_index_found l (d + 1) k (omega arith) (omega arith) (λ j p' q'. h j (omega arith) q') f,
    )
  ]

  find_index_missing :
      (d k : ℕ) → ((j : ℕ) → d ≤ j → j ≤ d + k → ¬ IsFileOf j) → find_index bblock index d k ≡ none
  unfolding find_index
  find_index_missing d zero h = ground (arith, h d (omega arith) (omega arith))
  find_index_missing d (suc k) h = ground (
    arith,
    h d (omega arith) (omega arith),
    find_index_missing (d + 1) k (λ j p q. h j (omega arith) (omega arith)),
  )

  -- `read_dentry_by_index` returns 0 and the first of the 63 entries that is a regular file with
  -- that inode.
  pub read_dentry_by_index_found :
      (fuel l e : ℕ) (dentry : Dentry)
      → l < max_files
      → ((j : ℕ) → j < l → ¬ IsFileOf j)
      → IsFileOf l
      → EndsAt (file_name bblock l) 0 e
      → e < fuel
      → (name : Mem) × (read_dentry_by_index bblock fuel index dentry
          ≡ some (pos 0, record { name = name; kind = type_file; inode = index }))
        × ((i : ℕ) → name i ≡ (if leb i e then file_name bblock l i else dentry.name i))
  unfolding read_dentry_by_index
  read_dentry_by_index_found fuel l e dentry lt h f ends he =
      let (r, eq, up) = strcpy_lem fuel dentry.name (file_name bblock l) e ends he in
      (
        r,
        ground
            (arith, eq, f, find_index_found l 0 62 (omega arith) (omega arith) (λ j _ q. h j q) f),
        up,
      )

  -- If none of the 63 entries is a regular file with that inode, `read_dentry_by_index` returns -1 and leaves `dentry` as it was, whatever follows
  -- the directory in memory.
  pub read_dentry_by_index_missing :
      (fuel : ℕ) (dentry : Dentry)
      → ((j : ℕ) → j < max_files → ¬ IsFileOf j)
      → read_dentry_by_index bblock fuel index dentry ≡ some (minus_one, dentry)
  unfolding read_dentry_by_index
  read_dentry_by_index_missing fuel dentry h =
      ground (arith, find_index_missing 0 62 (λ j _ q. h j (omega arith)))
