-- ===== src/Paging/Entries.antt =====
-- Which entries are there after `initilize_paging`.
use Prim.Native.Nat.{bit_or}
use cl_os.Prelude.{
  ℕ, zero, suc, ◌+◌, ◌*◌, ◌/◌, ◌%◌, ◌≤◌, ◌<◌, ◌≡◌, refl, ◌==◌, ltb, leb, ◌&&◌, if◌then◌else◌, arith,
}
use cl_os.Screen.{video, video_term}
use cl_os.Paging.{
  Tables, set_dir, clear_dir, clear_dirs, fill_table, set_dirs, set_entry, initilize_paging,
}

clear_dir_lem :
    (i : ℕ) (dir : ℕ → ℕ → ℕ) (j k p e : ℕ)
    → clear_dir i dir j k p e ≡ (if p == i && (leb j e && ltb e (j + k)) then 2 else dir p e)
unfolding clear_dir
clear_dir_lem i dir j zero p e = ground arith
clear_dir_lem i dir j (suc k) p e =
    ground (arith, clear_dir_lem i (set_dir dir i j 2) (j + 1) k p e)

clear_dirs_lem :
    (n : ℕ) (dir : ℕ → ℕ → ℕ) (i k p e : ℕ)
    → e < n
    → clear_dirs n dir i k p e ≡ (if leb i p && ltb p (i + k) then 2 else dir p e)
unfolding clear_dirs
clear_dirs_lem n dir i zero p e h = ground arith
clear_dirs_lem n dir i (suc k) p e h =
    ground
      (arith, clear_dirs_lem n (clear_dir i dir 0 n) (i + 1) k p e h, clear_dir_lem i dir 0 n p e)

set_dirs_lem :
    (j v : ℕ) (dir : ℕ → ℕ → ℕ) (i k p e : ℕ)
    → set_dirs j v dir i k p e ≡ (if e == j && (leb i p && ltb p (i + k)) then v else dir p e)
unfolding set_dirs
set_dirs_lem j v dir i zero p e = ground arith
set_dirs_lem j v dir i (suc k) p e =
    ground (arith, set_dirs_lem j v (set_dir dir i j v) (i + 1) k p e)

-- The directory with variables for the counts.
page_dir_lem :
    (n m a b : ℕ) (dir : ℕ → ℕ → ℕ) (p e : ℕ)
    → p < m
    → e < n
    → set_dirs 1 0x400183 (set_dirs 34 b (set_dirs 0 a (clear_dirs n dir 0 m) 0 m) 0 m) 0 m p e
      ≡ (if e == 0 then a else if e == 1 then 0x400183 else if e == 34 then b else 2)
page_dir_lem n m a b dir p e hp he = ground (
  arith,
  set_dirs_lem 1 0x400183 (set_dirs 34 b (set_dirs 0 a (clear_dirs n dir 0 m) 0 m) 0 m) 0 m p e,
  set_dirs_lem 34 b (set_dirs 0 a (clear_dirs n dir 0 m) 0 m) 0 m p e,
  set_dirs_lem 0 a (clear_dirs n dir 0 m) 0 m p e,
  clear_dirs_lem n dir 0 m p e he,
)

-- After `initilize_paging` the directory of each of the six processes has three entries that are present: the
-- first 4 MB go by `page_table_0`, the next 4 MB are the kernel's page, and the addresses of the hidden
-- screens go by `page_table_term`; every other entry is 2, not present. In those tables the pages of video
-- memory and of the screen of each terminal are present, for a user too, at 0xb8000 and at
-- 0x2400000 + 0x1000 * t.
pub initilize_paging_lem :
    (table_0 table_term : ℕ) (s : Tables)
    → let s' = initilize_paging table_0 table_term s in
      ((p e : ℕ)
        → p < 6
        → e < 1024
        → s'.page_dir p e ≡ (
            if e == 0
            then bit_or table_0 7
            else if e == 1
            then 0x400183
            else if e == video_term 1 / 0x400000
            then bit_or table_term 7
            else 2))
      × (s'.page_table_0 (video / 4096) ≡ video + 7)
      × ((t : ℕ)
          → 1 ≤ t
          → t ≤ 3
          → s'.page_table_term (video_term t / 4096 % 1024) ≡ 0x2400000 + 0x1000 * t + 7)
unfolding initilize_paging
initilize_paging_lem table_0 table_term s = (
  (λ p e hp he. page_dir_lem 1024 6 (bit_or table_0 7) (bit_or table_term 7) s.page_dir p e hp he),
  refl,
  (λ t lo hi. entries (fill_table s.page_table_term 0x2400000 0 1024) t lo hi),
)
  where
    page_of : (t : ℕ) → t ≤ 3 → video_term t / 4096 % 1024 ≡ t
    page_of t h = omega arith

    entries :
        (term : ℕ → ℕ) (t : ℕ)
        → 1 ≤ t
        → t ≤ 3
        → set_entry
            (set_entry (set_entry term 1 0x2401007) 2 0x2402007)
            3
            0x2403007
            (video_term t / 4096 % 1024)
          ≡ 0x2400000 + 0x1000 * t + 7
    entries term t lo hi = ground (arith, page_of t hi)
