-- ===== src/Fs.antt =====
-- filesTeamWorkedOn/fs.c, the read-only file system. `bblock` is the memory from the boot block on.
pub mod Image
pub mod Block
pub mod Read
pub mod Lookup
pub mod Ops
use cl_os.Prelude.{
  ℕ, zero, suc, ◌+◌, ◌-◌, ◌/◌, ◌%◌, ◌==◌, ◌||◌, ltb, if◌then◌else◌, Mem, store, ℤ, pos, minus_one,
  text, [],
}
use Image.{bytes_per_block, inode_cnt, inode_length, data_block, datablock_adrs}

-- How a loop of `read_data` ends: by a `return` of `bytes_copied`, or by its own test.
pub data Flow : Type 0 where
  returned : ℕ → Mem → Flow
  running : ℕ → Mem → Flow

module _ (bblock : Mem) where
  -- The inner loop of `read_data` over the block at `ptr`, from `j` on with `k` rounds left.
  unfoldable pub copy_block : ℕ → ℕ → ℕ → ℕ → ℕ → ℕ → Mem → Flow
  copy_block ptr file_length length j zero bytes_copied buf = running bytes_copied buf
  copy_block ptr file_length length j (suc k) bytes_copied buf =
      let rest =
        copy_block ptr file_length length (j + 1) k (bytes_copied + 1)
          (store buf bytes_copied (bblock (ptr + j))) in
      if bytes_copied == length || bytes_copied == file_length
      then returned bytes_copied buf
      else rest

  -- The outer loop, from `i` on with `k` rounds left.
  unfoldable pub copy_blocks : ℕ → ℕ → ℕ → ℕ → ℕ → ℕ → Mem → Flow
  unfolding copy_block
  copy_blocks inode off length i zero bytes_copied buf = running bytes_copied buf
  copy_blocks inode off length i (suc k) bytes_copied buf =
      let first = if i == 0 then off % bytes_per_block else 0 in
      let cur_block_num = data_block bblock inode (off / bytes_per_block + i) in
      let block =
        copy_block (datablock_adrs bblock cur_block_num) (inode_length bblock inode) length first
          (bytes_per_block - first) bytes_copied buf in
      if cur_block_num == 0 then returned bytes_copied buf else elim block [
        | returned n b ↦ returned n b
        | running n b ↦ copy_blocks inode off length (i + 1) k n b
      ]

-- Either way `read_data` returns `bytes_copied`.
abbrev pub result : Flow → ℤ × Mem
result (returned n b) = (pos n, b)
result (running n b) = (pos n, b)

module _ (bblock : Mem) where
  unfoldable pub read_data : ℕ → ℕ → Mem → ℕ → ℤ × Mem
  unfolding copy_blocks
  read_data inode off buf length =
      let file_length = inode_length bblock inode in
      let clamped = if ltb (file_length - off) length then file_length - off else length in
      if ltb inode (inode_cnt bblock)
      then if ltb file_length off
        then (minus_one, buf)
        else if off == file_length
        then (pos 0, buf)
        else if length == 0
        then (pos 0, buf)
        else result (copy_blocks bblock inode off clamped 0 (clamped / bytes_per_block + 1) 0 buf)
      else (minus_one, buf)
