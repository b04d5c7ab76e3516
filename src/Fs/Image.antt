-- ===== src/Fs/Image.antt =====
-- The file system image as fs.h lays it out in memory, from the boot block `bblock` on: a boot
-- block with 63 directory entries of 64 bytes, the inodes, and the data blocks, 4096 bytes each.
-- An address is a distance from `bblock`.
use cl_os.Prelude.{ℕ, ◌+◌, ◌*◌, Mem, load32, offset}

abbrev pub max_files : ℕ
max_files = 63

abbrev pub bytes_per_block : ℕ
bytes_per_block = 4096

-- `TYPE_DIR`, `TYPE_FILE`, `TYPE_RTC`, `TYPE_TERM`, `OPEN` and `CLOSE`
abbrev pub type_dir : ℕ
type_dir = 1

abbrev pub type_file : ℕ
type_file = 2

abbrev pub type_rtc : ℕ
type_rtc = 0

abbrev pub type_term : ℕ
type_term = 4

module _ (bblock : Mem) where
  abbrev pub inode_cnt : ℕ
  inode_cnt = load32 bblock 4

  -- `bblock->dentry[d].file_name`, `.file_type` and `.inode_num`
  abbrev pub file_name : ℕ → Mem
  file_name d = offset bblock (64 + 64 * d)

  abbrev pub file_type : ℕ → ℕ
  file_type d = load32 bblock (64 + 64 * d + 32)

  abbrev pub inode_num : ℕ → ℕ
  inode_num d = load32 bblock (64 + 64 * d + 36)

  -- `GET_INODE_ADRS(index)`, its `length` and its `data_block[k]`
  unfoldable pub inode_adrs : ℕ → ℕ
  inode_adrs index = 4096 * (1 + index)

  unfoldable pub inode_length : ℕ → ℕ
  unfolding inode_adrs
  inode_length index = load32 bblock (inode_adrs index)

  unfoldable pub data_block : ℕ → ℕ → ℕ
  unfolding inode_adrs
  data_block index k = load32 bblock (inode_adrs index + 4 + 4 * k)

  -- `GET_DATABLOCK_ADRS(index)`
  unfoldable pub datablock_adrs : ℕ → ℕ
  datablock_adrs index = bytes_per_block * (inode_cnt + index + 1)
