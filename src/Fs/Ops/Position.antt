-- ===== src/Fs/Ops/Position.antt =====
-- How a read moves the position of its descriptor.
use cl_os.Prelude.{
  ℕ, ◌+◌, ◌<◌, ◌≡◌, ◌≢◌, ◌↔◌, inl, inr, Mem, IsBytes, pos, arith, ltb, ◌==◌, if◌then◌else◌, true,
  sym, refl, eq_or_ne,
}
use cl_os.Strings.{strncmp}
use cl_os.Strings.Compare.{strncmp_zero_iff}
use cl_os.Strings.Copy.{char_of, strncpy_lem}
use cl_os.Pcb.{FileArray, FileStruct, open_flag}
use cl_os.Fs.Image.{inode_cnt, inode_length, file_name, type_file, type_dir}
use cl_os.Fs.{read_data}
use cl_os.Fs.Read.{IsAllocated, Holds, read_count, read_data_lem, read_data_end}
use cl_os.Fs.Lookup.{is_zero, empty_name}
use cl_os.Fs.Lookup.Find.{is_zero_iff}
use cl_os.Fs.Ops.{reg_file_read, dir_read}

module _ (bblock : Mem) (files : FileArray) (fd : ℕ) (buf : Mem) (nbytes : ℕ) where
  abbrev file : FileStruct
  file = files fd

  -- A read of an open regular file before its end moves the position by what it returns, which is
  -- at least one byte, leaves the other descriptors alone, and gives the bytes from the old
  -- position on.
  pub reg_file_read_lem :
      file.flags ≡ type_file + open_flag
      → file.inode < inode_cnt bblock
      → file.file_position < inode_length bblock file.inode
      → 0 < nbytes
      → IsAllocated bblock file.inode
      → let (r, b, files') = reg_file_read bblock files fd buf nbytes in
        let c = read_count (inode_length bblock file.inode) file.file_position nbytes in
        (r ≡ pos c)
        × (0 < c)
        × Holds bblock file.inode buf file.file_position c b
        × ((k : ℕ)
            → files' k ≡ (
                if k == fd
                then record file { file_position = file.file_position + c }
                else files k))
  unfolding reg_file_read
  reg_file_read_lem hf hi ho hl alloc = (
    ground (arith, data_.0),
    omega arith,
    (λ m. ground (arith, data_.1 m)),
    (λ k. ground (arith, data_.0)),
  )
    where
      c : ℕ
      c = read_count (inode_length bblock file.inode) file.file_position nbytes

      data_ :
          ((read_data bblock file.inode file.file_position buf nbytes).0 ≡ pos c)
          × Holds bblock file.inode buf file.file_position c
              (read_data bblock file.inode file.file_position buf nbytes).1
      data_ = read_data_lem bblock file.inode file.file_position buf nbytes hi ho hl alloc

  -- At the end of the file a read returns 0 and changes nothing.
  pub reg_file_read_end :
      file.flags ≡ type_file + open_flag
      → file.inode < inode_cnt bblock
      → file.file_position ≡ inode_length bblock file.inode
      → let (r, b, files') = reg_file_read bblock files fd buf nbytes in
        (r ≡ pos 0) × (b ≡ buf) × ((k : ℕ) → files' k ≡ files k)
  unfolding reg_file_read
  reg_file_read_end hf hi ho =
      let e =
        read_data_end bblock file.inode file.file_position buf nbytes hi (omega arith) (inl ho) in
      (ground (arith, e), ground (arith, e), (λ k. ground (arith, e)))

  module _ (bytes : IsBytes bblock) (some_bytes : 0 < nbytes) where
    abbrev name : Mem
    name = file_name bblock file.file_position

    empty_iff : (is_zero (strncmp empty_name name nbytes) ≡ true) ↔ (name 0 ≡ 0)
    empty_iff =
        let s = strncmp_zero_iff empty_name name nbytes (λ i. omega arith) (λ i. bytes _) in
        (
          (λ h. sym (
              s.0 ((is_zero_iff _).0 h) 0 (omega arith) (omega arith)
                (λ j p q. absurd (omega arith)))),
          (λ z. (is_zero_iff _).1 (
              s.1 (λ i p q nz. elim (eq_or_ne i 0) [
                | inl e ↦ ground arith
                | inr ne ↦ absurd (nz 0 (omega arith) (omega arith) refl)
              ]))),
        )

    -- A read of the open directory at an entry that has a name returns `nbytes`, gives the name
    -- padded with NULs, and moves to the next entry; the other descriptors are left alone.
    pub dir_read_lem :
        file.flags ≡ type_dir + open_flag
        → name 0 ≢ 0
        → let (r, b, files') = dir_read bblock files fd buf nbytes in
          (r ≡ pos nbytes)
          × ((i : ℕ) → b i ≡ (if ltb i nbytes then char_of name i else buf i))
          × ((k : ℕ)
              → files' k ≡ (
                  if k == fd
                  then record file { file_position = file.file_position + 1 }
                  else files k))
    unfolding dir_read
    dir_read_lem hf nz = (
      ground (arith, empty_iff.0),
      (λ i. ground (arith, empty_iff.0, strncpy_lem buf name nbytes i)),
      (λ k. ground (arith, empty_iff.0)),
    )

    -- At the first entry with no name it returns 0 and changes nothing.
    pub dir_read_end :
        file.flags ≡ type_dir + open_flag
        → name 0 ≡ 0
        → dir_read bblock files fd buf nbytes ≡ (pos 0, buf, files)
    unfolding dir_read
    dir_read_end hf z = ground (arith, empty_iff.1 z)
