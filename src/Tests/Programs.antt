-- ===== src/Tests/Programs.antt =====
-- `cat` on the file of `Disk`.
use cl_os.Prelude.{
  ℕ, ◌<◌, ◌≡◌, ◌≢◌, refl, ◌==◌, ◌!=◌, if◌then◌else◌, pos, minus_one, some, arith, List, [], ◌∷◌,
}
use cl_os.Prelude.Bits.{all_below, all_below_sound}
use cl_os.Pcb.{FileArray, fops_file, no_table}
use cl_os.Fs.Image.{inode_length, data_block, datablock_adrs}
use cl_os.Fs.Read.{file_byte}
use cl_os.Programs.{Calls, cat}
use cl_os.Programs.Output.{put_bytes}
use cl_os.Programs.Cat.{Io, IsReadable, read_file, write_terminal, cat_lem}
use cl_os.Tests.Disk.{disk, disk-IsAllocated, blank, shell_name}

abbrev files : FileArray
files k =
    if k == 2
    then record { fops_table = fops_file; inode = 0; file_position = 0; flags = 0x12 }
    else record { fops_table = no_table; inode = 0; file_position = 0; flags = 0 }

-- The terminal keeps what it gets, newest first.
abbrev note : ℕ → List ℕ → List ℕ
note c l = c ∷ l

abbrev calls : Calls (Io (List ℕ))
calls = record {
  getargs = λ buf nbytes s. (pos 0, shell_name, s);
  open_file = λ name s. (pos 2, s);
  read = read_file note disk;
  write = write_terminal note disk;
  close = λ fd s. (pos 0, s);
  execute = λ command s. (minus_one, s);
}

abbrev at_start : Io (List ℕ)
at_start = record { files = files; device = [] }

file-plain : (p : ℕ) → p < inode_length disk 0 → file_byte disk 0 p ≢ 0
unfolding all_below inode_length data_block datablock_adrs
file-plain p h = ground (arith, all_below_sound 6 (λ p. file_byte disk 0 p != 0) p refl h)

files-IsReadable : IsReadable disk (files 2) 6
unfolding inode_length
files-IsReadable = record {
  regular = refl;
  inode_there = omega arith;
  left = refl;
  allocated = disk-IsAllocated;
  plain = file-plain;
}

cat_lem_example :
    (files' : FileArray) × (cat calls 7 blank at_start
      ≡ some (0, record { files = files'; device = put_bytes note (file_byte disk 0) 0 6 [] }))
cat_lem_example =
    cat_lem note disk calls 7 2 6 blank shell_name at_start at_start at_start refl refl refl refl
      files-IsReadable (omega arith)
