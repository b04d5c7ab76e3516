-- ===== src/Tests/Calls.antt =====
-- Descriptors and the calls on them, on the image of `Disk`.
use cl_os.Prelude.{
  ℕ, ◌<◌, ◌≤◌, ◌≡◌, ◌≢◌, inl, inr, refl, ◌==◌, if◌then◌else◌, pos, minus_one, some, arith,
}
use cl_os.Pcb.{FileArray, no_table, fops_file, fops_dir}
use cl_os.Fs.Lookup.{Dentry}
use cl_os.Syscalls.Files.{sys_open, sys_close, free_fd}
use cl_os.Syscalls.Files.Sound.{sys_close-sys_open}
use cl_os.Tests.Disk.{disk, shell_name}
use cl_os.Tests.Files.{junk, found_shell}

-- Descriptor 2 at byte 2 of the file, and descriptor 3 at entry 1 of the directory.
abbrev files : FileArray
files k =
    if k == 2
    then record { fops_table = fops_file; inode = 0; file_position = 2; flags = 0x12 }
    else if k == 3
    then record { fops_table = fops_dir; inode = 0; file_position = 1; flags = 0x11 }
    else record { fops_table = no_table; inode = 0; file_position = 0; flags = 0 }

free_fd_4 : (j : ℕ) → 2 ≤ j → j < 4 → (files j).flags ≢ 0
free_fd_4 j p q = ground arith

abbrev shell_entry : Dentry
shell_entry = record { name = found_shell.0; kind = 2; inode = 0 }

abbrev full_files : FileArray
full_files k = files 2

sys_close-sys_open_example :
    (opened_files : FileArray) × (sys_open 9 disk junk shell_name files
      ≡ some (pos 4, opened_files))
    × ((sys_close opened_files 4).0 ≡ pos 0)
    × ((sys_close (sys_close opened_files 4).1 4).0 ≡ minus_one)
    × ((free_fd (sys_close opened_files 4).1 2 5) ≡ some 4)
sys_close-sys_open_example =
    sys_close-sys_open 9 disk junk shell_entry shell_name files 4 (omega arith) (omega arith)
      free_fd_4 refl found_shell.1 (inr (inl refl))
