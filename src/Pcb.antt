-- ===== src/Pcb.antt =====
-- filesTeamWorkedOn/pcb.h: the process control block, with its eight file descriptors.
use cl_os.Prelude.{ℕ, ◌==◌, if◌then◌else◌, ℤ, Mem}

abbrev pub max_open_files : ℕ
max_open_files = 8

-- `OPEN` and `CLOSE`
abbrev pub open_flag : ℕ
open_flag = 0x10

abbrev pub close_flag : ℕ
close_flag = 0

-- Which of the four tables of syscalls.c a descriptor points to. `no_table` stands for the pointer
-- of a descriptor that was never opened.
pub data FileOperationsTable : Type 0 where
  no_table fops_rtc fops_dir fops_file fops_term : FileOperationsTable

pub record FileStruct : Type 0 where
  pub fops_table : FileOperationsTable
  pub inode : ℕ
  pub file_position : ℕ
  pub flags : ℕ

abbrev pub FileArray : Type 0
FileArray = ℕ → FileStruct

-- The fields that a kernel function reads; the saved stack pointers are left to the machine.
pub record Pcb : Type 0 where
  pub file_array : FileArray
  pub cur_terminal : ℕ
  pub child_pid : ℤ
  pub pid : ℕ
  pub parent_pid : ℤ
  pub arguments : Mem

abbrev pub set_file : FileArray → ℕ → FileStruct → FileArray
set_file files fd f k = if k == fd then f else files k
