-- ===== src/Syscalls/Files.antt =====
-- The system calls on file descriptors: `sys_open`, `sys_read`, `sys_write`, `sys_close`. They work on
-- the `file_array` of the running process.
pub mod Slots
pub mod Sound
use Prim.Native.Nat.{bit_and}
use cl_os.Prelude.{
  ℕ, zero, suc, ◌+◌, ◌==◌, ◌!=◌, ltb, leb, ◌&&◌, ◌||◌, if◌then◌else◌, ℤ, pos, minus_one, negsuc,
  Mem, text, [], ◌∷◌, Option, none, some, Bool,
}
use cl_os.Strings.{strncmp}
use cl_os.Pcb.{
  FileArray, FileStruct, FileOperationsTable, fops_rtc, fops_dir, fops_file, fops_term, open_flag,
  close_flag, set_file,
}
use cl_os.Fs.Image.{type_dir, type_file, type_rtc, type_term}
use cl_os.Fs.Lookup.{Dentry, read_dentry_by_name, is_zero}

-- `while (file_array[i].flags != CLOSE)` of `sys_open`, with `k` descriptors behind `i`; `none` for
-- its `return -1`.
unfoldable pub free_fd : FileArray → ℕ → ℕ → Option ℕ
free_fd files i zero = if (files i).flags != close_flag then none else some i
free_fd files i (suc k) =
    let rest = free_fd files (i + 1) k in if (files i).flags != close_flag then rest else some i

-- `"terminal"`
abbrev pub terminal_name : Mem
terminal_name = text (b't' ∷ b'e' ∷ b'r' ∷ b'm' ∷ b'i' ∷ b'n' ∷ b'a' ∷ b'l' ∷ [])

-- The `switch` of `sys_open` on the file type; another type leaves the descriptor as it was.
unfoldable pub opened : ℕ → ℕ → FileStruct → FileStruct
opened file_type inode_num f =
    if file_type == type_dir
    then record {
      fops_table = fops_dir;
      inode = 0;
      file_position = 0;
      flags = open_flag + type_dir;
    }
    else if file_type == type_file
    then record {
      fops_table = fops_file;
      inode = inode_num;
      file_position = 0;
      flags = open_flag + type_file;
    }
    else if file_type == type_rtc
    then record {
      fops_table = fops_rtc;
      inode = 0;
      file_position = 0;
      flags = open_flag + type_rtc;
    }
    else if file_type == type_term
    then record {
      fops_table = fops_term;
      inode = 0;
      file_position = 0;
      flags = open_flag + type_term;
    }
    else f

-- The type that `sys_open` goes by: a name that starts with `terminal` is the terminal.
abbrev pub type_of : Mem → ℕ → ℕ
type_of filename kind = if is_zero (strncmp filename terminal_name 8) then type_term else kind

-- What `sys_open` does with the answer of the directory.
unfoldable pub open_entry : Mem → FileArray → ℕ → ℤ × Dentry → ℤ × FileArray
unfolding opened
open_entry filename files i (pos n, e) =
    (pos i, set_file files i (opened (type_of filename e.kind) e.inode (files i)))
open_entry filename files i (negsuc n, e) = (minus_one, files)

-- `junk` is the uninitialized `dentry_t` on the stack, `fuel` that of the directory search.
unfoldable pub sys_open : ℕ → Mem → Dentry → Mem → FileArray → Option (ℤ × FileArray)
sys_open fuel bblock junk filename files = elim (free_fd files 2 5) [
  | none ↦ some (minus_one, files)
  | some i ↦ elim (read_dentry_by_name bblock fuel filename junk) [
    | none ↦ none
    | some r ↦ some (open_entry filename files i r)
  ]
]

abbrev pub is_open : FileStruct → Bool
is_open f = bit_and f.flags open_flag != 0

-- `fops` stands for the four functions of a table, which the call goes through.
module _ {S : Type 0} (fops : FileOperationsTable → ℕ → Mem → ℕ → S → ℤ × S) where
  unfoldable pub sys_read : FileArray → ℕ → Mem → ℕ → S → ℤ × S
  sys_read files fd buf nbytes s =
      if fd == 0 || leb 2 fd && ltb fd 8
      then if is_open (files fd) then fops (files fd).fops_table fd buf nbytes s else (minus_one, s)
      else (minus_one, s)

  unfoldable pub sys_write : FileArray → ℕ → Mem → ℕ → S → ℤ × S
  sys_write files fd buf nbytes s =
      if leb 1 fd && ltb fd 8
      then if is_open (files fd) then fops (files fd).fops_table fd buf nbytes s else (minus_one, s)
      else (minus_one, s)

-- The four `close` functions return 0.
abbrev pub close_fops : FileOperationsTable → ℕ → ℤ
close_fops table fd = pos 0

unfoldable pub sys_close : FileArray → ℕ → ℤ × FileArray
sys_close files fd =
    if leb 2 fd && ltb fd 8
    then if is_open (files fd)
      then (
        close_fops (files fd).fops_table fd,
        set_file files fd (record (files fd) { flags = close_flag }),
      )
      else (minus_one, files)
    else (minus_one, files)
