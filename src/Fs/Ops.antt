-- ===== src/Fs/Ops.antt =====
-- The open, read, write and close operations of regular files and of the directory, in fs.c.
pub mod Position
use cl_os.Prelude.{ℕ, ◌+◌, ◌==◌, if◌then◌else◌, ℤ, pos, negsuc, minus_one, Mem}
use cl_os.Strings.{strncmp, strncpy}
use cl_os.Pcb.{FileArray, FileStruct, open_flag, set_file}
use cl_os.Fs.Image.{file_name, type_file, type_dir}
use cl_os.Fs.{read_data}
use cl_os.Fs.Lookup.{is_zero, empty_name}

pub reg_file_open : Mem → ℤ
reg_file_open filename = pos 0

-- `if (ret_val > 0) file_position += ret_val`
unfoldable pub advance : FileStruct → ℤ → FileStruct
advance f (pos n) = record f { file_position = f.file_position + n }
advance f (negsuc n) = f

unfoldable pub reg_file_read : Mem → FileArray → ℕ → Mem → ℕ → ℤ × Mem × FileArray
unfolding advance
reg_file_read bblock files fd buf nbytes =
    let f = files fd in
    let (ret_val, buf') = read_data bblock f.inode f.file_position buf nbytes in
    if f.flags == type_file + open_flag
    then (ret_val, buf', set_file files fd (advance f ret_val))
    else (minus_one, buf, files)

pub reg_file_write : ℕ → Mem → ℕ → ℤ
reg_file_write fd buf nbytes = minus_one

pub reg_file_close : ℕ → ℤ
reg_file_close fd = pos 0

pub dir_open : Mem → ℤ
dir_open filename = pos 0

unfoldable pub dir_read : Mem → FileArray → ℕ → Mem → ℕ → ℤ × Mem × FileArray
dir_read bblock files fd buf nbytes =
    let f = files fd in
    let name = file_name bblock f.file_position in
    if f.flags == type_dir + open_flag
    then if is_zero (strncmp empty_name name nbytes) then (pos 0, buf, files) else (
      pos nbytes,
      strncpy buf name nbytes,
      set_file files fd (record f { file_position = f.file_position + 1 }),
    )
    else (minus_one, buf, files)

pub dir_write : ℕ → Mem → ℕ → ℤ
dir_write fd buf nbytes = minus_one

pub dir_close : ℕ → ℤ
dir_close fd = pos 0
