-- ===== src/Tests/Fs.antt =====
-- The file system's theorems on the image of `Disk`.
use cl_os.Prelude.{◌≡◌, pos, arith}
use cl_os.Fs.Image.{inode_length}
use cl_os.Fs.{read_data}
use cl_os.Fs.Read.{Holds, read_data_lem}
use cl_os.Tests.Disk.{disk, disk-IsAllocated, blank}

read_data_lem_example :
    ((read_data disk 0 2 blank 9).0 ≡ pos 4) × Holds disk 0 blank 2 4 (read_data disk 0 2 blank 9).1
unfolding inode_length
read_data_lem_example =
    read_data_lem disk 0 2 blank 9 (omega arith) (omega arith) (omega arith) disk-IsAllocated
