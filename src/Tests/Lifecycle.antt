-- ===== src/Tests/Lifecycle.antt =====
-- The kernel from its first shell on, on the image of `Disk`.
use cl_os.Prelude.{ℕ, ◌≤◌, ◌<◌, ◌≡◌, refl, minus_one, Mem, Option, none, some, arith, text, [], ◌∷◌}
use cl_os.Strings.{strncmp, strncmp_from, strcpy, strcpy_from}
use cl_os.Fs.{read_data, copy_block, copy_blocks}
use cl_os.Fs.Image.{inode_length, data_block, datablock_adrs}
use cl_os.Fs.Lookup.{read_dentry_by_name, same_name, find_name, copy_dentry}
use cl_os.Execute.{parser, copy_cmd, copy_args, check_exe}
use cl_os.Process.{
  Kernel, Outcome, returned, entered, resumed, find_pid, setup_paging, start, enter, sys_execute,
  shell_command,
}
use cl_os.Process.Tree.{IsLive}
use cl_os.Schedule.{schedule}
use cl_os.Lifecycle.{Reach, boot, next, execute}
use cl_os.Lifecycle.Safety.{IsSafe, Reach-IsSafe, Reach-schedule}
use cl_os.Tests.Devices.{pics, Controllers, all_masked}
use cl_os.Tests.Disk.{disk}
use cl_os.Tests.Kernel.{kernel, stack}

abbrev idle : Kernel
idle = record kernel { pid_bitmap = 0; which_term = 1; first = 0; num_shells = 0 }

abbrev entered_kernel : Option Outcome → Kernel
entered_kernel none = idle
entered_kernel (some (returned n k)) = k
entered_kernel (some (entered k)) = k
entered_kernel (some (resumed n k)) = k

abbrev execute_shell : Kernel → Option Outcome
execute_shell k = sys_execute 9 disk stack shell_command k

abbrev first_shell : Kernel
first_shell = entered_kernel (execute_shell idle)

abbrev second_shell : Kernel
second_shell = entered_kernel (execute_shell first_shell)

first_starts : execute_shell idle ≡ some (entered first_shell)
unfolding sys_execute parser copy_cmd copy_args check_exe read_dentry_by_name find_name copy_dentry
    strcpy strcpy_from same_name strncmp strncmp_from cl_os.Prelude.diff8 find_pid setup_paging
    start enter read_data copy_block copy_blocks inode_length data_block datablock_adrs
first_starts = refl

second_starts : execute_shell first_shell ≡ some (entered second_shell)
unfolding sys_execute parser copy_cmd copy_args check_exe read_dentry_by_name find_name copy_dentry
    strcpy strcpy_from same_name strncmp strncmp_from cl_os.Prelude.diff8 find_pid setup_paging
    start enter read_data copy_block copy_blocks inode_length data_block datablock_adrs
second_starts = refl

second-Reach : Reach pics disk (0, second_shell)
second-Reach =
    next (boot idle 9 stack shell_command refl refl first_starts)
      (execute 9 stack shell_command second_starts)

Reach-IsSafe_example : IsSafe (0, second_shell)
Reach-IsSafe_example = Reach-IsSafe second-Reach

Reach-schedule_example :
    (c' : ℕ) × (k' : Kernel) × (s' : Controllers) × (schedule pics 6 (0, second_shell, all_masked)
      ≡ some (c', k', s'))
    × IsLive k' k'.cur
    × ((k'.pcbs k'.cur).child_pid ≡ minus_one)
Reach-schedule_example = Reach-schedule 6 all_masked second-Reach (omega arith)
