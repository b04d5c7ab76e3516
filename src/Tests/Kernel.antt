-- ===== src/Tests/Kernel.antt =====
-- A kernel that runs one shell, and the theorems on processes for it.
use cl_os.Prelude.{
  ℕ, ◌+◌, ◌-◌, ◌*◌, ◌%◌, ◌<◌, ◌≤◌, ◌≡◌, ◌≢◌, ◌⊎◌, refl, ℤ, pos, minus_one, Mem, some, arith, text,
  [],
}
use cl_os.Prelude.Bits.{bit}
use cl_os.Strings.{strncmp, strncmp_from}
use cl_os.Pcb.{Pcb, FileStruct, no_table, close_flag}
use cl_os.Fs.Lookup.{read_dentry_by_name, same_name}
use cl_os.Execute.{parser, copy_cmd, copy_args, check_exe}
use cl_os.Process.{
  Kernel, Stack, Outcome, resumed, sys_execute, launch, halt_result, sys_halt, kernel_stack_base,
  task_stack_size,
}
use cl_os.Process.Links.{sys_halt-launch}
use cl_os.Process.Refused.{sys_execute-returned}
use cl_os.Schedule.{after, schedule}
use cl_os.Schedule.RoundRobin.{IsFirst, steps_to, schedule_lem}
use cl_os.Tests.Disk.{disk, blank}
use cl_os.Tests.Files.{junk}
use cl_os.Tests.Devices.{pics, Controllers, all_masked}

abbrev closed_file : FileStruct
closed_file = record { fops_table = no_table; inode = 0; file_position = 0; flags = 0 }

abbrev shell_pcb : Pcb
shell_pcb = record {
  file_array = λ fd. closed_file;
  cur_terminal = 1;
  child_pid = minus_one;
  pid = 0;
  parent_pid = minus_one;
  arguments = blank;
}

abbrev pub kernel : Kernel
kernel = record {
  pid_bitmap = 1;
  pcbs = λ p. shell_pcb;
  cur = 0;
  which_term = 0;
  attempt_exit = 0;
  program_exception = 0;
  first = 1;
  current_terminal = 1;
  num_shells = 1;
  page_dir_32 = λ p. 0;
  cr3 = 0;
  program = λ p. blank;
  tss_eip = 0;
  tss_esp0 = 0x800000;
}

abbrev pub stack : Stack
stack = record {
  junk = junk;
  elf = blank;
  cmd = blank;
  args = blank;
  prog_img = blank;
  exception_register = 0;
}

-- An empty command line.
refused : sys_execute 3 disk stack (text []) kernel ≡ some (Outcome.returned minus_one kernel)
unfolding sys_execute parser copy_cmd copy_args check_exe read_dentry_by_name same_name strncmp
    strncmp_from cl_os.Prelude.diff8
refused = refl

sys_execute-returned_example : (minus_one ≡ minus_one) × (kernel ≡ kernel)
sys_execute-returned_example =
    sys_execute-returned 3 disk stack (text []) kernel kernel minus_one refused

-- A program that is ended by an exception.
abbrev exception_stack : Stack
exception_stack = record stack { exception_register = 1 }

sys_halt-launch_example :
    (k' : Kernel) × (sys_halt 9 disk exception_stack 256 (launch 1 blank blank kernel)
      ≡ some (resumed 256 k'))
    × (k'.program_exception ≡ 1)
    × (k'.cur ≡ 0)
    × ((k'.pcbs 0).child_pid ≡ minus_one)
    × (k'.cr3 ≡ 0)
    × (k'.tss_esp0 ≡ kernel_stack_base - 0 * task_stack_size)
    × ((j : ℕ) → j < 8 → bit j k'.pid_bitmap ≡ bit j 1)
    × ((j : ℕ) → j ≢ 0 → j ≢ 1 → k'.pcbs j ≡ shell_pcb)
    × ((fd : ℕ) → fd < 8 → ((k'.pcbs 1).file_array fd).flags ≡ close_flag)
unfolding halt_result
sys_halt-launch_example =
    sys_halt-launch 9 disk exception_stack 256 1 blank blank kernel (omega arith) (omega arith) refl
      (omega arith) refl refl refl

byte : kernel.pid_bitmap < 256
byte = omega arith

schedule_lem_example :
    (q : ℕ) × (k' : Kernel) × (s' : Controllers) × (schedule pics 6 (3, kernel, all_masked)
      ≡ some (after q, k', s'))
    × IsFirst 1 kernel.pcbs byte 3 q
    × (k'.cur ≡ q)
    × (k'.pcbs ≡ kernel.pcbs)
    × (k'.pid_bitmap ≡ 1)
    × (after q < 6)
    × ((q ≡ 0) ⊎ (steps_to (after q) 0 < steps_to 3 0))
schedule_lem_example =
    schedule_lem pics 6 3 0 kernel all_masked (omega arith) (omega arith) byte
      (omega arith, refl, refl)
