-- ===== src/Process.antt =====
-- Processes: `sys_execute` and `sys_halt` of filesIWorkedOn/syscalls.c, with the page directory entry
-- of the program page that `setup_paging` of kernel.c writes. A PCB is named by its slot, the number
-- `PID` of `PCB_ADDR(PID)`.
pub mod Links
pub mod Tree
pub mod Refused
pub mod Bitmap
use Prim.Native.Nat.{bit_and, bit_or}
use cl_os.Prelude.{
  ℕ, zero, suc, ◌+◌, ◌-◌, ◌*◌, ◌%◌, ◌^◌, ◌==◌, ◌!=◌, ltb, if◌then◌else◌, ℤ, pos, negsuc, minus_one,
  Mem, load32, Option, none, some, Bool, true, text, [], ◌∷◌,
}
use cl_os.Pcb.{Pcb, FileArray, FileStruct, fops_term, open_flag, close_flag, set_file}
use cl_os.Fs.Image.{type_term}
use cl_os.Fs.{read_data}
use cl_os.Fs.Lookup.{Dentry, read_dentry_by_name}
use cl_os.Execute.{parser, check_exe}

abbrev pub num_process : ℕ
num_process = 6

abbrev pub kernel_stack_base : ℕ
kernel_stack_base = 0x800000

abbrev pub task_stack_size : ℕ
task_stack_size = 8192

abbrev pub img_offset : ℕ
img_offset = 0x48000

-- `page_dir[pid][32]` for the program of `pid`
abbrev pub program_entry : ℕ → ℕ
program_entry pid = 0x800187 + pid * 0x400000

-- The variables of syscalls.c and lib.c that these calls use, the PCBs, and what they set in the
-- machine.
pub record Kernel : Type 0 where
  pub pid_bitmap : ℕ
  pub pcbs : ℕ → Pcb
  -- the slot that `pcb` points to
  pub cur : ℕ
  pub which_term : ℕ
  pub attempt_exit : ℕ
  pub program_exception : ℕ
  pub first : ℕ
  pub current_terminal : ℕ
  pub num_shells : ℕ
  -- `page_dir[pid][32]` by `pid`, and the `pid` whose directory is in CR3
  pub page_dir_32 : ℕ → ℕ
  pub cr3 : ℕ
  -- the page at 128 MB of each process
  pub program : ℕ → Mem
  pub tss_eip : ℕ
  pub tss_esp0 : ℕ

abbrev pub set_pcb : (ℕ → Pcb) → ℕ → Pcb → ℕ → Pcb
set_pcb pcbs p b k = if k == p then b else pcbs k

-- The search for a clear bit of `pid_bitmap` at `free_pid`, with `k` pids behind it.
unfoldable pub find_pid : ℕ → ℕ → ℕ → Option ℕ
find_pid bitmap free_pid zero = if bit_and bitmap (2 ^ free_pid) == 0 then some free_pid else none
find_pid bitmap free_pid (suc k) =
    let rest = find_pid bitmap (free_pid + 1) k in
    if bit_and bitmap (2 ^ free_pid) == 0 then some free_pid else rest

unfoldable pub setup_paging : ℕ → Kernel → Kernel
setup_paging pid k = record k {
  page_dir_32 = λ p. if p == pid then program_entry pid else k.page_dir_32 p;
  cr3 = pid;
}

-- `memcpy` of the image to `IMG_OFFSET` in the page that CR3 maps.
unfoldable pub load_image : Mem → ℕ → Kernel → Kernel
load_image prog_img num_byte k = record k {
  program = λ p.
      if p == k.cr3
      then (λ a.
          if ltb a img_offset
          then k.program p a
          else if ltb a (img_offset + num_byte)
          then prog_img (a - img_offset)
          else k.program p a)
      else k.program p;
}

-- `pcb = PCB_ADDR(free_pid)`, its `pid` and its `child_pid`.
unfoldable pub claim_pcb : ℕ → Kernel → Kernel
claim_pcb pid k = record k {
  pcbs = set_pcb k.pcbs pid (record (k.pcbs pid) { pid = pid; child_pid = minus_one });
  cur = pid;
}

-- The `switch(whichTerm)` and the reset of `whichTerm`; `old` is the slot of `old_pcb`.
unfoldable pub place : ℕ → ℕ → Kernel → Kernel
place old pid k =
    let p = k.pcbs pid in
    let p' =
      if k.which_term == 1
      then record p { parent_pid = minus_one; cur_terminal = 1 }
      else if k.which_term == 2
      then record p { parent_pid = minus_one; cur_terminal = 2 }
      else if k.which_term == 4
      then record p { parent_pid = minus_one; cur_terminal = 3 }
      else record p { parent_pid = pos (k.pcbs old).pid } in
    record k { pcbs = set_pcb k.pcbs pid p'; which_term = 0 }

-- `if (attemptExit)`
unfoldable pub replace_shell : ℕ → ℕ → Kernel → Kernel
replace_shell old pid k =
    let p = record (k.pcbs pid) {
      parent_pid = minus_one;
      cur_terminal = (k.pcbs old).cur_terminal;
    } in
    if k.attempt_exit != 0 then record k { attempt_exit = 0; pcbs = set_pcb k.pcbs pid p } else k

abbrev pub has_parent : ℤ → Bool
has_parent (pos n) = true
has_parent (negsuc n) = n != 0

-- `if(pcb->parent_pid!=-1)`
unfoldable pub adopt : ℕ → ℕ → Kernel → Kernel
adopt old pid k =
    let pcbs' = set_pcb k.pcbs old (record (k.pcbs old) { child_pid = pos (k.pcbs pid).pid }) in
    let pcbs'' =
      set_pcb pcbs' pid (record (pcbs' pid) { cur_terminal = (pcbs' old).cur_terminal }) in
    if has_parent (k.pcbs pid).parent_pid then record k { pcbs = pcbs'' } else k

-- Descriptors 0 and 1 get the terminal; their inode and position stay.
abbrev pub std_file : FileStruct → FileStruct
std_file f = record f { fops_table = fops_term; flags = open_flag + type_term }

-- From the descriptors to `screenInit`.
unfoldable pub ready : ℕ → Mem → Mem → Kernel → Kernel
ready pid prog_img args k =
    let p = k.pcbs pid in
    let files =
      set_file (set_file p.file_array 0 (std_file (p.file_array 0))) 1
        (std_file (p.file_array 1)) in
    record k {
      pcbs = set_pcb k.pcbs pid (record p { file_array = files; arguments = args });
      pid_bitmap = bit_or k.pid_bitmap (2 ^ pid);
      tss_eip = load32 prog_img 24;
      tss_esp0 = kernel_stack_base - p.pid * task_stack_size;
      current_terminal = if k.first == 0 then 1 else k.current_terminal;
      num_shells = if k.first == 0 then bit_or k.num_shells 1 else k.num_shells;
      first = if k.first == 0 then 1 else k.first;
    }

-- All of `sys_execute` behind the copy of the image.
unfoldable pub launch : ℕ → Mem → Mem → Kernel → Kernel
unfolding claim_pcb place replace_shell adopt ready
launch pid prog_img args k =
    ready pid prog_img args
      (adopt k.cur pid (replace_shell k.cur pid (place k.cur pid (claim_pcb pid k))))

-- A call returns a value, enters a program by `iret`, or resumes the `sys_execute` of the parent with
-- a status.
pub data Outcome : Type 0 where
  returned : ℤ → Kernel → Outcome
  entered : Kernel → Outcome
  resumed : ℕ → Kernel → Outcome

-- The uninitialized variables on the kernel stack, and the register that `halt_ret_label` compares: the compiler has put
-- `program_exception` in it before the `iret`, and what it holds behind the jump from `sys_halt` the sources do not fix.
pub record Stack : Type 0 where
  pub junk : Dentry
  pub elf : Mem
  pub cmd : Mem
  pub args : Mem
  pub prog_img : Mem
  pub exception_register : ℕ

-- Behind `read_data`.
unfoldable pub enter : ℕ → Mem → Kernel → ℤ × Mem → Outcome
unfolding load_image launch
enter pid args k (negsuc n, prog_img) = returned minus_one k
enter pid args k (pos n, prog_img) = entered (launch pid prog_img args (load_image prog_img n k))

-- Behind the search for a pid.
unfoldable pub start : ℕ → Mem → Stack → Mem → Mem → ℕ → Kernel → Option Outcome
unfolding enter setup_paging
start fuel bblock st cmd args pid k0 =
    let k = setup_paging pid k0 in
    elim (read_dentry_by_name bblock fuel cmd st.junk) [
      | none ↦ none
      | some (negsuc n, e) ↦ some (returned minus_one k)
      | some (pos n, e) ↦ some (enter pid args k (read_data bblock e.inode 0 st.prog_img 258048))
    ]

unfoldable pub sys_execute : ℕ → Mem → Stack → Mem → Kernel → Option Outcome
sys_execute fuel bblock st command k =
    elim (parser fuel command (λ i. if ltb i 1024 then 0 else st.cmd i)
      (λ i. if ltb i 32 then 0 else st.args i)) [
        | none ↦ none
        | some (cmd, args) ↦ elim (check_exe fuel bblock st.junk st.elf cmd) [
          | none ↦ none
          | some (negsuc n) ↦ some (returned minus_one k)
          | some (pos n) ↦ elim (find_pid k.pid_bitmap 0 5) [
            | none ↦ some (returned minus_one k)
            | some pid ↦ start fuel bblock st cmd args pid k
          ]
        ]
      ]

-- The part of `sys_halt` up to `attemptExit`: the exception flag, the descriptors, the pid.
unfoldable pub release : ℕ → Kernel → Kernel
release ret_val k =
    let p = k.pcbs k.cur in
    let closed = λ (fd : ℕ).
      if ltb fd 8 then record (p.file_array fd) { flags = close_flag } else p.file_array fd in
    record k {
      program_exception = if ret_val == 256 then 1 else 0;
      pcbs = set_pcb k.pcbs k.cur (record p { file_array = closed });
      pid_bitmap = (k.pid_bitmap + 256 - 2 ^ p.pid) % 256;
    }

-- The part behind it, to the parent `q`.
unfoldable pub return_to : ℕ → Kernel → Kernel
return_to q k = record k {
  cur = q;
  pcbs = set_pcb k.pcbs q (record (k.pcbs q) { child_pid = minus_one });
  cr3 = (k.pcbs q).pid;
  tss_esp0 = kernel_stack_base - (k.pcbs q).pid * task_stack_size;
}

abbrev pub shell_command : Mem
shell_command = text (b's' ∷ b'h' ∷ b'e' ∷ b'l' ∷ b'l' ∷ [])

-- What `sys_execute` returns behind `halt_ret_label`: EAX is the low byte of EBX, unless the compared register is 1.
unfoldable pub halt_result : ℕ → ℕ → ℕ
halt_result flag ret_val = if flag == 1 then 256 else ret_val % 256

-- `ret_val` is the register EBX.
unfoldable pub sys_halt : ℕ → Mem → Stack → ℕ → Kernel → Option Outcome
unfolding halt_result
sys_halt fuel bblock st ret_val k0 =
    let k = release ret_val k0 in
    elim (k.pcbs k.cur).parent_pid [
      | pos q ↦ some (resumed (halt_result st.exception_register ret_val) (return_to q k))
      | negsuc n ↦ sys_execute fuel bblock st shell_command (record k { attempt_exit = 1 })
    ]
