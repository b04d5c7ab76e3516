-- ===== src/Schedule.antt =====
-- filesIWorkedOn/schedule.c: the scheduler, which the timer interrupt runs.
pub mod RoundRobin
use Prim.Native.Nat.{bit_and}
use cl_os.Prelude.{
  ℕ, zero, suc, ◌+◌, ◌-◌, ◌*◌, ◌^◌, ◌==◌, ◌||◌, if◌then◌else◌, ℤ, pos, negsuc, ◌!=◌, Option, none,
  some, Bool, true,
}
use cl_os.Machine.{Machine}
use cl_os.Pcb.{Pcb}
use cl_os.Pic.{send_eoi}
use cl_os.Pit.{pit_irq_line}
use cl_os.Process.{Kernel, kernel_stack_base, task_stack_size}

-- `pcb->child_pid != -1`
abbrev pub has_child : ℤ → Bool
has_child (pos n) = true
has_child (negsuc n) = n != 0

-- `curProc++; if(curProc==6) curProc = 0;`
abbrev pub next_proc : ℕ → ℕ
next_proc cur_proc = if cur_proc + 1 == 6 then 0 else cur_proc + 1

-- The `while`: the process that it stops at, `none` without fuel.
unfoldable pub pick : ℕ → ℕ → (ℕ → Pcb) → ℕ → Option ℕ
pick zero active_terminals pcbs cur_proc = none
pick (suc fuel) active_terminals pcbs cur_proc =
    let rest = pick fuel active_terminals pcbs (next_proc cur_proc) in
    if bit_and active_terminals (2 ^ cur_proc) == 0 || has_child (pcbs cur_proc).child_pid
    then rest
    else some cur_proc

-- `if(curProc == 5) curProc = 0; else curProc++;`
abbrev pub after : ℕ → ℕ
after cur_proc = if cur_proc == 5 then 0 else cur_proc + 1

-- `update_paging(pcb->pid)` and the stack of the process in the TSS.
abbrev pub switch_to : ℕ → Kernel → Kernel
switch_to q k = record k {
  cur = q;
  cr3 = (k.pcbs q).pid;
  tss_esp0 = kernel_stack_base - (k.pcbs q).pid * task_stack_size;
}

module _ (m : Machine) where
  open m use {State}

  -- `curProc`, the kernel and the machine after the call. To the same process it returns early.
  unfoldable pub schedule : ℕ → ℕ × Kernel × State → Option (ℕ × Kernel × State)
  schedule fuel (cur_proc, k, s) = elim (pick fuel k.pid_bitmap k.pcbs cur_proc) [
    | none ↦ none
    | some q ↦ some (
        if k.cur == q then (after q, k, s) else (after q, switch_to q k, send_eoi m pit_irq_line s))
  ]
