-- ===== src/Lifecycle.antt =====
-- The kernel from the first shell on: the calls of filesIWorkedOn/syscalls.c that start and end
-- processes, and the scheduler of filesIWorkedOn/schedule.c, as steps in any order.
pub mod Safety
use Prim.Native.Nat.{bit_or}
use cl_os.Prelude.{ℕ, ◌≤◌, ◌≡◌, Mem, some}
use cl_os.Machine.{Machine}
use cl_os.Process.{Kernel, Stack, entered, resumed, sys_execute, sys_halt, shell_command}
use cl_os.Schedule.{schedule}
use cl_os.Console.{shell_line}
use cl_os.Console.Switch.{shell_bit}

-- `curProc` of the scheduler, and the kernel.
abbrev pub KernelState : Type 0
KernelState = ℕ × Kernel

module _ (m : Machine) (bblock : Mem) where
  -- A process executes another one; `screenChange` opens the shell of a terminal, which starts, or shows a terminal; a
  -- process halts and its parent or a new shell follows; the timer switches the process.
  pub data Step : KernelState → KernelState → Type 0 where
    execute :
        {c : ℕ} {k k' : Kernel} (fuel : ℕ) (st : Stack) (command : Mem)
        → sys_execute fuel bblock st command k ≡ some (entered k')
        → Step (c, k) (c, k')
    open_shell :
        {c : ℕ} {k k' : Kernel} (fuel : ℕ) (st : Stack) (t : ℕ)
        → 1 ≤ t
        → t ≤ 3
        → sys_execute fuel bblock st shell_line (record k {
          num_shells = bit_or k.num_shells (shell_bit t);
          current_terminal = t;
          which_term = shell_bit t;
        })
          ≡ some (entered k')
        → Step (c, k) (c, k')
    show : {c : ℕ} {k : Kernel} (t : ℕ) → Step (c, k) (c, record k { current_terminal = t })
    halt :
        {c : ℕ} {k k' : Kernel} (fuel : ℕ) (st : Stack) (status n : ℕ)
        → sys_halt fuel bblock st status k ≡ some (resumed n k')
        → Step (c, k) (c, k')
    restart :
        {c : ℕ} {k k' : Kernel} (fuel : ℕ) (st : Stack) (status : ℕ)
        → sys_halt fuel bblock st status k ≡ some (entered k')
        → Step (c, k) (c, k')
    switch :
        {c c' : ℕ} {k k' : Kernel} (fuel : ℕ) (s s' : m.State)
        → schedule m fuel (c, k, s) ≡ some (c', k', s')
        → Step (c, k) (c', k')

  -- `boot` is the end of `entry`: no process is there, `curProc` is 0, and the shell of terminal 1 is
  -- executed.
  pub data Reach : KernelState → Type 0 where
    boot :
        (k : Kernel) {k' : Kernel} (fuel : ℕ) (st : Stack) (command : Mem)
        → k.pid_bitmap ≡ 0
        → k.which_term ≡ 1
        → sys_execute fuel bblock st command k ≡ some (entered k')
        → Reach (0, k')
    next : {s t : KernelState} → Reach s → Step s t → Reach t
