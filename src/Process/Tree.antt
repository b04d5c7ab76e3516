-- ===== src/Process/Tree.antt =====
-- The links between processes: what `launch`, `sys_halt` and `schedule` keep.
pub mod Launch
pub mod Halt
pub mod Steps
use cl_os.Prelude.{ℕ, ◌<◌, ◌≡◌, pos, minus_one, ◌⊎◌}
use cl_os.Prelude.Bits.{bit}
use cl_os.Process.{Kernel}

-- The pid `p` is in use.
abbrev pub IsLive : Kernel → ℕ → Type 0
IsLive k p = (p < 6) × (bit p k.pid_bitmap ≡ 1)

-- A live process has its slot's number; its child is live and has it for a parent, and its parent is
-- live and has it for a child. It has no child or one, and no parent or one.
pub record IsLinked (k : Kernel) : Type 0 where
  pub byte : k.pid_bitmap < 256
  pub self : (p : ℕ) → IsLive k p → (k.pcbs p).pid ≡ p
  pub child :
      (p : ℕ)
      → IsLive k p
      → ((k.pcbs p).child_pid ≡ minus_one)
        ⊎ ((c : ℕ) × ((k.pcbs p).child_pid ≡ pos c) × IsLive k c × ((k.pcbs c).parent_pid ≡ pos p))
  pub parent :
      (c : ℕ)
      → IsLive k c
      → ((k.pcbs c).parent_pid ≡ minus_one)
        ⊎ ((p : ℕ) × ((k.pcbs c).parent_pid ≡ pos p) × IsLive k p × ((k.pcbs p).child_pid ≡ pos c))

-- The running process is live and waits for no child, and no shell is about to be placed.
pub record IsTree (k : Kernel) : Type 0 where
  pub linked : IsLinked k
  pub running : IsLive k k.cur
  pub leaf : (k.pcbs k.cur).child_pid ≡ minus_one
  pub placed : k.which_term ≡ 0
  pub settled : k.attempt_exit ≡ 0
