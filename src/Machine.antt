-- ===== src/Machine.antt =====
-- The machine behind the port instructions of lib.h, which is not part of the sources: its state,
-- and what `inb` and `outb` do to it. `cli` and `sti` are left out of the port traffic.
use cl_os.Prelude.{ℕ}

pub record Machine : Type 1 where
  pub State : Type 0
  -- the byte read, and the state after the read
  pub inb : State → ℕ → ℕ × State
  -- state, data, port
  pub outb : State → ℕ → ℕ → State
