-- ===== src/Pic/Chip.antt =====
-- What the code relies on in the two 8259 controllers once they are initialized: the data port is
-- the mask register, and an end-of-interrupt byte `0x60 + l` ends the service of line `l`.
use cl_os.Prelude.{ℕ, ◌+◌, ◌<◌, ◌≡◌, ◌==◌, Bool, false, if◌then◌else◌}
use cl_os.Machine.{Machine}

pub record Chips (m : Machine) : Type 0 where
  -- the interrupt mask registers
  pub master : m.State → ℕ
  pub slave : m.State → ℕ
  pub master_byte : (s : m.State) → master s < 256
  pub slave_byte : (s : m.State) → slave s < 256
  -- the lines in service: 0 to 7 at the master, 8 to 15 at the slave
  pub in_service : m.State → ℕ → Bool
  pub read_master : (s : m.State) → (m.inb s 0x21).0 ≡ master s
  pub read_slave : (s : m.State) → (m.inb s 0xa1).0 ≡ slave s
  pub read_keeps_master : (s : m.State) (p : ℕ) → master (m.inb s p).1 ≡ master s
  pub read_keeps_slave : (s : m.State) (p : ℕ) → slave (m.inb s p).1 ≡ slave s
  pub write_master : (s : m.State) (v : ℕ) → v < 256 → master (m.outb s v 0x21) ≡ v
  pub write_slave : (s : m.State) (v : ℕ) → v < 256 → slave (m.outb s v 0xa1) ≡ v
  pub write_keeps_master : (s : m.State) (v : ℕ) → master (m.outb s v 0xa1) ≡ master s
  pub write_keeps_slave : (s : m.State) (v : ℕ) → slave (m.outb s v 0x21) ≡ slave s
  pub end_master :
      (s : m.State) (l k : ℕ)
      → l < 8
      → in_service (m.outb s (0x60 + l) 0x20) k ≡ (if k == l then false else in_service s k)
  pub end_slave :
      (s : m.State) (l k : ℕ)
      → l < 8
      → in_service (m.outb s (0x60 + l) 0xa0) k ≡ (if k == 8 + l then false else in_service s k)
