-- ===== src/Pic.antt =====
-- filesIWorkedOn/i8259.c: the two interrupt controllers.
pub mod Chip
pub mod Mask
use Prim.Native.Nat.{bit_and, bit_or}
use cl_os.Prelude.{ℕ, ◌+◌, ◌-◌, ◌^◌, ltb, leb, ◌&&◌, if◌then◌else◌}
use cl_os.Machine.{Machine}

abbrev pub master_8259_port : ℕ
master_8259_port = 0x20

abbrev pub slave_8259_port : ℕ
slave_8259_port = 0xa0

abbrev pub master_port_data : ℕ
master_port_data = 0x21

abbrev pub slave_port_data : ℕ
slave_port_data = 0xa1

abbrev pub eoi : ℕ
eoi = 0x60

module _ (m : Machine) where
  open m use {State, inb, outb}

  -- DISABLE, then the four initialization words, then DISABLE again, each to both controllers.
  pub i8259_init : State → State
  i8259_init s0 =
      let s1 = outb (outb s0 0xff master_port_data) 0xff slave_port_data in
      let s2 = outb (outb s1 0x11 master_8259_port) 0x11 slave_8259_port in
      let s3 = outb (outb s2 0x20 master_port_data) 0x28 slave_port_data in
      let s4 = outb (outb s3 0x04 master_port_data) 0x02 slave_port_data in
      let s5 = outb (outb s4 0x01 master_port_data) 0x01 slave_port_data in
      outb (outb s5 0xff master_port_data) 0xff slave_port_data

  -- `unmask = inb(port) & tmp; outb(unmask, port)` with `tmp = ~(1 << irq_num)` in a byte.
  clear_line : ℕ → ℕ → State → State
  clear_line port irq_num s =
      let (imr, s') = inb s port in outb s' (bit_and imr (255 - 2 ^ irq_num)) port

  -- `mask = inb(port) | (1 << irq_num); outb(mask, port)`
  set_line : ℕ → ℕ → State → State
  set_line port irq_num s = let (imr, s') = inb s port in outb s' (bit_or imr (2 ^ irq_num)) port

  unfoldable pub enable_irq : ℕ → State → State
  unfolding clear_line
  enable_irq irq_num s =
      if leb 8 irq_num && ltb irq_num 16
      then clear_line slave_port_data (irq_num - 8) s
      else if ltb irq_num 8
      then clear_line master_port_data irq_num s
      else s

  unfoldable pub disable_irq : ℕ → State → State
  unfolding set_line
  disable_irq irq_num s =
      if leb 8 irq_num && ltb irq_num 16
      then set_line slave_port_data (irq_num - 8) s
      else if ltb irq_num 8
      then set_line master_port_data irq_num s
      else s

  unfoldable pub send_eoi : ℕ → State → State
  send_eoi irq_num s =
      if ltb irq_num 16
      then if leb 8 irq_num
        then outb (outb s (bit_or eoi (irq_num - 8)) slave_8259_port) (bit_or eoi 2)
            master_8259_port
        else outb s (bit_or eoi irq_num) master_8259_port
      else s
