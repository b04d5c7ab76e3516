-- ===== src/Tests/Devices.antt =====
-- Devices that behave as the hypotheses on the chips say, and the drivers' theorems on them.
use cl_os.Prelude.{
  ℕ, ◌+◌, ◌-◌, ◌/◌, ◌%◌, ◌^◌, ◌≤◌, ◌<◌, ◌≡◌, ◌≢◌, ◌↔◌, refl, ◌==◌, leb, ltb, ◌&&◌, ◌||◌,
  if◌then◌else◌, Bool, true, false, pos, Mem, text, List, [], ◌∷◌, some, arith,
}
use cl_os.Machine.{Machine}
use cl_os.Pic.{send_eoi}
use cl_os.Pic.Chip.{Chips}
use cl_os.Pic.Mask.{in_service-send_eoi}
use cl_os.Rtc.{Rtc, odd_fuel, rate_fuel, rtc_rate, rtc_write}
use cl_os.Rtc.Rate.{rtc_rate_iff}
use cl_os.Rtc.Registers.{Chip, rtc_write_lem}

-- The two controllers: the masks and the lines in service.
pub record Controllers : Type 0 where
  pub master : ℕ
  pub slave : ℕ
  pub in_service : ℕ → Bool

low_byte : (x : ℕ) → x % 256 < 256
low_byte x = omega arith

abbrev controllers_in : Controllers → ℕ → ℕ
controllers_in s p = if p == 0x21 then s.master % 256 else if p == 0xa1 then s.slave % 256 else 0

abbrev controllers_out : Controllers → ℕ → ℕ → Controllers
controllers_out s v p = record s {
  master = if p == 0x21 then v else s.master;
  slave = if p == 0xa1 then v else s.slave;
  in_service = λ k.
      if p == 0x20 && (leb 0x60 v && ltb v 0x68) && k == v - 0x60
        || p == 0xa0 && (leb 0x60 v && ltb v 0x68) && k == 8 + (v - 0x60)
      then false
      else s.in_service k;
}

abbrev pub pics : Machine
pics = record { State = Controllers; inb = λ s p. (controllers_in s p, s); outb = controllers_out }

ends_master :
    (s : Controllers) (l k : ℕ)
    → l < 8
    → (controllers_out s (0x60 + l) 0x20).in_service k ≡ (if k == l then false else s.in_service k)
ends_master s l k h = ground arith

ends_slave :
    (s : Controllers) (l k : ℕ)
    → l < 8
    → (controllers_out s (0x60 + l) 0xa0).in_service k
      ≡ (if k == 8 + l then false else s.in_service k)
ends_slave s l k h = ground arith

abbrev pics-Chips : Chips pics
pics-Chips = record {
  master = λ s. s.master % 256;
  slave = λ s. s.slave % 256;
  master_byte = λ s. low_byte s.master;
  slave_byte = λ s. low_byte s.slave;
  in_service = λ s. s.in_service;
  read_master = λ s. refl;
  read_slave = λ s. refl;
  read_keeps_master = λ s p. refl;
  read_keeps_slave = λ s p. refl;
  write_master = λ s v h. omega arith;
  write_slave = λ s v h. omega arith;
  write_keeps_master = λ s v. refl;
  write_keeps_slave = λ s v. refl;
  end_master = ends_master;
  end_slave = ends_slave;
}

abbrev pub all_masked : Controllers
all_masked = record { master = 0xff; slave = 0xff; in_service = λ k. true }

in_service-send_eoi_example : (send_eoi pics 8 all_masked).in_service 2 ≡ false
in_service-send_eoi_example = in_service-send_eoi pics pics-Chips 8 2 all_masked (omega arith)

-- The clock chip: the selected register, and the registers.
record Clock : Type 0 where
  selected : ℕ
  regs : Mem

abbrev clock : Machine
clock = record {
  State = Clock;
  inb = λ s p. (if p == 0x71 then s.regs s.selected % 256 else 0, s);
  outb = λ s v p. record s {
    selected = if p == 0x70 then v % 128 else s.selected;
    regs = λ r. if p == 0x71 && r == s.selected then v else s.regs r;
  };
}

writes_a :
    (s : Clock) (v : ℕ)
    → s.selected ≡ 10
    → v < 256
    → (clock.outb s v 0x71).regs 10 % 256 % 128 ≡ v % 128
writes_a s v e h = ground arith

writes_keep :
    (s : Clock) (v r : ℕ) → r ≢ s.selected → (clock.outb s v 0x71).regs r % 256 ≡ s.regs r % 256
writes_keep s v r h = ground arith

abbrev clock-Chip : Chip clock
clock-Chip = record {
  reg = λ s r. s.regs r % 256;
  selected = λ s. s.selected;
  byte = λ s r. low_byte (s.regs r);
  select = λ s v. refl;
  select_keeps = λ s v r. refl;
  read = λ s. refl;
  read_keeps = λ s r h. refl;
  write_a = writes_a;
  write_keeps = writes_keep;
}

abbrev clock_vars : Rtc
clock_vars = record { rtc_interrupt_happened = 0; rtc_interrupt_count = 5; rtc_cur_freq = 2 }

abbrev reset_clock : Clock
reset_clock = record { selected = 0; regs = λ r. if r == 10 then 0x26 else 2 }

rtc_rate_iff_example :
    (rtc_rate odd_fuel rate_fuel 512 ≡ some (some 7)) ↔ ((512 ≡ 2 ^ (16 - 7)) × (6 ≤ 7) × (7 ≤ 15))
rtc_rate_iff_example = rtc_rate_iff 512 7 (omega arith)

rtc_write_lem_example :
    (s' : Clock) × (rtc_write clock (text (0 ∷ 2 ∷ [])) (clock_vars, reset_clock)
      ≡ some (pos 0, record clock_vars { rtc_cur_freq = 512; rtc_interrupt_count = 0 }, s'))
    × (s'.regs 10 % 256 % 16 ≡ 7)
    × (s'.regs 10 % 256 / 16 % 8 ≡ 2)
    × (s'.regs 11 % 256 ≡ 2)
rtc_write_lem_example =
    rtc_write_lem clock clock-Chip 7 11 (text (0 ∷ 2 ∷ [])) clock_vars reset_clock refl
      (omega arith) (omega arith) (omega arith)

-- Three seconds at two interrupts a second; some of the interrupts come in front of a reset.
abbrev ticks_of_clock : List Bool
ticks_of_clock =
    false ∷ false ∷ true ∷ true ∷ true ∷ false ∷ true ∷ false ∷ true ∷ true ∷ true ∷ false ∷ true
    ∷ true ∷ true ∷ []
