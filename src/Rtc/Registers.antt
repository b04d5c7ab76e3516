-- ===== src/Rtc/Registers.antt =====
-- What `rtc_write` does to the registers of the clock chip.
use Prim.Native.Nat.{bit_and, bit_or}
use mathlib.Core.Path.{subst}
use cl_os.Prelude.{
  ℕ, ◌+◌, ◌-◌, true, ◌*◌, ◌/◌, ◌%◌, ◌^◌, ◌≤◌, ◌<◌, ◌≡◌, ◌≢◌, refl, ◌==◌, ==_iff, arith, Mem, load32,
  some, sym, pos,
}
use cl_os.Prelude.Bits.{all_below, all_below_sound}
use cl_os.Machine.{Machine}
use cl_os.Rtc.{Rtc, rtc_rate, odd_fuel, rate_fuel, set_rate, rtc_write}
use cl_os.Rtc.Rate.{rtc_rate_of}

-- What the code relies on in the chip: port 0x70 selects a register, its top bit apart, and port
-- 0x71 reads and writes it. A read of register C has an effect of its own, and bit 7 of register A
-- is not written.
pub record Chip (m : Machine) : Type 0 where
  pub reg : m.State → ℕ → ℕ
  pub selected : m.State → ℕ
  pub byte : (s : m.State) (r : ℕ) → reg s r < 256
  pub select : (s : m.State) (v : ℕ) → selected (m.outb s v 0x70) ≡ v % 128
  pub select_keeps : (s : m.State) (v r : ℕ) → reg (m.outb s v 0x70) r ≡ reg s r
  pub read : (s : m.State) → (m.inb s 0x71).0 ≡ reg s (selected s)
  pub read_keeps : (s : m.State) (r : ℕ) → selected s ≢ 12 → reg (m.inb s 0x71).1 r ≡ reg s r
  pub write_a :
      (s : m.State) (v : ℕ) → selected s ≡ 10 → v < 256 → reg (m.outb s v 0x71) 10 % 128 ≡ v % 128
  pub write_keeps : (s : m.State) (v r : ℕ) → r ≢ selected s → reg (m.outb s v 0x71) r ≡ reg s r

nibble_table :
    all_below 16 (λ r. all_below 256 (λ p. bit_or (bit_and p 0xf0) r == p / 16 * 16 + r)) ≡ true
unfolding all_below
nibble_table = refl

-- `(reg_prev & 0xF0) | rate` replaces the low nibble.
nibble : (p r : ℕ) → p < 256 → r < 16 → bit_or (bit_and p 0xf0) r ≡ p / 16 * 16 + r
nibble p r hp hr =
    (==_iff _ _).0 (all_below_sound 256 _ p (all_below_sound 16 _ r nibble_table hr) hp)

module _ (m : Machine) (c : Chip m) where
  open m use {inb, outb}

  set_rate_lem :
      (rate r : ℕ) (s : m.State)
      → rate < 16
      → r ≢ 10
      → let s' = set_rate m rate s in
        (c.reg s' 10 % 16 ≡ rate)
        × (c.reg s' 10 / 16 % 8 ≡ c.reg s 10 / 16 % 8)
        × (c.reg s' r ≡ c.reg s r)
  unfolding set_rate
  set_rate_lem rate r s0 h ne = ground (
    arith,
    nibble (c.reg s0 10) rate (c.byte s0 10) h,
    c.select_keeps s4 0x7f 10,
    c.select_keeps s4 0x7f r,
    c.write_a s3 v,
    c.write_keeps s3 v r,
    c.select s2 0x8a,
    c.select_keeps s2 0x8a 10,
    c.select_keeps s2 0x8a r,
    c.read s1,
    c.read_keeps s1 10,
    c.read_keeps s1 r,
    c.select sb 0x8a,
    c.select_keeps sb 0x8a 10,
    c.select_keeps sb 0x8a r,
    c.select_keeps s0 0x8b 10,
    c.select_keeps s0 0x8b r,
    c.byte s0 10,
  )
    where
      sb : m.State
      sb = outb s0 0x8b 0x70

      s1 : m.State
      s1 = outb sb 0x8a 0x70

      s2 : m.State
      s2 = (inb s1 0x71).1

      s3 : m.State
      s3 = outb s2 0x8a 0x70

      v : ℕ
      v = bit_or (bit_and (inb s1 0x71).0 0xf0) rate

      s4 : m.State
      s4 = outb s3 v 0x71

  -- `rtc_write` of the frequency 2 ^ (16 - rate), with a rate from 6 to 15, returns 0, records
  -- the frequency, resets the count of interrupts, and puts the rate into the low nibble of
  -- register A; bits 4 to 6 of it and every other register stay.
  pub rtc_write_lem :
      (rate r : ℕ) (buf : Mem) (k : Rtc) (s : m.State)
      → load32 buf 0 ≡ 2 ^ (16 - rate)
      → 6 ≤ rate
      → rate ≤ 15
      → r ≢ 10
      → (s' : m.State) × (rtc_write m buf (k, s)
          ≡ some (pos 0, record k { rtc_cur_freq = 2 ^ (16 - rate); rtc_interrupt_count = 0 }, s'))
        × (c.reg s' 10 % 16 ≡ rate)
        × (c.reg s' 10 / 16 % 8 ≡ c.reg s 10 / 16 % 8)
        × (c.reg s' r ≡ c.reg s r)
  unfolding rtc_write
  rtc_write_lem rate r buf k s e lo hi ne =
      let (a, b, d) = set_rate_lem rate r s (omega arith) ne in
      (set_rate m rate s, ground (arith, e, found), a, b, d)
    where
      found : rtc_rate odd_fuel rate_fuel (load32 buf 0) ≡ some (some rate)
      found =
          subst (λ w. rtc_rate odd_fuel rate_fuel w ≡ some (some rate)) (sym e)
            (rtc_rate_of rate lo hi)
