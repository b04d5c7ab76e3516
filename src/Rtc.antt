-- ===== src/Rtc.antt =====
-- filesIWorkedOn/rtc.c: the real-time clock.
pub mod Rate
pub mod Wait
pub mod Registers
use Prim.Native.Nat.{bit_and, bit_or}
use cl_os.Prelude.{
  ℕ, zero, suc, ◌+◌, ◌-◌, ◌*◌, ◌/◌, ◌%◌, ◌^◌, ◌==◌, ◌!=◌, ltb, leb, ◌&&◌, ◌||◌, if◌then◌else◌, ℤ,
  pos, minus_one, Option, none, some, Mem, load32, Bool, text, [], ◌∷◌,
}
use cl_os.Machine.{Machine}
use cl_os.Pic.{enable_irq, send_eoi}

abbrev pub rtc_port : ℕ
rtc_port = 0x70

abbrev pub port_data : ℕ
port_data = 0x71

abbrev pub regb_nonmi : ℕ
regb_nonmi = 0x8b

abbrev pub nmi_on : ℕ
nmi_on = 0x7f

abbrev pub rega : ℕ
rega = 0x8a

abbrev pub regc : ℕ
regc = 0x0c

abbrev pub ir_line : ℕ
ir_line = 8

abbrev pub rtc_default_freq : ℕ
rtc_default_freq = 32768

abbrev pub rtc_prgm_max_freq : ℕ
rtc_prgm_max_freq = 1024

abbrev pub rtc_rate_low : ℕ
rtc_rate_low = 6

abbrev pub rtc_rate_high : ℕ
rtc_rate_high = 15

-- An `int32_t` is its 32-bit pattern: `1 < x` for such a pattern.
abbrev pub exceeds_one : ℕ → Bool
exceeds_one x = ltb 1 x && ltb x (2 ^ 31)

-- `while ((tmp > 1) && (tmp % 2 == 0)) tmp = tmp >> 1;`
unfoldable pub odd_part : ℕ → ℕ → Option ℕ
odd_part zero tmp = none
odd_part (suc fuel) tmp =
    let rest = odd_part fuel (tmp / 2) in if exceeds_one tmp && tmp % 2 == 0 then rest else some tmp

-- `while ((RTC_DEFAULT_FREQ >> (rate - 1)) != freq) rate++;`
unfoldable pub rate_from : ℕ → ℕ → ℕ → Option ℕ
rate_from zero freq rate = none
rate_from (suc fuel) freq rate =
    let rest = rate_from fuel freq (rate + 1) in
    if rtc_default_freq / 2 ^ (rate - 1) != freq then rest else some rate

-- The checks of `rtc_write` behind the first loop: `none` without fuel for the second one,
-- `some none` where it returns -1, and the rate otherwise.
unfoldable pub check_rate : ℕ → ℕ → ℕ → Option (Option ℕ)
check_rate rate_fuel freq tmp =
    if tmp != 1
    then some none
    else if leb (2 ^ 31) freq || (ltb rtc_prgm_max_freq freq || freq == 0)
    then some none
    else elim (rate_from rate_fuel freq 1) [
      | none ↦ none
      | some rate ↦
          if ltb rate rtc_rate_low || ltb rtc_rate_high rate then some none else some (some rate)
    ]

unfoldable pub rtc_rate : ℕ → ℕ → ℕ → Option (Option ℕ)
rtc_rate odd_fuel rate_fuel freq = elim (odd_part odd_fuel freq) [
  | none ↦ none
  | some tmp ↦ check_rate rate_fuel freq tmp
]

-- The variables of rtc.c.
pub record Rtc : Type 0 where
  pub rtc_interrupt_happened : ℕ
  pub rtc_interrupt_count : ℕ
  pub rtc_cur_freq : ℕ

abbrev pub odd_fuel : ℕ
odd_fuel = 33

abbrev pub rate_fuel : ℕ
rate_fuel = 17

module _ (m : Machine) where
  open m use {State, inb, outb}

  -- Register B is read and written with its PIE bit set, and the lines 8 and 2 are unmasked.
  pub rtc_init : State → State
  rtc_init s0 =
      let (cur_reg, s1) = inb (outb s0 regb_nonmi rtc_port) port_data in
      let s2 = outb (outb s1 regb_nonmi rtc_port) (bit_or cur_reg 0x40) port_data in
      outb (enable_irq m 2 (enable_irq m ir_line s2)) nmi_on rtc_port

  unfoldable pub rtc_handler : Rtc × State → Rtc × State
  rtc_handler (r, s) =
      let (_, s') = inb (outb s regc rtc_port) port_data in
      (
        record r {
          rtc_interrupt_count = (r.rtc_interrupt_count + 1) % 2 ^ 32;
          rtc_interrupt_happened = 1;
        },
        send_eoi m ir_line s',
      )

  -- What `rtc_write` does to the chip once the rate is known.
  unfoldable pub set_rate : ℕ → State → State
  set_rate rate s0 =
      let s1 = outb (outb s0 regb_nonmi rtc_port) rega rtc_port in
      let (reg_prev, s2) = inb s1 port_data in
      let s3 = outb s2 rega rtc_port in
      let s4 = outb s3 (bit_or (bit_and reg_prev 0xf0) rate) port_data in outb s4 nmi_on rtc_port

  -- The messages that it prints where it refuses the frequency are left out.
  unfoldable pub rtc_write : Mem → Rtc × State → Option (ℤ × Rtc × State)
  rtc_write buf (r, s) =
      let freq = load32 buf 0 in
      elim (rtc_rate odd_fuel rate_fuel freq) [
        | none ↦ none
        | some none ↦ some (minus_one, r, s)
        | some (some rate) ↦
            some (pos 0, record r { rtc_cur_freq = freq; rtc_interrupt_count = 0 }, set_rate rate s)
      ]

  -- `int32_t buf = 2; return rtc_write(0, &buf, 0);`
  pub rtc_open : Rtc × State → Option (ℤ × Rtc × State)
  rtc_open k = rtc_write (text (2 ∷ [])) k

pub rtc_close : ℕ → ℤ
rtc_close fd = pos 0
