-- ===== src/Pit.antt =====
-- filesTeamWorkedOn/pit.c: the interval timer. `PIT_FREQ_MIN` is the real number 1193182 / 65536, and
-- the comparison with it is multiplied out.
pub mod Divider
use cl_os.Prelude.{ℕ, ◌+◌, ◌*◌, ◌/◌, ◌%◌, ◌==◌, ◌!=◌, ltb, ◌||◌, if◌then◌else◌, ℤ, pos, minus_one}
use cl_os.Machine.{Machine}
use cl_os.Pic.{enable_irq, send_eoi}

abbrev pub pit_irq_line : ℕ
pit_irq_line = 0

abbrev pub pit_freq_max : ℕ
pit_freq_max = 1193182

abbrev pub pit_ch0_port : ℕ
pit_ch0_port = 0x40

abbrev pub pit_cmd_port : ℕ
pit_cmd_port = 0x43

abbrev pub pit_set_rate_cmd : ℕ
pit_set_rate_cmd = 0x36

-- `uint16_t divider`
unfoldable pub divider : ℕ → ℕ
divider freq = pit_freq_max / freq % 65536

module _ (m : Machine) where
  open m use {State, outb}

  pub pit_init : State → State
  pit_init s = enable_irq m pit_irq_line s

  unfoldable pub pit_set_freq : ℕ → ℕ → State → ℤ × State
  unfolding divider
  pit_set_freq channel freq s =
      if ltb 2 channel || channel == 1
      then (minus_one, s)
      else if ltb pit_freq_max freq || ltb (freq * 65536) pit_freq_max
      then (minus_one, s)
      else (
        pos 0,
        outb
            (outb (outb s (pit_set_rate_cmd + channel * 64) pit_cmd_port) (divider freq % 256)
              (pit_ch0_port + channel))
            (divider freq / 256) (pit_ch0_port + channel),
      )

  -- `schedule` runs where a process is there, and the end of interrupt follows.
  pub pit_handler : ℕ → (State → State) → State → State
  pit_handler bitmap schedule s = send_eoi m pit_irq_line (if bitmap != 0 then schedule s else s)
