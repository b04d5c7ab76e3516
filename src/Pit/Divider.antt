-- ===== src/Pit/Divider.antt =====
-- What `pit_set_freq` takes and what it writes to the timer.
use cl_os.Prelude.{ℕ, ◌+◌, ◌*◌, ◌/◌, ◌%◌, ◌≤◌, ◌<◌, ◌≡◌, ◌≢◌, ◌⊎◌, pos, minus_one, arith}
use cl_os.Machine.{Machine}
use cl_os.Pit.{divider, pit_freq_max, pit_set_freq}

quotient_bounds :
    (freq : ℕ)
    → 19 ≤ freq
    → freq ≤ pit_freq_max
    → (0 < pit_freq_max / freq) × (pit_freq_max / freq < 65536)
quotient_bounds freq lo hi = grind arith

module _ (m : Machine) (channel freq : ℕ) (s : m.State) where
  open m use {outb}

  -- For channel 0 or 2 and a frequency from 19 to 1193182 Hz, `pit_set_freq` returns 0 and writes the
  -- command for that channel, then the low and the high byte of the divider to the channel's port:
  -- two bytes that make up 1193182 / freq, which is not 0.
  pub pit_set_freq_lem :
      (channel ≡ 0) ⊎ (channel ≡ 2)
      → 19 ≤ freq
      → freq ≤ pit_freq_max
      → (lo hi : ℕ) × (pit_set_freq m channel freq s ≡ (
        pos 0,
        outb (outb (outb s (0x36 + 64 * channel) 0x43) lo (0x40 + channel)) hi (0x40 + channel),
      ))
        × (lo < 256)
        × (hi < 256)
        × (lo + 256 * hi ≡ pit_freq_max / freq)
        × (0 < lo + 256 * hi)
  unfolding pit_set_freq
  pit_set_freq_lem hc lo hi =
      let (above, below) = quotient_bounds freq lo hi in
      (
        divider freq % 256,
        divider freq / 256,
        ground arith,
        omega arith,
        omega arith,
        omega arith,
        omega arith,
      )

  -- For another channel, and for a frequency out of that range, `pit_set_freq` returns -1 and writes
  -- nothing.
  pub pit_set_freq_refused :
      ((channel ≢ 0) × (channel ≢ 2)) ⊎ (freq < 19) ⊎ (pit_freq_max < freq)
      → pit_set_freq m channel freq s ≡ (minus_one, s)
  unfolding pit_set_freq
  pit_set_freq_refused h = ground arith
