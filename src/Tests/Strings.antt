-- ===== src/Tests/Strings.antt =====
-- The string and block routines on the name `shell` and on a short memory.
use cl_os.Prelude.{ℕ, ◌<◌, ◌≢◌, refl, ◌!=◌, arith}
use cl_os.Prelude.Bits.{all_below, all_below_sound}
use cl_os.Strings.Copy.{EndsAt}
use cl_os.Tests.Disk.{shell_name}

shell_name-full : (j : ℕ) → j < 5 → shell_name j ≢ 0
unfolding all_below
shell_name-full j h = ground (arith, all_below_sound 5 (λ j. shell_name j != 0) j refl h)

pub shell_name-EndsAt : EndsAt shell_name 0 5
shell_name-EndsAt = record { later = omega arith; nul = refl; full = λ j _ h. shell_name-full j h }
