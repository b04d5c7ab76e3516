-- ===== src/Programs/Pingpong.antt =====
-- syscalls/ece391pingpong.c. `SCREENWIDTH` is 79 and `BUFMAX` is `79+2`, so that `LOOPMAX` is 78; `STARTLOOP` is 2.
pub mod Frames
use cl_os.Prelude.{
  ℕ, zero, suc, ◌+◌, ◌-◌, ◌%◌, ◌==◌, if◌then◌else◌, ℤ, pos, Mem, store, Option, none, some,
}
use cl_os.Prelude.Literal.{literal, ◌>>=◌}
use cl_os.Programs.{Calls, ece391_fdputs}

-- `buf[i]=' '` from `i` on, `k` times.
unfoldable pub blank_from : Mem → ℕ → ℕ → Mem
blank_from buf i zero = buf
blank_from buf i (suc k) = blank_from (store buf i b' ') (i + 1) k

-- The buffer with its walls; `buf` is not initialized.
unfoldable pub walls : Mem → Mem
walls buf = store (store (store (store (blank_from buf 0 81) 80 0) 79 b'\n') 78 b'|') 1 b'|'

-- The inner portion is cleared, and the character is drawn at `j`.
unfoldable pub draw : Mem → ℕ → ℕ → Mem
draw buf j curchar = store (blank_from buf 2 76) j curchar

-- The edge case on characters; `curchar` has 8 bits.
unfoldable pub next_char : ℕ → ℕ
next_char curchar = if curchar == b'Z' then b'A' else (curchar + 1) % 256

module _ {S : Type 0} (calls : Calls S) (rtc_fd : ℤ) where
  open calls use {read}

  -- A picture, and the wait for a tick; `garbage` is what the read leaves.
  unfoldable pub frame : ℕ → Mem → ℕ → ℕ → Mem → S → Option (Mem × Mem × S)
  frame fuel buf j curchar garbage s0 = do
    let picture = draw buf j curchar
    s1 ← ece391_fdputs calls fuel (pos 1) picture s0
    let (cnt, garbage', s2) = read rtc_fd garbage 4 s1
    some (picture, garbage', s2)

  -- "Move out" from `j` on, with `k` rounds left.
  unfoldable pub move_out : ℕ → ℕ → ℕ → Mem → ℕ → Mem → S → Option (Mem × Mem × S)
  move_out fuel j zero buf curchar garbage s = some (buf, garbage, s)
  move_out fuel j (suc k) buf curchar garbage s =
      frame fuel buf j curchar garbage s >>= λ (buf', garbage', s').
      move_out fuel (j + 1) k buf' curchar garbage' s'

  -- "Bounce back": the rounds of `j` from `k + 1` down to 2.
  unfoldable pub bounce_back : ℕ → ℕ → Mem → ℕ → Mem → S → Option (Mem × Mem × S)
  bounce_back fuel zero buf curchar garbage s = some (buf, garbage, s)
  bounce_back fuel (suc k) buf curchar garbage s =
      frame fuel buf (k + 2) curchar garbage s >>= λ (buf', garbage', s').
      bounce_back fuel k buf' curchar garbage' s'

  -- The endless `while`, for so many rounds.
  unfoldable pub bounce : ℕ → ℕ → Mem → ℕ → Mem → S → Option (Mem × ℕ × S)
  bounce fuel zero buf curchar garbage s = some (buf, curchar, s)
  bounce fuel (suc rounds) buf curchar garbage s =
      move_out fuel 2 76 buf curchar garbage s >>= λ (buf', garbage', s').
      bounce_back fuel 76 buf' curchar garbage' s' >>= λ (buf'', garbage'', s'').
      bounce fuel rounds buf'' (next_char curchar) garbage'' s''

-- `main` for so many rounds of its endless loop: the picture, the character and the state.
unfoldable pub pingpong : {S : Type 0} → Calls S → ℕ → ℕ → Mem → Mem → S → Option (Mem × ℕ × S)
pingpong calls fuel rounds buf garbage s =
    let (rtc_fd, s1) = calls.open_file (literal "rtc") s in
    let freq = store (store (store (store garbage 0 32) 1 0) 2 0) 3 0 in
    let (written, s2) = calls.write rtc_fd freq (pos 4) s1 in
    bounce calls rtc_fd fuel rounds (walls buf) b'A' garbage s2
