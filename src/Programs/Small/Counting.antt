-- ===== src/Programs/Small/Counting.antt =====
-- What `counter` prints.
use mathlib.Core.Path.{subst}
use cl_os.Prelude.{
  ℕ, zero, suc, ◌+◌, ◌^◌, ◌≤◌, ◌<◌, ◌≡◌, refl, ◌==◌, if◌then◌else◌, pos, Mem, store, List, some,
  arith,
}
use cl_os.Prelude.Literal.{codes, ◌>>=◌}
use cl_os.Strings.Copy.{EndsAt, strlen_lem}
use cl_os.Numbers.Digits.{value_of, numeral_bounded}
use cl_os.Programs.{Calls, ece391_fdputs}
use cl_os.Programs.Support.Same.{ece391_strlen-strlen, ece391_itoa-itoa}
use cl_os.Programs.Shell.Session.{say, fdputs_text}
use cl_os.Programs.Small.{with_line, count_from, count, counter, choose_max}

module _ {S : Type 0} (calls : Calls S) where
  open calls use {read, write}

  -- From the first state to the second, the numbers `i + 1` to `i + k` are written one after the other, each as a
  -- decimal numeral of `d` characters in the memory `m`, and then a newline.
  pub data Counted : ℕ → ℕ → S → S → Type 0 where
    done : {i : ℕ} {s : S} → Counted i zero s s
    next :
        {i k d : ℕ} {s s' : S} (m : Mem)
        → EndsAt m 0 d
        → value_of 10 m d ≡ i + 1
        → Counted (i + 1) k (say calls (codes "\n") (write (pos 1) m (pos d) s).1) s'
        → Counted i (suc k) s s'

  pub fdputs_EndsAt :
      (fuel d : ℕ) (m : Mem) (s : S)
      → EndsAt m 0 d
      → d < fuel
      → ece391_fdputs calls fuel (pos 1) m s ≡ some (write (pos 1) m (pos d) s).1
  unfolding ece391_fdputs
  fdputs_EndsAt fuel d m s e h = rw (ece391_strlen-strlen fuel m, strlen_lem fuel m d e h) refl

  count_from_lem :
      (fuel k i : ℕ) (buf : Mem) (s : S)
      → 32 < fuel
      → i + k < 2 ^ 32
      → (s' : S) × (count_from calls fuel buf i k s ≡ some s') × Counted i k s s'
  unfolding count_from
  count_from_lem fuel zero i buf s f b = (s, refl, done)
  count_from_lem fuel (suc k) i buf s f b =
      let (d, m, e, w, v, short) =
        numeral_bounded fuel (i + 1) 10 buf (omega arith) (omega arith) (omega arith) f in
      let s1 = (write (pos 1) m (pos d) s).1 in
      let s2 = say calls (codes "\n") s1 in
      let (s', e', c) = count_from_lem fuel k (i + 1) m s2 f (omega arith) in
      (
        s',
        rw
            (
              ece391_itoa-itoa fuel (i + 1) buf 10 (omega arith) (omega arith),
              e,
              fdputs_EndsAt fuel d m s w (omega arith),
              fdputs_text calls fuel (codes "\n") s1 refl (omega arith),
            )
            e',
        next m w v c,
      )

  count_lem :
      (fuel : ℕ) (line : Mem) (s s' : S)
      → 2 < fuel
      → EndsAt line 0 2
      → b'0' ≤ line 0
      → line 0 ≤ b'2'
      → count_from calls fuel line 0 (choose_max (line 0)) s ≡ some s'
      → count calls fuel line s ≡ some (0, s')
  unfolding count
  count_lem fuel line s s' f w lo hi e =
      rw (ece391_strlen-strlen fuel line, strlen_lem fuel line 2 w f, e) (ground arith)

  abbrev pub question : List ℕ
  question = codes "Enter the Test Number: (0): 100, (1): 10000, (2): 100000\n"

  counter-count :
      (fuel c : ℕ) (buf m : Mem) (s s1 s' : S)
      → 70 ≤ fuel
      → read (pos 0) buf 1023 (say calls question s) ≡ (pos 2, m, s1)
      → count calls fuel (store m 2 0) s1 ≡ some (0, s')
      → counter calls fuel buf s ≡ some (0, s')
  unfolding counter
  counter-count fuel c buf m s s1 s' f e e' =
      rw (fdputs_text calls fuel question s refl (omega arith), ◌>>=◌, with_line, e, e, e') refl

  -- `counter`, where the line that it reads behind its question is one character `c` from 0 to 2 and a newline,
  -- with at least 70 rounds of fuel: it ends with status 0, and has written the numbers from 1 to 100,
  -- 10000 or 100000 in their order, each as its decimal numeral and on a line of its own.
  pub counter_lem :
      (fuel c : ℕ) (buf m : Mem) (s s1 : S)
      → 70 ≤ fuel
      → b'0' ≤ c
      → c ≤ b'2'
      → read (pos 0) buf 1023 (say calls question s) ≡ (pos 2, m, s1)
      → m 0 ≡ c
      → m 1 ≡ b'\n'
      → (s' : S) × (counter calls fuel buf s ≡ some (0, s'))
        × Counted 0 (if c == b'0' then 100 else if c == b'1' then 10000 else 100000) s1 s'
  unfolding counter
  counter_lem fuel c buf m s s1 f lo hi e m0 m1 =
      let line = store m 2 0 in
      let (s', e', w) =
        count_from_lem fuel (choose_max (line 0)) 0 line s1 (omega arith) (small (line 0)) in
      (
        s',
        counter-count fuel c buf m s s1 s' f e
            (count_lem fuel line s1 s' (omega arith) (ends m0 m1) (omega arith) (omega arith) e'),
        subst (λ (n : ℕ). Counted 0 n s1 s') (chosen m0) w,
      )
    where
      small : (c : ℕ) → 0 + choose_max c < 2 ^ 32
      small c = ground arith

      ends : m 0 ≡ c → m 1 ≡ b'\n' → EndsAt (store m 2 0) 0 2
      ends m0 m1 = record { later = omega arith; nul = refl; full = λ j p q. ground arith }

      chosen :
          m 0 ≡ c
          → choose_max (m 0) ≡ (if c == b'0' then 100 else if c == b'1' then 10000 else 100000)
      chosen m0 = ground arith
