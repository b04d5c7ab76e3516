-- ===== src/Console/Read/Full.antt =====
-- A row that is full ends at the enter key.
use mathlib.Core.Option
use cl_os.Prelude.{
  ℕ, zero, suc, ◌+◌, ◌-◌, ◌%◌, ◌<◌, ◌≡◌, ◌≢◌, refl, ap, ◌∙◌, ◌==◌, ◌||◌, if◌then◌else◌, Bool, true,
  false, Mem, store, List, [], ◌∷◌, ◌++◌, some, arith, ne→==, ==_iff, text,
}
use cl_os.Prelude.Literal.{literal}
use cl_os.Strings.Copy.{EndsAt}
use cl_os.Machine.{Machine}
use cl_os.Process.{Stack}
use cl_os.Screen.{Screen, putc, puts, puts_from}
use cl_os.Printf.Format.{printf-puts}
use cl_os.Terminal.{row, bufsize}
use cl_os.Terminal.Reading.{length}
use cl_os.Console.{Console, print}
use cl_os.Console.Handler.{wait_make}
use cl_os.Console.Read.{
  Poll, is_special, poll, end_row, close_row, interrupted, poll_loop, fill_row,
}

-- Keys that are neither the enter key nor one of those that let interrupts in.
abbrev pub is_ignored : List ℕ → Bool
is_ignored [] = true
is_ignored (c ∷ cs) = if c == 0x1c || is_special c then false else is_ignored cs

puts_newline :
    (fuel current t key_int : ℕ) (s : Screen)
    → puts (suc (suc fuel)) current t key_int (literal "\n") s
      ≡ some (1, putc current t key_int b'\n' s)
unfolding puts puts_from
puts_newline fuel current t key_int s = refl

module _ (m : Machine) where
  open m use {State, inb}

  -- The scan codes that the keyboard's ports give from one state to another: each time the status has the bit set, and
  -- then the code is read.
  pub data Gives : List ℕ → State → State → Type 0 where
    nothing : {p : State} → Gives [] p p
    key :
        {c status : ℕ} {cs : List ℕ} {p p1 p2 p' : State}
        → inb p 0x64 ≡ (status, p1)
        → status % 2 ≡ 1
        → inb p1 0x60 ≡ (c, p2)
        → Gives cs p2 p'
        → Gives (c ∷ cs) p p'

  wait_make_ready :
      (fuel status : ℕ) (s : Console State) (p1 : State)
      → inb s.ports 0x64 ≡ (status, p1)
      → status % 2 ≡ 1
      → wait_make m (suc fuel) s ≡ some (record s { ports = p1 })
  unfolding wait_make
  wait_make_ready fuel status s p1 e odd = rw (e, odd) refl

  poll_lem :
      (fuel c status scancode set : ℕ) (enabled : Bool) (s : Console State) (p1 p2 : State)
      → set ≢ 0
      → inb s.ports 0x64 ≡ (status, p1)
      → status % 2 ≡ 1
      → inb p1 0x60 ≡ (c, p2)
      → is_special c ≡ false
      → poll m
          (suc fuel)
          (record { scancode = scancode; set = set; enabled = enabled; console = s })
        ≡ some (record {
          scancode = c;
          set = set;
          enabled = enabled;
          console = record s { ports = p2 };
        })
  unfolding poll
  poll_lem fuel c status scancode set enabled s p1 p2 nz e odd e' plain =
      rw (ne→== set 0 nz, poll, wait_make_ready fuel status s p1 e odd, e', plain, ne→== set 0 nz)
        refl

  -- The row with its newline, and the newline on the screen.
  abbrev pub ended : ℕ → Console State → State → Console State
  ended t s p = record s {
    ports = p;
    lines = record s.lines { tbuf = store s.lines.tbuf (row t + 127) b'\n' };
    screen =
        putc s.kernel.current_terminal (s.kernel.pcbs s.kernel.cur).cur_terminal s.key_int b'\n'
          s.screen;
  }

  print_newline :
      (fuel : ℕ) (s : Console State)
      → print (suc (suc fuel)) (literal "\n") 0 s
        ≡ some (record s {
          screen =
              putc s.kernel.current_terminal
                (s.kernel.pcbs s.kernel.cur).cur_terminal
                s.key_int
                b'\n'
                s.screen;
        })
  unfolding print
  print_newline fuel s =
      let t = (s.kernel.pcbs s.kernel.cur).cur_terminal in
      ap (Option.map (λ (r : ℕ × Screen). record s { screen = r.1 })) (
        printf-puts s.kernel.current_terminal t s.key_int (λ i. 0) (λ p. text []) (text [])
          (suc (suc fuel)) 1 (literal "\n") s.screen newline_ends plain
        ∙ puts_newline fuel s.kernel.current_terminal t s.key_int s.screen)
    where
      newline_ends : EndsAt (literal "\n") 0 1
      newline_ends = record { later = omega arith; nul = refl; full = λ j p q. full j q }
        where
          full : (j : ℕ) → j < 1 → literal "\n" j ≢ 0
          full zero q = omega arith
          full (suc j) q = absurd (omega arith)

      plain : (j : ℕ) → j < 1 → literal "\n" j ≢ b'%'
      plain zero q = omega arith
      plain (suc j) q = absurd (omega arith)

  end_row_lem :
      (fuel t : ℕ) (s : Console State) (p : State)
      → s.lines.idx t ≡ bufsize
      → end_row m (suc (suc fuel)) t (record s { ports = p }) ≡ some (ended t s p)
  unfolding end_row
  end_row_lem fuel t s p full = rw ((==_iff _ _).1 full, print_newline fuel _) refl

  module _ (bblock : Mem) (st : Stack) (events : ℕ → Bool) (t set : ℕ) (s : Console State) where
    abbrev at_poll : ℕ → State → Poll State
    at_poll scancode p = record {
      scancode = scancode;
      set = set;
      enabled = false;
      console = record s { ports = p };
    }

    entered_lem :
        (fuel i : ℕ) (p : State)
        → poll_loop m bblock st (suc fuel) events i t (at_poll 0x1c p)
          ≡ some (false, at_poll 0x1c p)
    unfolding poll_loop interrupted
    entered_lem fuel i p = refl

    poll_loop_step :
        (fuel i scancode c : ℕ) (p p' : State)
        → s.lines.idx t ≡ bufsize
        → s.lines.tbuf (row t + s.lines.idx t - 1) ≢ b'\n'
        → scancode ≢ 0x1c
        → poll m fuel (at_poll scancode p) ≡ some (at_poll c p')
        → poll_loop m bblock st (suc fuel) events i t (at_poll scancode p)
          ≡ poll_loop m bblock st fuel events (i + 1) t (at_poll c p')
    unfolding poll_loop interrupted
    poll_loop_step fuel i scancode c p p' full open_row ne e =
        rw (ne→== scancode 0x1c ne, ne→== _ _ open_row, (==_iff _ _).1 full, e) refl

    poll_loop_keys :
        (fuel i : ℕ) (codes : List ℕ) (scancode : ℕ) {p p' : State}
        → set ≢ 0
        → s.lines.idx t ≡ bufsize
        → s.lines.tbuf (row t + s.lines.idx t - 1) ≢ b'\n'
        → is_ignored codes ≡ true
        → Gives (codes ++ 0x1c ∷ []) p p'
        → scancode ≢ 0x1c
        → length codes + 2 < fuel
        → poll_loop m bblock st fuel events i t (at_poll scancode p) ≡ some (false, at_poll 0x1c p')
    poll_loop_keys zero i codes scancode nz full open_row ign g ne h = absurd (omega arith)
    poll_loop_keys (suc zero) i codes scancode nz full open_row ign g ne h = absurd (omega arith)
    poll_loop_keys (suc (suc fuel)) i [] scancode {p} {p'} nz full open_row ign
          (key {status = status} {p1 = p1} {p2 = p2} e odd e' nothing) ne h =
        poll_loop_step (suc fuel) i scancode 0x1c p p' full open_row ne (
          poll_lem fuel 0x1c status scancode set false (record s { ports = p }) p1 p' nz e odd e'
            refl)
        ∙ entered_lem fuel (i + 1) p'
    poll_loop_keys (suc (suc fuel)) i (c ∷ codes) scancode {p} {p'} nz full open_row ign
          (key {status = status} {p1 = p1} {p2 = p2} e odd e' g) ne h =
        poll_loop_step (suc fuel) i scancode c p p2 full open_row ne (
          poll_lem fuel c status scancode set false (record s { ports = p }) p1 p2 nz e odd e'
            (ground arith))
        ∙ poll_loop_keys (suc fuel) (i + 1) codes c nz full open_row (ground arith) g (ground arith)
            (omega arith)

    -- Behind a row of 128 characters without a newline at its end, on the visible terminal, with interrupts off, where the
    -- uninitialized `scancode` is not the enter key's, `set` is not 0 and the keyboard is ready at the first poll for each
    -- key: the keys that are typed are dropped, none of them being the enter key or one of backspace, control and alt, and
    -- the enter key ends the wait. Then the row has a newline in its last place, the screen shows one, and nothing else of
    -- the console has changed but what the ports gave. Three more rounds of fuel than keys are enough.
    pub fill_row-Gives :
        (fuel : ℕ) (codes : List ℕ) (scancode : ℕ) (p' : State)
        → set ≢ 0
        → s.lines.idx t ≡ bufsize
        → s.kernel.current_terminal ≡ t
        → s.lines.tbuf (row t + s.lines.idx t - 1) ≢ b'\n'
        → is_ignored codes ≡ true
        → Gives (codes ++ 0x1c ∷ []) s.ports p'
        → scancode ≢ 0x1c
        → length codes + 2 < fuel
        → fill_row m bblock st fuel events t scancode set s
          ≡ some (
            false,
            record { scancode = 0x1c; set = set; enabled = false; console = ended t s p' },
          )
    unfolding fill_row close_row
    fill_row-Gives zero codes scancode p' nz full visible open_row ign g ne h = absurd (omega arith)
    fill_row-Gives (suc zero) codes scancode p' nz full visible open_row ign g ne h =
        absurd (omega arith)
    fill_row-Gives (suc (suc fuel)) codes scancode p' nz full visible open_row ign g ne h =
        rw
          (
            (==_iff (s.lines.idx s.kernel.current_terminal) bufsize).1
                (ap s.lines.idx visible ∙ full),
            poll_loop_keys (suc (suc fuel)) 0 codes scancode nz full open_row ign g ne h,
            end_row_lem fuel t s p' full,
          )
          refl
