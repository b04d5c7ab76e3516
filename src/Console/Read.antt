-- ===== src/Console/Read.antt =====
-- `tRead` of filesIWorkedOn/terminal.c on the console, with the interrupts that come in. `t` is `pcb->curTerminal`. A list
-- or a sequence of tests tells in which rounds a keyboard interrupt comes; the interrupts of the other devices do not
-- touch what `tRead` reads.
pub mod Full
pub mod Kept
use mathlib.Core.Option
use cl_os.Prelude.{
  ℕ, zero, suc, ◌+◌, ◌-◌, ◌==◌, ◌&&◌, ◌||◌, if◌then◌else◌, Bool, true, false, Mem, store, List, [],
  ◌∷◌, Option, none, some,
}
use cl_os.Prelude.Literal.{literal, ◌>>=◌}
use cl_os.Machine.{Machine}
use cl_os.Process.{Stack}
use cl_os.Terminal.{row, bufsize, clearbuf, line_is_ready, clear_buf, take_line}
use cl_os.Console.{Console, Turn, returns, leaves, print, updatecursor}
use cl_os.Console.Handler.{setback, read_port, wait_make, keyboard_handler}

-- The variables of the second loop: `scancode`, `set`, and whether interrupts are enabled.
pub record Poll (S : Type 0) : Type 0 where
  pub scancode : ℕ
  pub set : ℕ
  pub enabled : Bool
  pub console : Console S

-- `tRead` returns, or is left by an interrupt for a new shell. `set` is static.
pub data Reading (S : Type 0) : Type 0 where
  got : ℕ → Mem → ℕ → Console S → Reading S
  left : Console S → Reading S

abbrev pub is_special : ℕ → Bool
is_special code = code == 0x0e || (code == 0x1d || code == 0x38)

module _ (m : Machine) where
  open m use {State}

  -- The body of the second loop for a full row.
  unfoldable pub poll : ℕ → Poll State → Option (Poll State)
  poll fuel p =
      let p1 = if p.set == 0 then record p { enabled = false; set = 1 } else p in
      elim (wait_make m fuel p1.console) [
        | none ↦ none
        | some c ↦
            let (code, c') = read_port m 0x60 c in
            let p2 = record p1 { scancode = code; console = c' } in
            some (if is_special code then record p2 { set = 0; enabled = true } else p2)
      ]

  -- Behind the second loop.
  unfoldable pub end_row : ℕ → ℕ → Console State → Option (Console State)
  end_row fuel t s =
      let s' = record s {
        lines = record s.lines { tbuf = store s.lines.tbuf (row t + 127) b'\n' };
      } in
      if s.lines.idx t == bufsize then print fuel (literal "\n") 0 s' else some s

  -- It is skipped where the process was left.
  unfoldable pub close_row : ℕ → ℕ → Bool × Poll State → Option (Bool × Poll State)
  close_row fuel t (true, p) = some (true, p)
  close_row fuel t (false, p) =
      Option.map (λ c. (false, record p { console = c })) (end_row fuel t p.console)

  -- The end of `tRead`.
  unfoldable pub finish_read : ℕ → Mem → ℕ → Bool × Poll State → Reading State
  unfolding take_line
  finish_read t buf nbytes (true, p) = left p.console
  finish_read t buf nbytes (false, p) =
      let (n, b) = take_line t buf nbytes p.console.lines in got n b p.set p.console

  module _ (bblock : Mem) (st : Stack) where
    -- The first loop.
    unfoldable pub wait_keys : ℕ → List Bool → ℕ → Console State → Option (Turn State)
    wait_keys fuel [] t s = if line_is_ready t s.lines then some (returns s) else none
    wait_keys fuel (comes ∷ events) t s = elim (line_is_ready t s.lines) [
      | true ↦ some (returns s)
      | false ↦ elim comes [
        | false ↦ wait_keys fuel events t s
        | true ↦ elim (keyboard_handler m bblock st fuel s) [
          | none ↦ none
          | some (returns s') ↦ wait_keys fuel events t s'
          | some (leaves s') ↦ some (leaves s')
        ]
      ]
    ]

    -- An interrupt in front of a round, where interrupts are enabled.
    unfoldable pub interrupted : ℕ → Bool → Poll State → Option (Turn State)
    interrupted fuel comes p =
        let handled = keyboard_handler m bblock st fuel p.console in
        if p.enabled && comes then handled else some (returns p.console)

    -- The second loop from round `i` on: whether it is left for a new shell.
    unfoldable pub poll_loop : ℕ → (ℕ → Bool) → ℕ → ℕ → Poll State → Option (Bool × Poll State)
    poll_loop zero events i t p = none
    poll_loop (suc fuel) events i t p = elim (interrupted fuel (events i) p) [
      | none ↦ none
      | some (leaves s) ↦ some (true, record p { console = s })
      | some (returns s) ↦
          let p' = record p { console = s } in
          let ended = s.lines.tbuf (row t + s.lines.idx t - 1) == b'\n' in
          let polled : Option (Poll State) =
            if s.lines.idx t == bufsize then poll fuel p' else some p' in
          let rest : Option (Bool × Poll State) = elim polled [
            | none ↦ none
            | some next ↦ poll_loop fuel events (i + 1) t next
          ] in
          if p.scancode == 0x1c || ended then some (false, p') else rest
    ]

    -- The part behind the first loop; `scancode` is not initialized there.
    unfoldable pub fill_row :
        ℕ → (ℕ → Bool) → ℕ → ℕ → ℕ → Console State → Option (Bool × Poll State)
    fill_row fuel events t scancode set s =
        let start : Poll State = record {
          scancode = scancode;
          set = set;
          enabled = false;
          console = s;
        } in
        let polled : Option (Bool × Poll State) = elim (poll_loop fuel events 0 t start) [
          | none ↦ none
          | some r ↦ close_row fuel t r
        ] in
        if s.lines.idx s.kernel.current_terminal == bufsize then polled else some (false, start)

    -- Behind the first loop; `buf` is cleared.
    unfoldable pub take_row :
        ℕ → (ℕ → Bool) → ℕ → ℕ → ℕ → Mem → ℕ → Turn State → Option (Reading State)
    unfolding fill_row finish_read
    take_row fuel events t scancode set buf nbytes (leaves s) = some (left s)
    take_row fuel events t scancode set buf nbytes (returns s) =
        Option.map (finish_read t buf nbytes) (fill_row fuel events t scancode set s)

    unfoldable pub read_terminal :
        ℕ → List Bool → (ℕ → Bool) → ℕ → ℕ → ℕ → Mem → ℕ → Console State → Option (Reading State)
    unfolding clear_buf setback updatecursor wait_keys take_row
    read_terminal fuel waiting events t scancode set buf nbytes s =
        let s0 = setback (updatecursor m s) in
        let s1 = record s0 { lines = clearbuf t s0.lines } in
        wait_keys fuel waiting t s1
        >>= take_row fuel events t scancode set (clear_buf buf 0 (nbytes + 1)) nbytes
