-- ===== src/Console/Read/Kept.antt =====
-- What `tRead` keeps, whatever is typed.
use cl_os.Prelude.{
  ℕ, zero, suc, ◌+◌, ◌-◌, ◌≤◌, ◌≡◌, ◌==◌, ◌&&◌, ◌||◌, if◌then◌else◌, Bool, true, false, Mem, List,
  [], ◌∷◌, Option, none, some, Holds, Holds-some, no_result, has_result, if-Holds, map-Holds,
  elim-Holds, bind-Holds, arith,
}
use cl_os.Machine.{Machine}
use cl_os.Process.{Stack}
use cl_os.Terminal.{row, bufsize, clearbuf, clear_buf, line_is_ready}
use cl_os.Console.{Console, Turn, returns, leaves, updatecursor}
use cl_os.Console.Handler.{setback, read_port}
use cl_os.Console.Sound.{
  IsSound, IsSoundTurn, clearbuf-IsBounded, print-IsSound, updatecursor-IsSound,
}
use cl_os.Console.Interrupt.{wait_make-IsSound, read-IsSound, keyboard_handler-IsSoundTurn}
use cl_os.Console.Read.{
  Poll, Reading, got, left, is_special, poll, end_row, close_row, wait_keys, interrupted, poll_loop,
  fill_row, finish_read, take_row, read_terminal,
}

abbrev pub IsSoundReading : {S : Type 0} → ℕ → Reading S → Type 0
IsSoundReading nbytes (got n b set s) = (n ≤ nbytes) × (n ≤ bufsize) × IsSound s
IsSoundReading nbytes (left s) = IsSound s

abbrev IsSoundPoll : {S : Type 0} → Poll S → Type 0
IsSoundPoll p = IsSound p.console

abbrev IsSoundEnd : {S : Type 0} → Bool × Poll S → Type 0
IsSoundEnd r = IsSound r.1.console

either-IsSoundPoll :
    {S : Type 0} (b : Bool) (p q : Poll S)
    → IsSoundPoll p
    → IsSoundPoll q
    → IsSoundPoll (if b then p else q)
either-IsSoundPoll true p q h k = h
either-IsSoundPoll false p q h k = k

module _ (m : Machine) where
  open m use {State}

  poll-IsSoundPoll : (fuel : ℕ) (p : Poll State) → IsSoundPoll p → Holds IsSoundPoll (poll m fuel p)
  unfolding poll
  poll-IsSoundPoll fuel p h =
      elim-Holds _
        (wait_make-IsSound m fuel _
          (either-IsSoundPoll (p.set == 0) (record p { enabled = false; set = 1 }) p h h))
        (λ c k. has_result (
          either-IsSoundPoll (is_special (read_port m 0x60 c).0) _ _ (read-IsSound m 0x60 c k)
            (read-IsSound m 0x60 c k)))

  end_row-IsSound :
      (fuel t : ℕ) (s : Console State) → IsSound s → Holds IsSound (end_row m fuel t s)
  unfolding end_row
  end_row-IsSound fuel t s h =
      if-Holds (s.lines.idx t == bufsize)
        (print-IsSound fuel _ 0 _ (record { lines = h.lines; screen = h.screen; quiet = h.quiet }))
        (has_result h)

  close_row-IsSoundEnd :
      (fuel t : ℕ) (r : Bool × Poll State) → IsSoundEnd r → Holds IsSoundEnd (close_row m fuel t r)
  unfolding close_row
  close_row-IsSoundEnd fuel t (true, p) h = has_result h
  close_row-IsSoundEnd fuel t (false, p) h =
      map-Holds _ (end_row-IsSound fuel t p.console h) (λ c k. k)

  finish_read-IsSoundReading :
      (t : ℕ) (buf : Mem) (nbytes : ℕ) (r : Bool × Poll State)
      → IsSoundEnd r
      → IsSoundReading nbytes (finish_read m t buf nbytes r)
  unfolding finish_read
  finish_read-IsSoundReading t buf nbytes (true, p) h = h
  finish_read-IsSoundReading t buf nbytes (false, p) h =
      (ground (arith, h.lines t), ground (arith, h.lines t), h)

  cleared :
      (t : ℕ) (s : Console State)
      → IsSound s
      → IsSound (record (setback s) { lines = clearbuf t s.lines })
  unfolding setback
  cleared t s h = record {
    lines = clearbuf-IsBounded t s.lines h.lines;
    screen = h.screen;
    quiet = h.quiet;
  }

  module _ (bblock : Mem) (st : Stack) where
    wait_keys-IsSoundTurn :
        (fuel : ℕ) (events : List Bool) (t : ℕ) (s : Console State)
        → IsSound s
        → Holds IsSoundTurn (wait_keys m bblock st fuel events t s)
    unfolding wait_keys
    wait_keys-IsSoundTurn fuel [] t s h =
        if-Holds (line_is_ready t s.lines) (has_result h) no_result
    wait_keys-IsSoundTurn fuel (comes ∷ events) t s h =
        either (line_is_ready t s.lines) comes (keyboard_handler-IsSoundTurn m bblock st fuel s h)
          (wait_keys-IsSoundTurn fuel events t)
      where
        either :
            (ready comes : Bool) {o : Option (Turn State)}
            → Holds IsSoundTurn o
            → ((s : Console State)
                → IsSound s
                → Holds IsSoundTurn (wait_keys m bblock st fuel events t s))
            → Holds IsSoundTurn (elim ready [
              | true ↦ some (returns s)
              | false ↦ elim comes [
                | false ↦ wait_keys m bblock st fuel events t s
                | true ↦ elim o [
                  | none ↦ none
                  | some (returns s') ↦ wait_keys m bblock st fuel events t s'
                  | some (leaves s') ↦ some (leaves s')
                ]
              ]
            ])
        either true comes k next = has_result h
        either false false k next = next s h
        either false true no_result next = no_result
        either false true (has_result {a = returns s'} k) next = next s' k
        either false true (has_result {a = leaves s'} k) next = has_result k

    interrupted-IsSoundTurn :
        (fuel : ℕ) (comes : Bool) (p : Poll State)
        → IsSoundPoll p
        → Holds IsSoundTurn (interrupted m bblock st fuel comes p)
    unfolding interrupted
    interrupted-IsSoundTurn fuel comes p h =
        if-Holds (p.enabled && comes) (keyboard_handler-IsSoundTurn m bblock st fuel p.console h)
          (has_result h)

    poll_loop-IsSoundEnd :
        (fuel : ℕ) (events : ℕ → Bool) (i t : ℕ) (p : Poll State)
        → IsSoundPoll p
        → Holds IsSoundEnd (poll_loop m bblock st fuel events i t p)
    unfolding poll_loop
    poll_loop-IsSoundEnd zero events i t p h = no_result
    poll_loop-IsSoundEnd (suc fuel) events i t p h =
        elim-Holds _ (interrupted-IsSoundTurn fuel (events i) p h)
          (go (λ q k. poll_loop-IsSoundEnd fuel events (i + 1) t q k))
      where
        go :
            ((q : Poll State)
              → IsSoundPoll q
              → Holds IsSoundEnd (poll_loop m bblock st fuel events (i + 1) t q))
            → (r : Turn State) → IsSoundTurn r
            → Holds IsSoundEnd (elim r [
              | leaves s ↦ some (true, record p { console = s })
              | returns s ↦
                  let p' = record p { console = s } in
                  let ended = s.lines.tbuf (row t + s.lines.idx t - 1) == b'\n' in
                  let polled : Option (Poll State) =
                    if s.lines.idx t == bufsize then poll m fuel p' else some p' in
                  let rest : Option (Bool × Poll State) = elim polled [
                    | none ↦ none
                    | some q ↦ poll_loop m bblock st fuel events (i + 1) t q
                  ] in
                  if p.scancode == 0x1c || ended then some (false, p') else rest
            ])
        go next (leaves s) k = has_result k
        go next (returns s) k =
            let p' : Poll State = record p { console = s } in
            if-Holds (p.scancode == 0x1c || s.lines.tbuf (row t + s.lines.idx t - 1) == b'\n')
              (has_result k)
              (elim-Holds _
                (if-Holds (s.lines.idx t == bufsize) (poll-IsSoundPoll fuel p' k) (has_result k))
                next)

    fill_row-IsSoundEnd :
        (fuel : ℕ) (events : ℕ → Bool) (t scancode set : ℕ) (s : Console State)
        → IsSound s
        → Holds IsSoundEnd (fill_row m bblock st fuel events t scancode set s)
    unfolding fill_row
    fill_row-IsSoundEnd fuel events t scancode set s h =
        if-Holds (s.lines.idx s.kernel.current_terminal == bufsize)
          (elim-Holds _
            (poll_loop-IsSoundEnd fuel events 0 t
              (record { scancode = scancode; set = set; enabled = false; console = s }) h)
            (close_row-IsSoundEnd fuel t))
          (has_result h)

    take_row-IsSoundReading :
        (fuel : ℕ) (events : ℕ → Bool) (t scancode set : ℕ) (buf : Mem) (nbytes : ℕ)
        (r : Turn State)
        → IsSoundTurn r
        → Holds
            (IsSoundReading nbytes)
            (take_row m bblock st fuel events t scancode set buf nbytes r)
    unfolding take_row
    take_row-IsSoundReading fuel events t scancode set buf nbytes (leaves s) h = has_result h
    take_row-IsSoundReading fuel events t scancode set buf nbytes (returns s) h =
        map-Holds _ (fill_row-IsSoundEnd fuel events t scancode set s h)
          (finish_read-IsSoundReading t buf nbytes)

    read_terminal-Holds :
        (fuel : ℕ) (waiting : List Bool) (events : ℕ → Bool) (t scancode set : ℕ) (buf : Mem)
        (nbytes : ℕ) (s : Console State)
        → IsSound s
        → Holds
            (IsSoundReading nbytes)
            (read_terminal m bblock st fuel waiting events t scancode set buf nbytes s)
    unfolding read_terminal
    read_terminal-Holds fuel waiting events t scancode set buf nbytes s h =
        bind-Holds _
          (wait_keys-IsSoundTurn fuel waiting t
            (record (setback (updatecursor m s)) { lines = clearbuf t s.lines })
            (cleared t (updatecursor m s) (updatecursor-IsSound m s h)))
          (take_row-IsSoundReading fuel events t scancode set (clear_buf buf 0 (nbytes + 1)) nbytes)

    -- Where `tRead` ends, whatever keys are pressed while it waits and while it polls the ports, it has kept the console
    -- sound, whether it returns or is left for the shell of a terminal; where it returns, it gives at most `nbytes`
    -- characters and at most 128.
    pub read_terminal-IsSoundReading :
        (fuel : ℕ) (waiting : List Bool) (events : ℕ → Bool) (t scancode set : ℕ) (buf : Mem)
        (nbytes : ℕ) (s : Console State) (r : Reading State)
        → IsSound s
        → read_terminal m bblock st fuel waiting events t scancode set buf nbytes s ≡ some r
        → IsSoundReading nbytes r
    read_terminal-IsSoundReading fuel waiting events t scancode set buf nbytes s r h e =
        Holds-some (read_terminal-Holds fuel waiting events t scancode set buf nbytes s h) e
