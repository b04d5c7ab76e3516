-- ===== src/Rtc/Wait.antt =====
-- `rtc_read` and `rtc_wait` of filesIWorkedOn/rtc.c. They test `rtc_interrupt_happened` until the interrupt's handler has
-- set XX
use cl_os.Prelude.{
  ℕ, zero, suc, ◌+◌, ◌*◌, ◌%◌, ◌^◌, ◌<◌, ◌≤◌, ◌≡◌, ◌!=◌, if◌then◌else◌, Bool, true, false, List, [],
  ◌∷◌, Option, none, some,
}
use cl_os.Machine.{Machine}
use cl_os.Rtc.{Rtc, rtc_handler}

module _ (m : Machine) where
  open m use {State}

  abbrev pub happened : Rtc × State → Bool
  happened (r, s) = r.rtc_interrupt_happened != 0

  abbrev pub meanwhile : Bool → Rtc × State → Rtc × State
  meanwhile interrupt k = if interrupt then rtc_handler m k else k

  -- `while (!rtc_interrupt_happened) {}`: the state, and the tests that are left; `none` while it still waits.
  unfoldable pub wait_interrupt : List Bool → Rtc × State → Option ((Rtc × State) × List Bool)
  wait_interrupt [] k = if happened k then some (k, []) else none
  wait_interrupt (e ∷ events) k =
      let rest = wait_interrupt events (meanwhile e k) in
      if happened k then some (k, e ∷ events) else rest

  abbrev pub unset : Rtc × State → Rtc × State
  unset (r, s) = (record r { rtc_interrupt_happened = 0 }, s)

  unfoldable pub rtc_read : List Bool → Rtc × State → Option ((Rtc × State) × List Bool)
  unfolding wait_interrupt
  rtc_read [] k = wait_interrupt [] (unset k)
  rtc_read (e ∷ events) k = wait_interrupt events (unset (meanwhile e k))

  -- `while (ticks)`
  unfoldable pub wait_ticks : ℕ → List Bool → Rtc × State → Option ((Rtc × State) × List Bool)
  unfolding rtc_read
  wait_ticks zero events k = some (k, events)
  wait_ticks (suc ticks) events k = elim (rtc_read events k) [
    | none ↦ none
    | some (k', events') ↦ wait_ticks ticks events' k'
  ]

  unfoldable pub rtc_wait : ℕ → List Bool → Rtc × State → Option ((Rtc × State) × List Bool)
  unfolding wait_ticks
  rtc_wait seconds events (r, s) =
      wait_ticks (seconds * r.rtc_cur_freq % 2 ^ 32) events
        (record r { rtc_interrupt_count = 0 }, s)

-- The interrupts in a list.
abbrev pub interrupts : List Bool → ℕ
interrupts [] = 0
interrupts (true ∷ events) = suc (interrupts events)
interrupts (false ∷ events) = interrupts events

module _ (m : Machine) where
  open m use {State}

  -- The end of `ticks` waits that begin with `count` in `rtc_interrupt_count`: on a list too short, or with so many
  -- interrupts taken from it.
  pub data IsWaited (ticks count : ℕ) (events : List Bool)
      : Option ((Rtc × State) × List Bool) → Type 0 where
    still_waits : interrupts events < 2 * ticks → IsWaited ticks count events none
    ended :
        {k : Rtc × State} {l : List Bool} (taken : ℕ)
        → interrupts events ≡ taken + interrupts l
        → ticks ≤ taken
        → taken ≤ 2 * ticks
        → k.0.rtc_interrupt_count ≡ (count + taken) % 2 ^ 32
        → IsWaited ticks count events (some (k, l))
