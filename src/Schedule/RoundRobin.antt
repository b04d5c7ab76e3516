-- ===== src/Schedule/RoundRobin.antt =====
-- Which process the scheduler picks, that its search ends, and that every process has its turn.
use Prim.Native.Nat.{bit_and}
use cl_os.Prelude.{
  ℕ, zero, suc, ◌+◌, ◌-◌, ◌%◌, ◌^◌, ◌≤◌, ◌<◌, ◌≡◌, ◌≢◌, ◌⊎◌, inl, inr, refl, ◌==◌, ◌||◌, Bool, true,
  false, minus_one, some, arith, Bool-cases, eq_or_ne,
}
use cl_os.Prelude.Bits.{bit}
use cl_os.Machine.{Machine}
use cl_os.Pcb.{Pcb}
use cl_os.Process.{Kernel}
use cl_os.Process.Bitmap.{bit_test}
use cl_os.Schedule.{has_child, next_proc, pick, after, switch_to, schedule}
use cl_os.Pic.{send_eoi}
use cl_os.Pit.{pit_irq_line}

-- How many steps of `curProc` lead from `c` to `p`.
abbrev pub steps_to : ℕ → ℕ → ℕ
steps_to c p = (p + 6 - c) % 6

steps_to-next_proc :
    (c p : ℕ)
    → c < 6
    → p < 6
    → c ≢ p
    → (next_proc c < 6) × (steps_to c p ≡ suc (steps_to (next_proc c) p))
steps_to-next_proc c p hc hp ne = (ground arith, ground arith)

nearer :
    (c q p : ℕ)
    → c < 6
    → q < 6
    → p < 6
    → steps_to c q ≤ steps_to c p
    → q ≢ p
    → steps_to (after q) p < steps_to c p
nearer c q p hc hq hp h ne = ground arith

module _ (active : ℕ) (pcbs : ℕ → Pcb) (byte : active < 256) where
  -- A live process that does not wait for a child.
  abbrev pub IsRunnable : ℕ → Type 0
  IsRunnable p = (p < 6) × (bit p active ≡ 1) × ((pcbs p).child_pid ≡ minus_one)

  -- `q` is the first one from `c` on.
  abbrev pub IsFirst : ℕ → ℕ → Type 0
  IsFirst c q = IsRunnable q × ((j : ℕ) → IsRunnable j → steps_to c q ≤ steps_to c j)

  abbrev is_passed : ℕ → Bool
  is_passed c = bit_and active (2 ^ c) == 0 || has_child (pcbs c).child_pid

  passed-not-IsRunnable : (c : ℕ) → c < 6 → is_passed c ≡ true → ¬ IsRunnable c
  passed-not-IsRunnable c h e (l, b, f) = ground (arith, bit_test active c byte (omega arith))

  IsRunnable-of_not_passed : (c : ℕ) → c < 6 → is_passed c ≡ false → IsRunnable c
  IsRunnable-of_not_passed c h e =
      (h, ground (arith, bit_test active c byte (omega arith)), ground arith)

  pick_lem :
      (fuel c p : ℕ)
      → c < 6
      → IsRunnable p
      → steps_to c p < fuel
      → (q : ℕ) × (pick fuel active pcbs c ≡ some q) × IsFirst c q
  unfolding pick
  pick_lem zero c p hc r h = absurd (omega arith)
  pick_lem (suc fuel) c p hc r h = elim (Bool-cases (is_passed c)) [
    | inl e ↦
        let not_c = passed-not-IsRunnable c hc e in
        let ne = λ (j : ℕ) (r : IsRunnable j) (f : c ≡ j). not_c (rw f r) in
        let (next, _) = steps_to-next_proc c p hc r.0 (ne p r) in
        let (q, eq, (run, least)) =
          pick_lem fuel (next_proc c) p next r
            (omega (arith, (steps_to-next_proc c p hc r.0 (ne p r)).1)) in
        (
          q,
          rw (e, pick) eq,
          (
            run,
            (λ j rj. omega (
              arith,
              least j rj,
              (steps_to-next_proc c q hc run.0 (ne q run)).1,
              (steps_to-next_proc c j hc rj.0 (ne j rj)).1,
            )),
          ),
        )
    | inr e ↦ (c, rw (e, pick) refl, (IsRunnable-of_not_passed c hc e, (λ j rj. omega arith)))
  ]

  -- What the search picks is runnable.
  pub pick-IsRunnable : (fuel c q : ℕ) → c < 6 → pick fuel active pcbs c ≡ some q → IsRunnable q
  unfolding pick
  pick-IsRunnable zero c q hc e = absurd (ground arith)
  pick-IsRunnable (suc fuel) c q hc e = elim (Bool-cases (is_passed c)) [
    | inl h ↦ pick-IsRunnable fuel (next_proc c) q (ground arith) (rw (h, pick) at e)
    | inr h ↦ let same : c ≡ q = ground arith in rw same at (IsRunnable-of_not_passed c hc h)
  ]

-- With a runnable process `p` and `curProc` below 6, `schedule` ends within six rounds of its search.
-- The process that runs then is the first runnable one from `curProc` on; no control block and no
-- live process is touched; and either that process is `p`, or the new `curProc` is nearer to `p`.
pub schedule_lem :
    (m : Machine) (fuel c p : ℕ) (k : Kernel) (s : m.State)
    → c < 6
    → 6 ≤ fuel
    → (byte : k.pid_bitmap < 256) → IsRunnable k.pid_bitmap k.pcbs byte p
    → (q : ℕ) × (k' : Kernel) × (s' : m.State) × (schedule m fuel (c, k, s)
        ≡ some (after q, k', s'))
      × IsFirst k.pid_bitmap k.pcbs byte c q
      × (k'.cur ≡ q)
      × (k'.pcbs ≡ k.pcbs)
      × (k'.pid_bitmap ≡ k.pid_bitmap)
      × (after q < 6)
      × ((q ≡ p) ⊎ (steps_to (after q) p < steps_to c p))
unfolding schedule
schedule_lem m fuel c p k s hc hf byte r =
    let (q, eq, first) = pick_lem k.pid_bitmap k.pcbs byte fuel c p hc r (omega arith) in
    let turn = λ (ne : q ≢ p). nearer c q p hc first.0.0 r.0 (first.1 p r) ne in
    let which = elim (eq_or_ne q p) as (λ _. (q ≡ p) ⊎ (steps_to (after q) p < steps_to c p)) [
      | inl e ↦ inl e
      | inr ne ↦ inr (turn ne)
    ] in
    elim (eq_or_ne k.cur q) [
      | inl e ↦
          (q, k, s, ground (arith, eq), first, e, refl, refl, ground (arith, first.0.0), which)
      | inr ne ↦ (
        q,
        switch_to q k,
        send_eoi m pit_irq_line s,
        rw (eq, schedule, different ne, schedule) refl,
        first,
        refl,
        refl,
        refl,
        ground (arith, first.0.0),
        which,
      )
    ]
  where
    different : {a b : ℕ} → a ≢ b → (a == b) ≡ false
    different ne = ground arith
