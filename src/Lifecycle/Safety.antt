-- ===== src/Lifecycle/Safety.antt =====
-- What holds of the processes in every state of the kernel.
use mathlib.Core.Path.{subst}
use Prim.Native.Nat.{bit_or}
use cl_os.Prelude.{
  ℕ, ◌≤◌, ◌<◌, ◌≡◌, inl, inr, refl, ap, ◌∙◌, ◌==◌, minus_one, Mem, Option, none, some, arith,
  Option-cases, Bool-cases, ==_iff,
}
use cl_os.Prelude.Bits.{bit, all_below, all_below_sound}
use cl_os.Machine.{Machine}
use cl_os.Process.{
  Kernel, Stack, Outcome, entered, resumed, sys_execute, release, sys_halt, shell_command,
}
use cl_os.Process.Tree.{IsLive, IsLinked, IsTree}
use cl_os.Process.Tree.Launch.{IsReady}
use cl_os.Process.Tree.Halt.{release-parent_pid, return_to-IsTree, restarting-IsReady}
use cl_os.Process.Tree.Steps.{Entered, IsLaunched-IsTree, sys_execute-Entered}
use cl_os.Schedule.{pick, after, switch_to, schedule}
use cl_os.Schedule.RoundRobin.{IsRunnable, pick-IsRunnable, schedule_lem}
use cl_os.Console.{shell_line}
use cl_os.Console.Switch.{shell_bit}
use cl_os.Lifecycle.{
  KernelState, Step, execute, open_shell, show, halt, restart, switch, Reach, boot, next,
}

-- The invariant of a state.
abbrev pub IsSafe : KernelState → Type 0
IsSafe (c, k) = (c < 6) × IsTree k

tree-IsReady : (k : Kernel) → IsTree k → IsReady k
tree-IsReady k t = (t.linked, (λ a. (t.running, t.leaf)))

opening : ℕ → Kernel → Kernel
opening t k = record k {
  num_shells = bit_or k.num_shells (shell_bit t);
  current_terminal = t;
  which_term = shell_bit t;
}

opening-IsReady : (k : Kernel) (t : ℕ) → 1 ≤ t → t ≤ 3 → IsLinked k → IsReady (opening t k)
unfolding opening
opening-IsReady k t lo hi l = (
  record { byte = l.byte; self = l.self; child = l.child; parent = l.parent },
  (λ a. absurd (ground arith)),
)

show-IsTree : (k : Kernel) (t : ℕ) → IsTree k → IsTree (record k { current_terminal = t })
show-IsTree k t h = record {
  linked = record {
    byte = h.linked.byte;
    self = h.linked.self;
    child = h.linked.child;
    parent = h.linked.parent;
  };
  running = h.running;
  leaf = h.leaf;
  placed = h.placed;
  settled = h.settled;
}

execute-IsTree :
    (fuel : ℕ) (bblock : Mem) (st : Stack) (command : Mem) (k k' : Kernel)
    → IsReady k
    → sys_execute fuel bblock st command k ≡ some (entered k')
    → IsTree k'
execute-IsTree fuel bblock st command k k' r e =
    IsLaunched-IsTree k k' r
      (subst (Entered k) e (sys_execute-Entered fuel bblock st command k r.0.byte))

-- A halted process leaves a tree, whichever way `sys_halt` goes.
abbrev IsHalted : Option Outcome → Type 0
IsHalted none = Unit
IsHalted (some (Outcome.returned r k')) = Unit
IsHalted (some (entered k')) = IsTree k'
IsHalted (some (resumed n k')) = IsTree k'

execute-IsHalted : (o : Option Outcome) (k : Kernel) → IsReady k → Entered k o → IsHalted o
execute-IsHalted none k r h = tt
execute-IsHalted (some (Outcome.returned x k')) k r h = tt
execute-IsHalted (some (entered k')) k r h = IsLaunched-IsTree k k' r h
execute-IsHalted (some (resumed n k')) k r h = absurd h

sys_halt-IsHalted :
    (fuel : ℕ) (bblock : Mem) (st : Stack) (status : ℕ) (k : Kernel)
    → IsTree k
    → IsHalted (sys_halt fuel bblock st status k)
unfolding sys_halt
sys_halt-IsHalted fuel bblock st status k t = elim (t.linked.parent k.cur t.running) [
  | inl root ↦
      let ready = restarting-IsReady status k t root in
      rw (release-parent_pid status k ∙ root, sys_halt)
        (execute-IsHalted
          (sys_execute fuel bblock st shell_command
            (record (release status k) { attempt_exit = 1 }))
          (record (release status k) { attempt_exit = 1 }) ready
          (sys_execute-Entered fuel bblock st shell_command
            (record (release status k) { attempt_exit = 1 }) ready.0.byte))
  | inr (q, e, l, c) ↦
      rw (release-parent_pid status k ∙ e, sys_halt) (return_to-IsTree status k t q e)
]

bit-zero : (p : ℕ) → p < 6 → bit p 0 ≡ 0
unfolding all_below
bit-zero p h = (==_iff (bit p 0) 0).0 (all_below_sound 6 (λ p. bit p 0 == 0) p refl h)

abbrev AfterSwitch : {S : Type 0} → Option (ℕ × Kernel × S) → Type 0
AfterSwitch none = Unit
AfterSwitch (some (c, k, s)) = IsSafe (c, k)

switch_to-IsTree :
    (q : ℕ) (k : Kernel)
    → IsTree k
    → IsLive k q
    → (k.pcbs q).child_pid ≡ minus_one
    → IsTree (switch_to q k)
switch_to-IsTree q k t live leaf = record {
  linked = record {
    byte = t.linked.byte;
    self = t.linked.self;
    child = t.linked.child;
    parent = t.linked.parent;
  };
  running = live;
  leaf = leaf;
  placed = t.placed;
  settled = t.settled;
}

after_in_range : (q : ℕ) → q < 6 → after q < 6
after_in_range q h = ground arith

schedule-AfterSwitch :
    (m : Machine) (fuel c : ℕ) (k : Kernel) (s : m.State)
    → IsSafe (c, k)
    → AfterSwitch (schedule m fuel (c, k, s))
unfolding schedule
schedule-AfterSwitch m fuel c k s (lt, t) = elim (Option-cases (pick fuel k.pid_bitmap k.pcbs c)) [
  | inl n ↦ rw (n, schedule) tt
  | inr (q, p) ↦
      let (hq, live, leaf) = pick-IsRunnable k.pid_bitmap k.pcbs t.linked.byte fuel c q lt p in
      elim (Bool-cases (k.cur == q)) [
        | inl e ↦ rw (p, schedule, e, schedule) (after_in_range q hq, t)
        | inr e ↦
            rw (p, schedule, e, schedule)
              (after_in_range q hq, switch_to-IsTree q k t (hq, live) leaf)
      ]
]

-- Every step keeps the invariant.
Step-IsSafe :
    {m : Machine} {bblock : Mem} {s t : KernelState} → Step m bblock s t → IsSafe s → IsSafe t
unfolding opening
Step-IsSafe {m} {bblock} (execute {c} {k} {k'} fuel st command e) (lt, t) =
    (lt, execute-IsTree fuel bblock st command k k' (tree-IsReady k t) e)
Step-IsSafe {m} {bblock} (open_shell {c} {k} {k'} fuel st n lo hi e) (lt, t) = (
  lt,
  execute-IsTree fuel bblock st shell_line (opening n k) k' (opening-IsReady k n lo hi t.linked) e,
)
Step-IsSafe {m} {bblock} (show {c} {k} n) (lt, t) = (lt, show-IsTree k n t)
Step-IsSafe {m} {bblock} (halt {c} {k} {k'} fuel st status n e) (lt, t) =
    (lt, subst IsHalted e (sys_halt-IsHalted fuel bblock st status k t))
Step-IsSafe {m} {bblock} (restart {c} {k} {k'} fuel st status e) (lt, t) =
    (lt, subst IsHalted e (sys_halt-IsHalted fuel bblock st status k t))
Step-IsSafe {m} {bblock} (switch {c} {c'} {k} {k'} fuel s s' e) h =
    subst AfterSwitch e (schedule-AfterSwitch m fuel c k s h)

boot-IsSafe :
    (fuel : ℕ) (bblock : Mem) (st : Stack) (command : Mem) (k k' : Kernel)
    → k.pid_bitmap ≡ 0
    → k.which_term ≡ 1
    → sys_execute fuel bblock st command k ≡ some (entered k')
    → IsSafe (0, k')
boot-IsSafe fuel bblock st command k k' z w e = (
  omega arith,
  execute-IsTree fuel bblock st command k k' (empty, (λ a. absurd (ground arith))) e,
)
  where
    dead : (p : ℕ) → IsLive k p → ⊥
    dead p (l, b) = ground (arith, ap (bit p) z, bit-zero p l)

    empty : IsLinked k
    empty = record {
      byte = omega arith;
      self = λ p l. absurd (dead p l);
      child = λ p l. absurd (dead p l);
      parent = λ p l. absurd (dead p l);
    }

-- In every state that the kernel comes to from its first shell on, by any order of executed
-- programs, terminals that are shown or whose shell starts, halts and switches: `curProc` is below
-- 6; each live process has its own number; a process that has a child is the parent of that child,
-- which is live, and a process that has a parent is that one's child; and the running process is
-- live and has no child.
pub Reach-IsSafe : {m : Machine} {bblock : Mem} {s : KernelState} → Reach m bblock s → IsSafe s
Reach-IsSafe {m} {bblock} (boot k {k'} fuel st command z w e) =
    boot-IsSafe fuel bblock st command k k' z w e
Reach-IsSafe (next r st) = Step-IsSafe st (Reach-IsSafe r)

-- In every state that the kernel comes to from its first shell on, by the same steps, and with at
-- least six rounds of fuel, the search of the scheduler ends, and what it gives control to is a
-- live process without a child.
pub Reach-schedule :
    {m : Machine} {bblock : Mem} {c : ℕ} {k : Kernel} (fuel : ℕ) (s : m.State)
    → Reach m bblock (c, k)
    → 6 ≤ fuel
    → (c' : ℕ) × (k' : Kernel) × (s' : m.State) × (schedule m fuel (c, k, s) ≡ some (c', k', s'))
      × IsLive k' k'.cur
      × ((k'.pcbs k'.cur).child_pid ≡ minus_one)
Reach-schedule {m} {bblock} {c} {k} fuel s r hf =
    let (lt, t) = Reach-IsSafe r in
    let runnable : IsRunnable k.pid_bitmap k.pcbs t.linked.byte k.cur =
      (t.running.0, t.running.1, t.leaf) in
    let (q, k', s', e, f, g1, g2, g3, g4, g5) =
      schedule_lem m fuel c k.cur k s lt hf t.linked.byte runnable in
    let safe : AfterSwitch (some (after q, k', s')) =
      subst AfterSwitch e (schedule-AfterSwitch m fuel c k s (lt, t)) in
    (after q, k', s', e, safe.1.running, safe.1.leaf)
