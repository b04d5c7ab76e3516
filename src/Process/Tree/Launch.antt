-- ===== src/Process/Tree/Launch.antt =====
-- A launched process is linked to the one that executed it, or is a shell without a parent.
use Prim.Native.Nat.{bit_or}
use cl_os.Prelude.{
  ℕ, ◌^◌, ◌<◌, ◌≡◌, ◌≢◌, ◌⊎◌, inl, inr, ◌∙◌, ap, ◌==◌, ◌&&◌, ◌||◌, if◌then◌else◌, Bool, true, false,
  pos, minus_one, Mem, arith, eq_or_ne, Bool-cases,
}
use cl_os.Prelude.Bits.{bit, bit-set}
use cl_os.Process.{Kernel, claim_pcb, place, replace_shell, adopt, ready, launch}
use cl_os.Process.Links.{bit_or-byte}
use cl_os.Process.Tree.{IsLive, IsLinked, IsTree}

-- Whether the new process becomes a child of the running one.
abbrev pub adopts : Kernel → Bool
adopts k =
    if k.which_term == 1 || (k.which_term == 2 || k.which_term == 4)
    then false
    else k.attempt_exit == 0

-- What a launch from `k` needs: the links, and a parent if the new process gets one.
abbrev pub IsReady : Kernel → Type 0
IsReady k = IsLinked k × (adopts k ≡ true → IsLive k k.cur × ((k.pcbs k.cur).child_pid ≡ minus_one))

module _ (k : Kernel) (pid : ℕ) (prog_img args : Mem) where
  abbrev k' : Kernel
  k' = launch pid prog_img args k

  launch-child_pid :
      (j : ℕ)
      → (adopts k ≡ true → k.cur ≢ pid)
      → (k'.pcbs j).child_pid ≡ (
          if j == pid
          then minus_one
          else if adopts k && j == k.cur
          then pos pid
          else (k.pcbs j).child_pid)
  unfolding launch claim_pcb place replace_shell adopt ready
  launch-child_pid j h = ground arith

  launch-parent_pid :
      (j : ℕ)
      → (adopts k ≡ true → k.cur ≢ pid)
      → (k'.pcbs j).parent_pid ≡ (
          if j == pid
          then (if adopts k then pos (k.pcbs k.cur).pid else minus_one)
          else (k.pcbs j).parent_pid)
  unfolding launch claim_pcb place replace_shell adopt ready
  launch-parent_pid j h = ground arith

  launch-pid : (j : ℕ) → (k'.pcbs j).pid ≡ (if j == pid then pid else (k.pcbs j).pid)
  unfolding launch claim_pcb place replace_shell adopt ready
  launch-pid j = ground arith

  launch-rest :
      (k'.cur ≡ pid)
      × (k'.which_term ≡ 0)
      × (k'.attempt_exit ≡ 0)
      × (k'.pid_bitmap ≡ bit_or k.pid_bitmap (2 ^ pid))
  unfolding launch claim_pcb place replace_shell adopt ready
  launch-rest = (ground arith, ground arith, ground arith, ground arith)

module _ (k : Kernel) (pid : ℕ) (prog_img args : Mem) (linked : IsLinked k) (lt : pid < 6)
    (free : bit pid k.pid_bitmap ≡ 0)
    (parent_ready : adopts k ≡ true → IsLive k k.cur × ((k.pcbs k.cur).child_pid ≡ minus_one)) where
  abbrev after : Kernel
  after = launch pid prog_img args k

  children :
      (j : ℕ)
      → (adopts k ≡ true → k.cur ≢ pid)
      → (after.pcbs j).child_pid ≡ (
          if j == pid
          then minus_one
          else if adopts k && j == k.cur
          then pos pid
          else (k.pcbs j).child_pid)
  children = launch-child_pid k pid prog_img args

  parents :
      (j : ℕ)
      → (adopts k ≡ true → k.cur ≢ pid)
      → (after.pcbs j).parent_pid ≡ (
          if j == pid
          then (if adopts k then pos (k.pcbs k.cur).pid else minus_one)
          else (k.pcbs j).parent_pid)
  parents = launch-parent_pid k pid prog_img args

  live-ne : (p : ℕ) → IsLive k p → p ≢ pid
  live-ne p l e = ground (arith, l.1, free, ap (λ (x : ℕ). bit x k.pid_bitmap) e)

  other : adopts k ≡ true → k.cur ≢ pid
  other a = live-ne k.cur (parent_ready a).0

  bits : (j : ℕ) → j < 6 → bit j after.pid_bitmap ≡ (if j == pid then 1 else bit j k.pid_bitmap)
  bits j h =
      ap (bit j) (launch-rest k pid prog_img args).3
      ∙ bit-set pid j k.pid_bitmap (omega arith) (omega arith) linked.byte

  IsLive-after : (p : ℕ) → IsLive k p → IsLive after p
  IsLive-after p l = (l.0, ground (arith, bits p l.0, l.1))

  IsLive-before : (p : ℕ) → p ≢ pid → IsLive after p → IsLive k p
  IsLive-before p ne l = (l.0, ground (arith, bits p l.0, l.1))

  IsLive-new : IsLive after pid
  IsLive-new = (lt, ground (arith, bits pid lt))

  after-child :
      (p : ℕ)
      → IsLive after p
      → ((after.pcbs p).child_pid ≡ minus_one)
        ⊎ ((c : ℕ) × ((after.pcbs p).child_pid ≡ pos c)
            × IsLive after c
            × ((after.pcbs c).parent_pid ≡ pos p))
  after-child p l = elim (eq_or_ne p pid) [
    | inl e ↦ inl ground (arith, children p other)
    | inr ne ↦ elim (Bool-cases (adopts k && p == k.cur)) [
      | inl a ↦ inr (
        pid,
        ground (arith, children p other),
        IsLive-new,
        ground (arith, parents pid other, linked.self p (IsLive-before p ne l)),
      )
      | inr na ↦ elim (linked.child p (IsLive-before p ne l)) [
        | inl none ↦ inl ground (arith, children p other)
        | inr (c, e, lc, pe) ↦ inr (
          c,
          ground (arith, children p other),
          IsLive-after c lc,
          ground (arith, parents c other, live-ne c lc),
        )
      ]
    ]
  ]

  -- The running process has no child, so it is not the parent that `c` has.
  parent-not_adopting : (p c : ℕ) → (k.pcbs p).child_pid ≡ pos c → adopts k && p == k.cur ≡ false
  parent-not_adopting p c e = ground (arith, parent_ready, ap (λ (x : ℕ). (k.pcbs x).child_pid))

  after-parent :
      (c : ℕ)
      → IsLive after c
      → ((after.pcbs c).parent_pid ≡ minus_one)
        ⊎ ((p : ℕ) × ((after.pcbs c).parent_pid ≡ pos p)
            × IsLive after p
            × ((after.pcbs p).child_pid ≡ pos c))
  after-parent c l = elim (eq_or_ne c pid) [
    | inl e ↦ elim (Bool-cases (adopts k)) [
      | inl a ↦
          let (live, leaf) = parent_ready a in
          inr (
            k.cur,
            ground (arith, parents c other, linked.self k.cur live),
            IsLive-after k.cur live,
            ground (arith, children k.cur other, other a),
          )
      | inr na ↦ inl (ground (arith, parents c other))
    ]
    | inr ne ↦ elim (linked.parent c (IsLive-before c ne l)) [
      | inl none ↦ inl (ground (arith, parents c other))
      | inr (p, e, lp, ce) ↦ inr (
        p,
        ground (arith, parents c other),
        IsLive-after p lp,
        ground (arith, children p other, live-ne p lp, parent-not_adopting p c ce),
      )
    ]
  ]

  launch-IsLinked : IsLinked after
  launch-IsLinked = record {
    byte = ground (
      arith,
      (launch-rest k pid prog_img args).3,
      bit_or-byte k.pid_bitmap pid linked.byte (omega arith),
    );
    self = λ p l. elim (eq_or_ne p pid) [
      | inl e ↦ ground (arith, launch-pid k pid prog_img args p)
      | inr ne ↦
          ground (arith, launch-pid k pid prog_img args p, linked.self p (IsLive-before p ne l))
    ];
    child = after-child;
    parent = after-parent;
  }

  pub launch-IsTree : IsTree after
  launch-IsTree =
      let (cur, w, a, _) = launch-rest k pid prog_img args in
      record {
        linked = launch-IsLinked;
        running = (
          ground (arith, cur),
          ground (arith, cur, IsLive-new.1, ap (λ (x : ℕ). bit x after.pid_bitmap)),
        );
        leaf = ground (arith, cur, children after.cur other);
        placed = w;
        settled = a;
      }
