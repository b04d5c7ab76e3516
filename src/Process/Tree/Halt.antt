-- ===== src/Process/Tree/Halt.antt =====
-- A halting process leaves the links of the others as they were, and its parent without a child.
use cl_os.Prelude.{
  ℕ, ◌+◌, ◌-◌, ◌%◌, ◌^◌, ◌<◌, ◌≡◌, ◌≢◌, inl, inr, refl, ap, ◌∙◌, ◌==◌, if◌then◌else◌, pos,
  minus_one, arith, eq_or_ne, true,
}
use cl_os.Prelude.Bits.{bit}
use cl_os.Process.{Kernel, release, return_to}
use cl_os.Process.Bitmap.{bit-drop}
use cl_os.Process.Tree.{IsLive, IsLinked, IsTree}
use cl_os.Process.Tree.Launch.{adopts, IsReady}

release-pcbs :
    (v : ℕ) (k : Kernel) (j : ℕ)
    → (((release v k).pcbs j).pid ≡ (k.pcbs j).pid)
      × (((release v k).pcbs j).child_pid ≡ (k.pcbs j).child_pid)
      × (((release v k).pcbs j).parent_pid ≡ (k.pcbs j).parent_pid)
unfolding release
release-pcbs v k j = (ground arith, ground arith, ground arith)

release-rest :
    (v : ℕ) (k : Kernel)
    → ((release v k).cur ≡ k.cur)
      × ((release v k).which_term ≡ k.which_term)
      × ((release v k).attempt_exit ≡ k.attempt_exit)
      × ((release v k).pid_bitmap ≡ (k.pid_bitmap + 256 - 2 ^ (k.pcbs k.cur).pid) % 256)
unfolding release
release-rest v k = (refl, refl, refl, refl)

pub release-parent_pid :
    (v : ℕ) (k : Kernel)
    → ((release v k).pcbs (release v k).cur).parent_pid ≡ (k.pcbs k.cur).parent_pid
release-parent_pid v k =
    (release-pcbs v k (release v k).cur).2
    ∙ ap (λ (p : ℕ). (k.pcbs p).parent_pid) (release-rest v k).0

module _ (v : ℕ) (k : Kernel) (tree : IsTree k) where
  abbrev released : Kernel
  released = release v k

  bits :
      (j : ℕ) → j < 6 → bit j released.pid_bitmap ≡ (if j == k.cur then 0 else bit j k.pid_bitmap)
  bits j h =
      let e = tree.linked.self k.cur tree.running in
      ap (bit j) ((release-rest v k).3 ∙ ap (λ (x : ℕ). (k.pid_bitmap + 256 - 2 ^ x) % 256) e)
      ∙ bit-drop k.cur j k.pid_bitmap (omega (arith, tree.running.0)) (omega arith) tree.linked.byte
          tree.running.1

  byte : released.pid_bitmap < 256
  byte = omega (arith, (release-rest v k).3)

  IsLive-before : (p : ℕ) → IsLive released p → IsLive k p × (p ≢ k.cur)
  IsLive-before p l = ((l.0, ground (arith, bits p l.0, l.1)), ground (arith, bits p l.0, l.1))

  IsLive-after : (p : ℕ) → IsLive k p → p ≢ k.cur → IsLive released p
  IsLive-after p l ne = (l.0, ground (arith, bits p l.0, l.1))

  -- A process with a child is not the running one.
  busy : (p c : ℕ) → (k.pcbs p).child_pid ≡ pos c → p ≢ k.cur
  busy p c e q = ground (arith, tree.leaf, ap (λ (x : ℕ). (k.pcbs x).child_pid) q)

  -- Without a parent, the running process is no one's child.
  release-IsLinked : (k.pcbs k.cur).parent_pid ≡ minus_one → IsLinked released
  release-IsLinked root = record {
    byte = byte;
    self = λ p l. (release-pcbs v k p).0 ∙ tree.linked.self p (IsLive-before p l).0;
    child = λ p l. elim (tree.linked.child p (IsLive-before p l).0) [
      | inl e ↦ inl ((release-pcbs v k p).1 ∙ e)
      | inr (c, e, lc, pe) ↦ inr (
        c,
        (release-pcbs v k p).1 ∙ e,
        IsLive-after c lc (orphan p c pe),
        (release-pcbs v k c).2 ∙ pe,
      )
    ];
    parent = λ c l. elim (tree.linked.parent c (IsLive-before c l).0) [
      | inl e ↦ inl ((release-pcbs v k c).2 ∙ e)
      | inr (p, e, lp, ce) ↦ inr (
        p,
        (release-pcbs v k c).2 ∙ e,
        IsLive-after p lp (busy p c ce),
        (release-pcbs v k p).1 ∙ ce,
      )
    ];
  }
    where
      orphan : (p c : ℕ) → (k.pcbs c).parent_pid ≡ pos p → c ≢ k.cur
      orphan p c e q = ground (arith, root, ap (λ (x : ℕ). (k.pcbs x).parent_pid) q)

  module _ (q : ℕ) (has : (k.pcbs k.cur).parent_pid ≡ pos q) where
    abbrev after : Kernel
    after = return_to q released

    -- The parent is live, and its child is the running process.
    parent_of_cur : IsLive k q × ((k.pcbs q).child_pid ≡ pos k.cur)
    parent_of_cur = elim (tree.linked.parent k.cur tree.running) [
      | inl e ↦ ground arith
      | inr (p, e, l, c) ↦ let same : p ≡ q = ground arith in (rw same at l, rw same at c)
    ]

    IsLive-q : IsLive released q
    IsLive-q = IsLive-after q parent_of_cur.0 (busy q k.cur parent_of_cur.1)

    after-pcbs :
        (j : ℕ)
        → ((after.pcbs j).pid ≡ (k.pcbs j).pid)
          × ((after.pcbs j).child_pid ≡ (if j == q then minus_one else (k.pcbs j).child_pid))
          × ((after.pcbs j).parent_pid ≡ (k.pcbs j).parent_pid)
    unfolding return_to
    after-pcbs j =
        let (a, b, c) = release-pcbs v k j in
        (ground (arith, a), ground (arith, b), ground (arith, c))

    pub return_to-IsLinked : IsLinked after
    unfolding return_to
    return_to-IsLinked = record {
      byte = byte;
      self = λ p l. (after-pcbs p).0 ∙ tree.linked.self p (IsLive-before p l).0;
      child = λ p l. elim (eq_or_ne p q) [
        | inl e ↦ inl (ground (arith, (after-pcbs p).1))
        | inr ne ↦ elim (tree.linked.child p (IsLive-before p l).0) [
          | inl e ↦ inl (ground (arith, (after-pcbs p).1))
          | inr (c, e, lc, pe) ↦ inr (
            c,
            ground (arith, (after-pcbs p).1),
            IsLive-after c lc (not_cur p c ne pe),
            (after-pcbs c).2 ∙ pe,
          )
        ]
      ];
      parent = λ c l. elim (tree.linked.parent c (IsLive-before c l).0) [
        | inl e ↦ inl ((after-pcbs c).2 ∙ e)
        | inr (p, e, lp, ce) ↦ inr (
          p,
          (after-pcbs c).2 ∙ e,
          IsLive-after p lp (busy p c ce),
          ground (arith, (after-pcbs p).1, not_q p c (IsLive-before c l).1 ce),
        )
      ];
    }
      where
        not_cur : (p c : ℕ) → p ≢ q → (k.pcbs c).parent_pid ≡ pos p → c ≢ k.cur
        not_cur p c ne e f = ground (arith, has, ap (λ (x : ℕ). (k.pcbs x).parent_pid) f)

        not_q : (p c : ℕ) → c ≢ k.cur → (k.pcbs p).child_pid ≡ pos c → p ≢ q
        not_q p c ne e f = ground (arith, parent_of_cur.1, ap (λ (x : ℕ). (k.pcbs x).child_pid) f)

    pub return_to-IsTree : IsTree after
    unfolding return_to
    return_to-IsTree = record {
      linked = return_to-IsLinked;
      running = IsLive-q;
      leaf = ground (arith, (after-pcbs q).1);
      placed = (release-rest v k).1 ∙ tree.placed;
      settled = (release-rest v k).2 ∙ tree.settled;
    }

-- Where the shell of a terminal halts, the state in which the next shell is executed.
pub restarting-IsReady :
    (v : ℕ) (k : Kernel)
    → IsTree k
    → (k.pcbs k.cur).parent_pid ≡ minus_one
    → IsReady (record (release v k) { attempt_exit = 1 })
restarting-IsReady v k tree root =
    let l = release-IsLinked v k tree root in
    (record { byte = l.byte; self = l.self; child = l.child; parent = l.parent }, (λ a. never a))
  where
    never :
        adopts (record (release v k) { attempt_exit = 1 }) ≡ true
        → IsLive (record (release v k) { attempt_exit = 1 }) (release v k).cur
          × (((release v k).pcbs (release v k).cur).child_pid ≡ minus_one)
    never a = absurd (ground arith)
