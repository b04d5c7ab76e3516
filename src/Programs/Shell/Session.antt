-- ===== src/Programs/Shell/Session.antt =====
-- The shell on the lines that it reads.
use cl_os.Prelude.{
  ℕ, zero, suc, ◌+◌, ◌≤◌, ◌<◌, ◌≡◌, refl, ap, ◌∙◌, if◌then◌else◌, true, false, ℤ, pos, Mem, text,
  List, [], ◌∷◌, some, none, arith, eq_or_ne, inl, inr,
}
use cl_os.Prelude.Literal.{codes, literal}
use cl_os.Fs.Lookup.{is_zero}
use cl_os.Strings.Copy.{strlen_lem}
use cl_os.Terminal.Reading.{length, is_plain, finished}
use cl_os.Programs.{Calls, is_minus_one, ece391_fdputs}
use cl_os.Programs.Support.Compare.{is_full, compare_texts, ece391_strcmp_lem}
use cl_os.Programs.Support.Same.{ece391_strlen-strlen}
use cl_os.Programs.Shell.{cut_line, is_256, report, obey, shell_loop, shell}

text_full : (l : List ℕ) (j : ℕ) → is_full l ≡ true → j < length l → text l j ≡ 0 → ◌≡◌ {A = ℕ} 0 1
text_full [] j h p e = absurd (omega arith)
text_full (c ∷ l) zero h p e = ground arith
text_full (c ∷ l) (suc j) h p e = text_full l j (ground arith) (omega arith) e

text_end : (l : List ℕ) → text l (length l) ≡ 0
text_end [] = refl
text_end (c ∷ l) = text_end l

-- A call that writes all of a text, without its result.
abbrev pub say : {S : Type 0} → Calls S → List ℕ → S → S
say calls l s = (calls.write (pos 1) (text l) (pos (length l)) s).1

pub fdputs_text :
    {S : Type 0} (calls : Calls S) (fuel : ℕ) (l : List ℕ) (s : S)
    → is_full l ≡ true
    → length l < fuel
    → ece391_fdputs calls fuel (pos 1) (text l) s ≡ some (say calls l s)
unfolding ece391_fdputs
fdputs_text calls fuel l s h p =
    rw
      (
        ece391_strlen-strlen fuel (text l),
        strlen_lem fuel (text l) (length l)
            (record {
              later = omega arith;
              nul = text_end l;
              full = λ j a b e. absurd (let z = text_full l j h b e in omega arith);
            })
            p,
      )
      refl

plain_full : (l : List ℕ) → is_plain l ≡ true → is_full l ≡ true
plain_full [] h = refl
plain_full (c ∷ l) h = ground (arith, plain_full l)

finished_end : (l : List ℕ) → text (finished l) (length l) ≡ b'\n'
finished_end [] = refl
finished_end (c ∷ l) = finished_end l

finished_before : (l : List ℕ) (j : ℕ) → j < length l → text (finished l) j ≡ text l j
finished_before [] j h = absurd (omega arith)
finished_before (c ∷ l) zero h = refl
finished_before (c ∷ l) (suc j) h = finished_before l j (omega arith)

-- The bytes of a buffer up to the end of a text, the NUL included.
abbrev pub Reads : Mem → List ℕ → Type 0
Reads m l = (j : ℕ) → j ≤ length l → m j ≡ text l j

-- The newline goes.
cut_line-Reads :
    (m : Mem) (l : List ℕ) → Reads m (finished l) → Reads (cut_line m (suc (length l))) l
unfolding cut_line
cut_line-Reads m l h j p = elim (eq_or_ne j (length l)) [
  | inl e ↦ ground (arith, at_end, text_end l, ap (text l) e)
  | inr ne ↦
      ground (arith, at_end, h j (omega (arith, longer l)), finished_before l j (omega arith))
]
  where
    longer : (l : List ℕ) → length (finished l) ≡ suc (length l)
    longer [] = refl
    longer (c ∷ l) = ap suc (longer l)

    at_end : m (length l) ≡ b'\n'
    at_end = h (length l) (omega (arith, longer l)) ∙ finished_end l

abbrev pub exit_text : List ℕ
exit_text = codes "exit"

-- What the shell says of a result.
abbrev pub reported : {S : Type 0} → Calls S → ℤ → S → S
reported calls rval s =
    if is_minus_one rval
    then say calls (codes "no such command\n") s
    else if is_256 rval
    then say calls (codes "program terminated by exception\n") s
    else if is_zero rval
    then s
    else say calls (codes "program terminated abnormally\n") s

module _ {S : Type 0} (calls : Calls S) where
  open calls use {read, execute}

  -- A read behind the prompt fills any buffer with the line `l` and its newline.
  abbrev pub Typed : List ℕ → S → S → Type 0
  Typed l s s' =
      (buf : Mem)
      → (m : Mem) × (read (pos 0) buf 1023 (say calls (codes "391OS> ") s)
          ≡ (pos (suc (length l)), m, s'))
        × Reads m (finished l)

  -- What the shell means to do with the lines that it gets, from a prompt on: the commands that it executes.
  pub data Session : List (List ℕ) → S → S → Type 0 where
    leave : {s s' : S} → Typed exit_text s s' → Session [] s s'
    idle : {ls : List (List ℕ)} {s s1 s' : S} → Typed [] s s1 → Session ls s1 s' → Session ls s s'
    run :
        {l : List ℕ} {ls : List (List ℕ)} {s s1 s2 s' : S} {r : ℤ}
        → is_plain l ≡ true
        → 0 < length l
        → length l < 1023
        → is_zero (compare_texts l exit_text) ≡ false
        → Typed l s s1
        → ((m : Mem) → Reads m l → execute m s1 ≡ (r, s2))
        → Session ls (reported calls r s2) s'
        → Session (l ∷ ls) s s'

  report_lem :
      (fuel : ℕ) (r : ℤ) (s : S) → 40 ≤ fuel → report calls fuel r s ≡ some (reported calls r s)
  unfolding report
  report_lem fuel r s h = ground (
    arith,
    fdputs_text calls fuel (codes "no such command\n") s refl (omega arith),
    fdputs_text calls fuel (codes "program terminated by exception\n") s refl (omega arith),
    fdputs_text calls fuel (codes "program terminated abnormally\n") s refl (omega arith),
  )

  obey_exit :
      (fuel : ℕ) (m : Mem) (s : S)
      → 40 ≤ fuel
      → Reads m exit_text
      → obey calls fuel m s ≡ some (some 0, s)
  unfolding obey
  obey_exit fuel m s h a =
      rw
        ((ece391_strcmp_lem fuel m (literal "exit") exit_text exit_text refl refl (omega arith) a
          (λ j p. refl)).0)
        refl

  obey_empty :
      (fuel : ℕ) (m : Mem) (s : S) → 40 ≤ fuel → Reads m [] → obey calls fuel m s ≡ some (none, s)
  unfolding obey
  obey_empty fuel m s h a =
      let e =
        (ece391_strcmp_lem fuel m (literal "exit") [] exit_text refl refl (omega arith) a
          (λ j p. refl)).0 in
      rw (e, a 0 (omega arith)) refl

  obey_run :
      (fuel : ℕ) (m : Mem) (l : List ℕ) (r : ℤ) (s s' : S)
      → 40 ≤ fuel
      → length l < fuel
      → is_plain l ≡ true
      → 0 < length l
      → is_zero (compare_texts l exit_text) ≡ false
      → Reads m l
      → execute m s ≡ (r, s')
      → obey calls fuel m s ≡ some (none, reported calls r s')
  unfolding obey
  obey_run fuel m [] r s s' h q p pos_l ne a x = absurd (omega arith)
  obey_run fuel m (c ∷ l) r s s' h q p pos_l ne a x =
      let e =
        (ece391_strcmp_lem fuel m (literal "exit") (c ∷ l) exit_text (plain_full (c ∷ l) p) refl q a
          (λ j p. refl)).0 in
      rw (e, x, report_lem fuel r s' h, ne, a 0 (omega arith)) (ground arith)

  -- The prompts of a session.
  unfoldable pub rounds : {ls : List (List ℕ)} {s s' : S} → Session ls s s' → ℕ
  rounds (leave t) = 1
  rounds (idle t rest) = suc (rounds rest)
  rounds (run p q b ne t x rest) = suc (rounds rest)

  prompt :
      (fuel : ℕ) (s : S)
      → 40 ≤ fuel
      → ece391_fdputs calls fuel (pos 1) (literal "391OS> ") s
        ≡ some (say calls (codes "391OS> ") s)
  prompt fuel s h = fdputs_text calls fuel (codes "391OS> ") s refl (omega arith)

  shell_loop_lem :
      (fuel : ℕ) (buf : Mem) {ls : List (List ℕ)} {s s' : S} (session : Session ls s s')
      → 1100 + rounds session ≤ fuel
      → shell_loop calls fuel buf s ≡ some (0, s')
  unfolding shell_loop rounds
  shell_loop_lem zero buf session h = absurd (omega arith)
  shell_loop_lem (suc fuel) buf (leave {s} {s'} t) h =
      let (m, e, a) = t buf in
      rw
        (
          prompt fuel s (omega arith),
          e,
          e,
          obey_exit fuel (cut_line m 5) s' (omega arith) (cut_line-Reads m exit_text a),
        )
        refl
  shell_loop_lem (suc fuel) buf (idle {ls} {s} {s1} {s'} t rest) h =
      let (m, e, a) = t buf in
      rw
        (
          prompt fuel s (omega arith),
          e,
          e,
          obey_empty fuel (cut_line m 1) s1 (omega arith) (cut_line-Reads m [] a),
          e,
        )
        (shell_loop_lem fuel (cut_line m 1) rest (omega arith))
  shell_loop_lem (suc fuel) buf (run {l} {ls} {s} {s1} {s2} {s'} {r} p q b ne t x rest) h =
      let (m, e, a) = t buf in
      let line = cut_line m (suc (length l)) in
      let reads : Reads line l = cut_line-Reads m l a in
      rw
        (
          prompt fuel s (omega arith),
          e,
          e,
          obey_run fuel line l r s1 s2 (omega arith) (omega arith) p q ne reads (x line reads),
          e,
        )
        (shell_loop_lem fuel line rest (omega arith))

  -- The shell, where what it reads and executes from its greeting on is a session that leaves with "exit",
  -- with enough fuel: it ends with status 0, and has executed the lines of the session in their
  -- order, each as a string without its newline, empty lines left out, with the message of `reported` for each
  -- result.
  pub shell_lem :
      (fuel : ℕ) (buf : Mem) (ls : List (List ℕ)) (s s' : S)
      → (session : Session ls (say calls (codes "Starting 391 Shell\n") s) s')
      → 1100 + rounds session ≤ fuel
      → shell calls fuel buf s ≡ some (0, s')
  unfolding shell
  shell_lem fuel buf ls s s' session h =
      rw (fdputs_text calls fuel (codes "Starting 391 Shell\n") s refl (omega arith))
        (shell_loop_lem fuel buf session h)
