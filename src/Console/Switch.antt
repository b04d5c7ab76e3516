-- ===== src/Console/Switch.antt =====
-- What `screenChange` does where the terminals have their shells, and where a shell cannot start.
use Prim.Native.Nat.{bit_and, bit_or}
use cl_os.Prelude.{
  ℕ, ◌≤◌, ◌<◌, ◌≡◌, ◌≢◌, refl, ap, sym, ◌∙◌, ◌==◌, if◌then◌else◌, Mem, some, arith, ne→==, ==_iff,
  ℤ,
}
use cl_os.Machine.{Machine}
use cl_os.Process.{Kernel, Stack, returned, sys_execute}
use cl_os.Process.Refused.{sys_execute-returned}
use cl_os.Screen.{video, video_term, attrib, keep_cells}
use cl_os.Screen.Cells.{char, attr}
use cl_os.Screen.Pages.{switched, switched_lem}
use cl_os.Console.{
  Console, returns, updatecursor, keep, reveal, after_execute, prepare, change_to, change,
  screen_change, shell_line,
}

-- The bit of a terminal's shell in `numShells`.
abbrev pub shell_bit : ℕ → ℕ
shell_bit t = if t == 3 then 4 else t

abbrev pub HasShell : {S : Type 0} → ℕ → Console S → Type 0
HasShell t s = bit_and s.kernel.num_shells (shell_bit t) ≢ 0

module _ (m : Machine) (bblock : Mem) (st : Stack) where
  open m use {State}

  abbrev kept : Console State → Console State
  kept s = record s {
    screen = record s.screen { mem = keep_cells s.screen.mem s.kernel.current_terminal 0 2000 };
  }

  keep_lem :
      (fuel : ℕ) (s : Console State)
      → 1 ≤ s.kernel.current_terminal
      → s.kernel.current_terminal ≤ 3
      → keep m fuel s ≡ some (kept s)
  unfolding keep
  keep_lem fuel s l h = ground arith

  change_lem :
      (fuel t : ℕ) (s : Console State)
      → 1 ≤ t
      → t ≤ 3
      → change m bblock st fuel t s ≡ change_to m bblock st fuel t (shell_bit t) s
  unfolding change
  change_lem fuel t s l h = ground arith

  -- Where the terminal has no shell, or has one.
  change_to_running :
      (fuel t bit : ℕ) (s : Console State)
      → bit_and s.kernel.num_shells bit ≢ 0
      → change_to m bblock st fuel t bit s ≡ some (returns (reveal m t s))
  unfolding change_to
  change_to_running fuel t bit s h = ground (arith, ne→== (bit_and s.kernel.num_shells bit) 0 h)

  change_to_failed :
      (fuel t bit : ℕ) (s : Console State) (r : ℤ) (k : Kernel)
      → bit_and s.kernel.num_shells bit ≡ 0
      → s.kernel.pid_bitmap ≢ 0x3f
      → sys_execute fuel bblock st shell_line (prepare m t bit s).kernel ≡ some (returned r k)
      → change_to m bblock st fuel t bit s
        ≡ some (returns (reveal m t (record (prepare m t bit s) { kernel = k })))
  unfolding change_to after_execute
  change_to_failed fuel t bit s r k h room e =
      rw
        (
          ne→== s.kernel.pid_bitmap 0x3f room,
          change_to,
          (==_iff (bit_and s.kernel.num_shells bit) 0).1 h,
          change_to,
        )
        (ap (after_execute m t (prepare m t bit s)) e)

  pub screen_change_lem :
      (fuel t : ℕ) (s : Console State)
      → 1 ≤ s.kernel.current_terminal
      → s.kernel.current_terminal ≤ 3
      → 1 ≤ t
      → t ≤ 3
      → t ≢ s.kernel.current_terminal
      → screen_change m bblock st fuel t s ≡ change_to m bblock st fuel t (shell_bit t) (kept s)
  unfolding screen_change
  screen_change_lem fuel t s cl ch tl th ne =
      rw (ne→== t s.kernel.current_terminal ne, screen_change, keep_lem fuel s cl ch, screen_change)
        (change_lem fuel t (kept s) tl th)

  -- A change to another terminal that has its shell shows the page of that terminal, and keeps in the page of the terminal
  -- that was visible what was visible of it; nothing of the kernel changes but the number of the visible terminal.
  pub screen_change_running :
      (fuel t : ℕ) (s : Console State)
      → 1 ≤ s.kernel.current_terminal
      → s.kernel.current_terminal ≤ 3
      → 1 ≤ t
      → t ≤ 3
      → t ≢ s.kernel.current_terminal
      → HasShell t s
      → (s' : Console State) × (screen_change m bblock st fuel t s ≡ some (returns s'))
        × (s'.kernel ≡ record s.kernel { current_terminal = t })
        × (s'.lines ≡ s.lines)
        × (s'.screen ≡ record s.screen { mem = switched s.kernel.current_terminal t s.screen.mem })
  unfolding reveal updatecursor
  screen_change_running fuel t s cl ch tl th ne shell = (
    reveal m t (kept s),
    screen_change_lem fuel t s cl ch tl th ne
        ∙ change_to_running fuel t (shell_bit t) (kept s) shell,
    refl,
    refl,
    refl,
  )

  -- A change to another terminal and back, where both have their shells: the kernel is as it was, each visible cell has the
  -- character that it had, in the plain attribute, and the other terminal's page has its characters.
  pub screen_change-screen_change :
      (fuel t : ℕ) (s : Console State)
      → 1 ≤ s.kernel.current_terminal
      → s.kernel.current_terminal ≤ 3
      → 1 ≤ t
      → t ≤ 3
      → t ≢ s.kernel.current_terminal
      → HasShell t s
      → HasShell s.kernel.current_terminal s
      → (s1 s2 : Console State) × (screen_change m bblock st fuel t s ≡ some (returns s1))
        × (screen_change m bblock st fuel s.kernel.current_terminal s1 ≡ some (returns s2))
        × (s2.kernel ≡ s.kernel)
        × ((j : ℕ)
            → j < 2000
            → (char s2.screen.mem video j ≡ char s.screen.mem video j)
              × (attr s2.screen.mem video j ≡ attrib)
              × (char s2.screen.mem (video_term t) j ≡ char s.screen.mem (video_term t) j))
  unfolding reveal updatecursor
  screen_change-screen_change fuel t s cl ch tl th ne shell shell' =
      let c = s.kernel.current_terminal in
      let s1 = reveal m t (kept s) in
      (
        s1,
        reveal m c (kept s1),
        screen_change_lem fuel t s cl ch tl th ne
            ∙ change_to_running fuel t (shell_bit t) (kept s) shell,
        screen_change_lem fuel c s1 tl th cl ch (λ e. ne (sym e))
            ∙ change_to_running fuel c (shell_bit c) (kept s1) shell',
        refl,
        (λ j l.
            let (shown, hidden, plain) = switched_lem c t s.screen.mem cl ch tl th ne j l in
            let (shown', hidden', plain') =
              switched_lem t c (switched c t s.screen.mem) tl th cl ch (λ e. ne (sym e)) j l in
            (shown' ∙ hidden, plain', hidden' ∙ shown)),
      )

  -- A change to another terminal that has no shell, while not all six processes are in use, where
  -- the shell that `screenChange` executes fails: the change is made all the same. That terminal is
  -- the visible one, its bit in `numShells` is set, and `whichTerm` is still set; nothing else of
  -- the kernel is changed.
  pub screen_change_failed :
      (fuel t : ℕ) (s : Console State) (r : ℤ) (k : Kernel)
      → 1 ≤ s.kernel.current_terminal
      → s.kernel.current_terminal ≤ 3
      → 1 ≤ t
      → t ≤ 3
      → t ≢ s.kernel.current_terminal
      → bit_and s.kernel.num_shells (shell_bit t) ≡ 0
      → s.kernel.pid_bitmap ≢ 0x3f
      → sys_execute fuel bblock st shell_line (prepare m t (shell_bit t) s).kernel
        ≡ some (returned r k)
      → (s' : Console State) × (screen_change m bblock st fuel t s ≡ some (returns s'))
        × (s'.kernel ≡ record s.kernel {
          current_terminal = t;
          num_shells = bit_or s.kernel.num_shells (shell_bit t);
          which_term = shell_bit t;
        })
  unfolding reveal updatecursor prepare
  screen_change_failed fuel t s r k cl ch tl th ne none_yet room e = (
    reveal m t (record (prepare m t (shell_bit t) (kept s)) { kernel = k }),
    screen_change_lem fuel t s cl ch tl th ne
        ∙ change_to_failed fuel t (shell_bit t) (kept s) r k none_yet room e,
    ap (λ (k : Kernel). record k { current_terminal = t })
        (sys_execute-returned fuel bblock st shell_line (prepare m t (shell_bit t) s).kernel k r
          e).1,
  )
