-- ===== src/Boot/First.antt =====
-- What the boot code leaves.
use cl_os.Prelude.{
  ℕ, zero, suc, ◌+◌, ◌^◌, ◌%◌, ◌≡◌, refl, ap, ◌∙◌, ◌==◌, ltb, ◌&&◌, if◌then◌else◌, Bool, true,
  false, Mem, load32, List, Option, none, some, Holds, Holds-some, no_result, has_result, if-Holds,
  map-Holds, bind-Holds,
}
use cl_os.Machine.{Machine}
use cl_os.Process.{Kernel, Stack, Outcome, entered, sys_execute}
use cl_os.Process.Tree.{IsTree}
use cl_os.Lifecycle.{Reach, boot}
use cl_os.Lifecycle.Safety.{Reach-IsSafe}
use cl_os.Screen.{clear}
use cl_os.Console.{Console, shell_line}
use cl_os.Console.Handler.{keyboard_init}
use cl_os.Boot.{
  show_words, show_if, show_bytes, show_modules, show_mmap, show_info, show_maps, report_boot,
  check_flag, multiboot_bootloader_magic, System, Linked, Booted, refused, executed, set_up,
  before_shell, bootblock, entry,
}

-- A console that differs from `c` in its screen only.
pub record Keeps {S : Type 0} (c s : Console S) : Type 0 where
  pub kernel : s.kernel ≡ c.kernel
  pub lines : s.lines ≡ c.lines
  pub key_int : s.key_int ≡ c.key_int
  pub caps_set : s.caps_set ≡ c.caps_set
  pub back : s.back ≡ c.back
  pub ports : s.ports ≡ c.ports

any-Holds : {A : Type 0} {P : A → Type 0} (o : Option A) → ((a : A) → P a) → Holds P o
any-Holds none h = no_result
any-Holds (some a) h = has_result (h a)

module _ {S : Type 0} (fuel : ℕ) (memory : Mem) (c : Console S) where
  show_words-Keeps :
      (format : Mem) (words : List ℕ) (s : Console S)
      → Keeps c s
      → Holds (Keeps c) (show_words fuel memory format words s)
  unfolding show_words
  show_words-Keeps format words s h =
      map-Holds {Q = λ r. Keeps c s} _ (any-Holds _ (λ r. h)) (λ r e. record {
        kernel = e.kernel;
        lines = e.lines;
        key_int = e.key_int;
        caps_set = e.caps_set;
        back = e.back;
        ports = e.ports;
      })

  show_if-Keeps :
      (b : Bool) (format : Mem) (words : List ℕ) (s : Console S)
      → Keeps c s
      → Holds (Keeps c) (show_if fuel memory b format words s)
  unfolding show_if
  show_if-Keeps b format words s h = if-Holds b (show_words-Keeps format words s h) (has_result h)

  show_bytes-Keeps :
      (start i n : ℕ) (s : Console S)
      → Keeps c s
      → Holds (Keeps c) (show_bytes fuel memory start i n s)
  unfolding show_bytes
  show_bytes-Keeps start i zero s h = has_result h
  show_bytes-Keeps start i (suc n) s h =
      bind-Holds _ (show_words-Keeps _ _ s h) (λ s1 h1. show_bytes-Keeps start (i + 1) n s1 h1)

  show_modules-Keeps :
      (mod_at mod_count n : ℕ) (s : Console S)
      → Keeps c s
      → Holds (Keeps c) (show_modules fuel memory mod_at mod_count n s)
  unfolding show_modules
  show_modules-Keeps mod_at mod_count zero s h = has_result h
  show_modules-Keeps mod_at mod_count (suc n) s h =
      bind-Holds _ (show_words-Keeps _ _ s h) (λ s1 h1.
        bind-Holds _ (show_words-Keeps _ _ s1 h1) (λ s2 h2.
          bind-Holds _ (show_words-Keeps _ _ s2 h2) (λ s3 h3.
            bind-Holds _ (show_words-Keeps _ _ s3 h3) (λ s4 h4.
              bind-Holds _ (show_bytes-Keeps (load32 memory mod_at) 0 16 s4 h4) (λ s5 h5.
                bind-Holds _ (show_words-Keeps _ _ s5 h5)
                  (λ s6 h6. show_modules-Keeps (mod_at + 16) (mod_count + 1) n s6 h6))))))

  show_mmap-Keeps :
      (rounds end_at mmap : ℕ) (s : Console S)
      → Keeps c s
      → Holds (Keeps c) (show_mmap fuel memory rounds end_at mmap s)
  unfolding show_mmap
  show_mmap-Keeps zero end_at mmap s h = no_result
  show_mmap-Keeps (suc rounds) end_at mmap s h = either (ltb mmap end_at) (
      bind-Holds _ (show_words-Keeps _ _ s h)
        (λ s1 h1. show_mmap-Keeps rounds end_at ((mmap + load32 memory mmap + 4) % 2 ^ 32) s1 h1))
    where
      either :
          (b : Bool) {o : Option (Console S)}
          → Holds (Keeps c) o
          → Holds (Keeps c) (elim b [ false ↦ some s | true ↦ o ])
      either false h' = has_result h
      either true h' = h'

  show_info-Keeps :
      (mbi : ℕ) (s : Console S) → Keeps c s → Holds (Keeps c) (show_info fuel memory mbi s)
  unfolding show_info
  show_info-Keeps mbi s h =
      let flags = load32 memory mbi in
      bind-Holds _ (show_words-Keeps _ _ s h) (λ s1 h1.
        bind-Holds _ (show_if-Keeps (check_flag flags 0) _ _ s1 h1) (λ s2 h2.
          bind-Holds _ (show_if-Keeps (check_flag flags 1) _ _ s2 h2) (λ s3 h3.
            bind-Holds _ (show_if-Keeps (check_flag flags 2) _ _ s3 h3) (λ s4 h4.
              if-Holds (check_flag flags 3)
                (show_modules-Keeps (load32 memory (mbi + 24)) 0 (load32 memory (mbi + 20)) s4 h4)
                (has_result h4)))))

  show_maps-Keeps :
      (mbi : ℕ) (s : Console S) → Keeps c s → Holds (Keeps c) (show_maps fuel memory mbi s)
  unfolding show_maps
  show_maps-Keeps mbi s h =
      let flags = load32 memory mbi in
      bind-Holds _ (show_if-Keeps (check_flag flags 5) _ _ s h) (λ s1 h1.
        bind-Holds _ (show_if-Keeps (check_flag flags 6) _ _ s1 h1) (λ s2 h2.
          if-Holds (check_flag flags 6)
            (show_mmap-Keeps fuel ((load32 memory (mbi + 48) + load32 memory (mbi + 44)) % 2 ^ 32)
              (load32 memory (mbi + 48)) s2 h2)
            (has_result h2)))

  abbrev KeepsEnd : Bool × Console S → Type 0
  KeepsEnd r = Keeps c r.1

  report_boot-Keeps :
      (magic mbi : ℕ) (s : Console S)
      → Keeps c s
      → Holds KeepsEnd (report_boot fuel memory magic mbi s)
  unfolding report_boot
  report_boot-Keeps magic mbi s h =
      if-Holds (magic == multiboot_bootloader_magic)
        (bind-Holds _ (show_info-Keeps mbi s h) (λ b hc.
          if-Holds (check_flag (load32 memory mbi) 4 && check_flag (load32 memory mbi) 5)
            (map-Holds _ (show_words-Keeps _ _ b hc) (λ d hd. hd))
            (map-Holds _ (show_maps-Keeps mbi b hc) (λ d hd. hd))))
        (map-Holds _ (show_words-Keeps _ _ s h) (λ d hd. hd))

self-Holds : {A : Type 0} (o : Option A) → Holds (λ a. o ≡ some a) o
self-Holds none = no_result
self-Holds (some a) = has_result refl

-- What `keyboard_init` does not touch, and `keyInt`.
keyboard_init_lem :
    (m : Machine) (s : Console m.State)
    → ((keyboard_init m s).kernel ≡ s.kernel)
      × ((keyboard_init m s).lines ≡ s.lines)
      × ((keyboard_init m s).key_int ≡ 0)
unfolding keyboard_init
keyboard_init_lem m s = either ((m.inb s.ports 0x64).0 % 2 == 0) _ _
  where
    either :
        (b : Bool) (x y : m.State)
        → let c = if b then record s { ports = x } else record s { ports = y } in
          (c.kernel ≡ s.kernel) × (c.lines ≡ s.lines) × (zero ≡ 0)
    either true x y = (refl, refl, refl)
    either false x y = (refl, refl, refl)

module _ (m : Machine) (linked : Linked) (st : Stack) where
  open m use {State}

  before_shell_lem :
      (s : System State)
      → let c = (before_shell m linked st (set_up m linked st s)).console in
        (c.kernel ≡ record s.console.kernel { which_term = 1 })
        × (c.lines ≡ s.console.lines)
        × (c.key_int ≡ 0)
  unfolding before_shell set_up
  before_shell_lem s =
      let (e, e', e'') = keyboard_init_lem m _ in
      (ap (λ (k : Kernel). let k' : Kernel = record k { which_term = 1 } in k') e, e', e'')

  -- `entry` where its messages end and its `sys_execute` comes to an outcome.
  pub entry-executed :
      (fuel : ℕ) (memory : Mem) (magic mbi : ℕ) (s : System State) (c : Console State) (o : Outcome)
      → let cleared = record s.console {
        screen = clear s.console.kernel.current_terminal s.console.screen;
      } in
        report_boot fuel memory magic mbi cleared ≡ some (true, c)
        → sys_execute fuel (bootblock memory mbi) st shell_line (record c.kernel { which_term = 1 })
          ≡ some o
        → entry m linked st fuel memory magic mbi s
          ≡ some (
              executed (before_shell m linked st (set_up m linked st (record s { console = c }))) o)
  unfolding entry
  entry-executed fuel memory magic mbi s c o e e' =
      rw
        (
          e,
          ap (sys_execute fuel (bootblock memory mbi) st shell_line)
                (before_shell_lem (record s { console = c })).0
              ∙ e',
        )
        refl

  -- What `entry` may come to from the system `s`, with the file system at `bblock`.
  abbrev pub IsBooted : Mem → System State → Booted State → Type 0
  IsBooted bblock s (refused c) = Keeps s.console c
  IsBooted bblock s (executed s' o) =
      (s'.console.kernel ≡ record s.console.kernel { which_term = 1 })
      × (s'.console.lines ≡ s.console.lines)
      × (s'.console.key_int ≡ 0)
      × ((k : Kernel) → o ≡ entered k → Reach m bblock (0, k) × IsTree k)

  entry-Holds :
      (fuel : ℕ) (memory : Mem) (magic mbi : ℕ) (s : System State)
      → s.console.kernel.pid_bitmap ≡ 0
      → Holds (IsBooted (bootblock memory mbi) s) (entry m linked st fuel memory magic mbi s)
  unfolding entry
  entry-Holds fuel memory magic mbi s z =
      bind-Holds _
        (report_boot-Keeps fuel memory s.console magic mbi _ (record {
          kernel = refl;
          lines = refl;
          key_int = refl;
          caps_set = refl;
          back = refl;
          ports = refl;
        }))
        (λ r h.
          let s' = before_shell m linked st (set_up m linked st (record s { console = r.1 })) in
          let (kept, lines, quiet) = before_shell_lem (record s { console = r.1 }) in
          let same : s'.console.kernel ≡ record s.console.kernel { which_term = 1 } =
            kept
            ∙ ap (λ (k : Kernel). let k' : Kernel = record k { which_term = 1 } in k') h.kernel in
          if-Holds r.0
            (map-Holds _
              (self-Holds (sys_execute fuel (bootblock memory mbi) st shell_line s'.console.kernel))
              (λ o e. (
                same,
                lines ∙ h.lines,
                quiet,
                (λ k eq.
                    let life : Reach m (bootblock memory mbi) (0, k) =
                      boot s'.console.kernel fuel st shell_line
                        (ap (λ (k : Kernel). k.pid_bitmap) same ∙ z)
                        (ap (λ (k : Kernel). k.which_term) same) (e ∙ ap some eq) in
                    (life, (Reach-IsSafe life).1)),
              )))
            (has_result h))

  -- What `entry` comes to, with no process in `pid_bitmap`, where its messages and its `sys_execute` end: either it is
  -- refused, and then nothing of the console but the screen has changed, not a port, a line or a variable of the kernel;
  -- or it executes the first shell, with `whichTerm` 1, the kernel's other variables and the lines as they were and `keyInt`
  -- 0, and then, if the shell starts, the kernel is in the first state of its life and the processes form a sound tree.
  pub entry-IsBooted :
      (fuel : ℕ) (memory : Mem) (magic mbi : ℕ) (s : System State) (b : Booted State)
      → s.console.kernel.pid_bitmap ≡ 0
      → entry m linked st fuel memory magic mbi s ≡ some b
      → IsBooted (bootblock memory mbi) s b
  entry-IsBooted fuel memory magic mbi s b z e =
      Holds-some (entry-Holds fuel memory magic mbi s z) e
