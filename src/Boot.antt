-- ===== src/Boot.antt =====
-- `entry` of filesIWorkedOn/kernel.c, and the messages of the exceptions. The memory that the loader leaves is `memory`,
-- which the boot code only reads. The interrupts that come in behind `sti` are left out.
pub mod Exceptions
pub mod First
use mathlib.Core.Option
use cl_os.Prelude.{
  ℕ, zero, suc, ◌+◌, ◌-◌, ◌*◌, ◌/◌, ◌%◌, ◌^◌, ◌==◌, ltb, ◌&&◌, if◌then◌else◌, Bool, true, false,
  Mem, offset, load32, text, List, [], ◌∷◌, Option, none, some,
}
use cl_os.Prelude.Literal.{literal, ◌>>=◌}
use cl_os.Machine.{Machine}
use cl_os.Pic.{i8259_init}
use cl_os.Rtc.{rtc_init}
use cl_os.Pit.{pit_init, pit_set_freq}
use cl_os.Process.{Kernel, Stack, Outcome, sys_execute}
use cl_os.Screen.{clear}
use cl_os.Printf.{printf}
use cl_os.Paging.{Tables, initilize_paging}
use cl_os.Descriptors.{SegDesc, Segments, Labels, set_segments, Idt, Handlers, set_idt, squash}
use cl_os.Console.{Console, shell_line}
use cl_os.Console.Handler.{keyboard_init}

abbrev pub multiboot_bootloader_magic : ℕ
multiboot_bootloader_magic = 0x2badb002

abbrev pub check_flag : ℕ → ℕ → Bool
check_flag flags bit = flags / 2 ^ bit % 2 == 1

-- Parameter `i` of a call.
abbrev pub nth_word : List ℕ → ℕ → ℕ
nth_word [] i = 0
nth_word (w ∷ l) zero = w
nth_word (w ∷ l) (suc i) = nth_word l i

-- A byte as a `char`, in a word.
abbrev pub signed_char : ℕ → ℕ
signed_char b = if ltb b 128 then b else 2 ^ 32 - 256 + b

-- `printf` of words, whose pointers point into the memory.
unfoldable pub show_words : {S : Type 0} → ℕ → Mem → Mem → List ℕ → Console S → Option (Console S)
show_words fuel memory format words s =
    Option.map (λ r. record s { screen = r.1 })
      (printf s.kernel.current_terminal (s.kernel.pcbs s.kernel.cur).cur_terminal s.key_int
        (nth_word words) (offset memory) (text []) fuel format s.screen)

module _ {S : Type 0} (fuel : ℕ) (memory : Mem) where
  -- A message where a flag is set.
  unfoldable pub show_if : Bool → Mem → List ℕ → Console S → Option (Console S)
  show_if b format words s = if b then show_words fuel memory format words s else some s

  -- The first bytes of a module from `i` on, `k` of them.
  unfoldable pub show_bytes : ℕ → ℕ → ℕ → Console S → Option (Console S)
  show_bytes start i zero s = some s
  show_bytes start i (suc k) s =
      show_words fuel memory (literal "0x%x ") (signed_char (memory (start + i)) ∷ []) s
      >>= show_bytes start (i + 1) k

  -- The `while` over the modules: `mod` is the address of the one with the number `mod_count`, and `k` are left.
  unfoldable pub show_modules : ℕ → ℕ → ℕ → Console S → Option (Console S)
  show_modules mod_at mod_count zero s = some s
  show_modules mod_at mod_count (suc k) s0 = do
    let start = load32 memory mod_at
    s1 ←
        show_words fuel memory (literal "string in module %d is : %s\n")
          (mod_count ∷ load32 memory (mod_at + 8) ∷ []) s0
    s2 ←
        show_words fuel memory (literal "Module %d loaded at address: 0x%#x\n")
          (mod_count ∷ start ∷ []) s1
    s3 ←
        show_words fuel memory (literal "Module %d ends at address: 0x%#x\n")
          (mod_count ∷ load32 memory (mod_at + 4) ∷ []) s2
    s4 ← show_words fuel memory (literal "First few bytes of module:\n") [] s3
    s5 ← show_bytes start 0 16 s4
    s6 ← show_words fuel memory (literal "\n") [] s5
    show_modules (mod_at + 16) (mod_count + 1) k s6

  -- The `for` over the memory map, from the entry at `mmap` on.
  unfoldable pub show_mmap : ℕ → ℕ → ℕ → Console S → Option (Console S)
  show_mmap zero end_at mmap s = none
  show_mmap (suc rounds) end_at mmap s = elim (ltb mmap end_at) [
    | false ↦ some s
    | true ↦
        let word = λ (i : ℕ). load32 memory (mmap + i) in
        show_words fuel memory
          (literal
            " size = 0x%x,     base_addr = 0x%#x%#x\n     type = 0x%x,  length    = 0x%#x%#x\n")
          (word 0 ∷ word 8 ∷ word 4 ∷ word 20 ∷ word 16 ∷ word 12 ∷ []) s
        >>= show_mmap rounds end_at ((mmap + load32 memory mmap + 4) % 2 ^ 32)
  ]

  -- Up to the test of the bits 4 and 5.
  unfoldable pub show_info : ℕ → Console S → Option (Console S)
  show_info mbi s0 = do
    let flags = load32 memory mbi
    let field = λ (i : ℕ). load32 memory (mbi + i)
    s1 ← show_words fuel memory (literal "flags = 0x%#x\n") (flags ∷ []) s0
    s2 ←
        show_if (check_flag flags 0) (literal "mem_lower = %uKB, mem_upper = %uKB\n")
          (field 4 ∷ field 8 ∷ []) s1
    s3 ← show_if (check_flag flags 1) (literal "boot_device = 0x%#x\n") (field 12 ∷ []) s2
    s4 ← show_if (check_flag flags 2) (literal "cmdline = %s\n") (field 16 ∷ []) s3
    if check_flag flags 3 then show_modules (field 24) 0 (field 20) s4 else some s4

  -- Behind that test.
  unfoldable pub show_maps : ℕ → Console S → Option (Console S)
  show_maps mbi s0 = do
    let flags = load32 memory mbi
    let field = λ (i : ℕ). load32 memory (mbi + i)
    s1 ←
        show_if (check_flag flags 5)
          (literal "elf_sec: num = %u, size = 0x%#x, addr = 0x%#x, shndx = 0x%#x\n")
          (field 28 ∷ field 32 ∷ field 36 ∷ field 40 ∷ []) s0
    s2 ←
        show_if (check_flag flags 6) (literal "mmap_addr = 0x%#x, mmap_length = 0x%x\n")
          (field 48 ∷ field 44 ∷ []) s1
    if check_flag flags 6
        then show_mmap fuel ((field 48 + field 44) % 2 ^ 32) (field 48) s2
        else some s2

  -- The messages of `entry` in the order of the code: whether it goes on behind them.
  unfoldable pub report_boot : ℕ → ℕ → Console S → Option (Bool × Console S)
  report_boot magic mbi s =
      let flags = load32 memory mbi in
      let both = check_flag flags 4 && check_flag flags 5 in
      let wrong =
        Option.map (λ c. (false, c))
          (show_words fuel memory (literal "Invalid magic number: 0x%#x\n") (magic ∷ []) s) in
      let informed : Option (Bool × Console S) = show_info mbi s >>= λ c.
      if both
      then Option.map (λ d. (false, d))
          (show_words fuel memory (literal "Both bits 4 and 5 are set.\n") [] c)
      else Option.map (λ d. (true, d)) (show_maps mbi c) in
      if magic == multiboot_bootloader_magic then informed else wrong

-- What the boot code sets up besides the console.
pub record System (S : Type 0) : Type 0 where
  pub console : Console S
  pub segments : Segments
  pub idt : Idt
  pub tables : Tables

-- The labels and arrays of the linked kernel, and the variables that are not initialized.
pub record Linked : Type 0 where
  pub labels : Labels
  pub handlers : Handlers
  pub table_0 : ℕ
  pub table_term : ℕ
  pub ldt_desc : SegDesc
  pub tss_desc : SegDesc

-- `entry` comes back to the assembly, or gets to its `sys_execute`: what that did, and the system it was called in.
pub data Booted (S : Type 0) : Type 0 where
  refused : Console S → Booted S
  executed : System S → Outcome → Booted S

-- `bblock` is the start of the first module.
abbrev pub bootblock : Mem → ℕ → Mem
bootblock memory mbi = offset memory (load32 memory (load32 memory (mbi + 24)))

module _ (m : Machine) (linked : Linked) (st : Stack) where
  open m use {State}

  -- The descriptors, the devices, the page tables and the timer.
  unfoldable pub set_up : System State → System State
  set_up s =
      let c = s.console in
      let ports = pit_init m (rtc_init m (i8259_init m c.ports)) in
      let c' = keyboard_init m (record c { ports = ports }) in
      record {
        console = record c' { ports = (pit_set_freq m 0 25 c'.ports).1 };
        segments = set_segments linked.labels linked.ldt_desc linked.tss_desc s.segments;
        idt = squash linked.handlers (set_idt linked.handlers s.idt);
        tables = initilize_paging linked.table_0 linked.table_term s.tables;
      }

  -- `clear(); whichTerm = 0x01;`
  unfoldable pub before_shell : System State → System State
  before_shell s =
      let c = s.console in
      record s {
        console = record c {
          screen = clear c.kernel.current_terminal c.screen;
          kernel = record c.kernel { which_term = 1 };
        };
      }

  unfoldable pub entry : ℕ → Mem → ℕ → ℕ → System State → Option (Booted State)
  entry fuel memory magic mbi s =
      let c = s.console in
      report_boot fuel memory magic mbi
        (record c { screen = clear c.kernel.current_terminal c.screen })
      >>= λ (goes_on, c').
          let s' = before_shell (set_up (record s { console = c' })) in
          let shell_started =
            Option.map (executed s')
              (sys_execute fuel (bootblock memory mbi) st shell_line s'.console.kernel) in
          if goes_on then shell_started else some (refused c')
