-- ===== src/Descriptors.antt =====
-- The descriptors of filesTeamWorkedOn/x86_desc.h, and the interrupt descriptor table that `entry` of
-- filesIWorkedOn/kernel.c fills. The handlers are assembly: their addresses are the record `Handlers`. A
-- mask and a shift of an address are written with `%` and `/`.
pub mod Fields
pub mod Table
use cl_os.Prelude.{ℕ, zero, suc, ◌+◌, ◌/◌, ◌%◌, ◌==◌, if◌then◌else◌}

abbrev pub kernel_cs : ℕ
kernel_cs = 0x10

abbrev pub kernel_ds : ℕ
kernel_ds = 0x18

abbrev pub kernel_ldt : ℕ
kernel_ldt = 0x38

abbrev pub kernel_tss : ℕ
kernel_tss = 0x30

abbrev pub tss_size : ℕ
tss_size = 104

-- `seg_desc_t`
pub record SegDesc : Type 0 where
  pub seg_lim_15_00 : ℕ
  pub base_15_00 : ℕ
  pub base_23_16 : ℕ
  pub type_field : ℕ
  pub sys : ℕ
  pub dpl : ℕ
  pub present : ℕ
  pub seg_lim_19_16 : ℕ
  pub avail : ℕ
  pub reserved : ℕ
  pub opsize : ℕ
  pub granularity : ℕ
  pub base_31_24 : ℕ

-- `x & 0xFFFF`, and `(x & 0xFFFF0000) >> 16`
abbrev pub low_half : ℕ → ℕ
low_half x = x % 0x10000

abbrev pub high_half : ℕ → ℕ
high_half x = x / 0x10000 % 0x10000

-- The macros have the same body.
unfoldable pub set_ldt_params : SegDesc → ℕ → ℕ → SegDesc
set_ldt_params d addr lim = record d {
  base_31_24 = addr / 0x1000000 % 0x100;
  base_23_16 = addr / 0x10000 % 0x100;
  base_15_00 = low_half addr;
  seg_lim_19_16 = lim / 0x10000 % 0x10;
  seg_lim_15_00 = low_half lim;
}

unfoldable pub set_tss_params : SegDesc → ℕ → ℕ → SegDesc
set_tss_params d addr lim = record d {
  base_31_24 = addr / 0x1000000 % 0x100;
  base_23_16 = addr / 0x10000 % 0x100;
  base_15_00 = low_half addr;
  seg_lim_19_16 = lim / 0x10000 % 0x10;
  seg_lim_15_00 = low_half lim;
}

-- The LDT entry; `d` is the uninitialized variable, `ldt` the address and `size` is `ldt_size`.
unfoldable pub the_ldt_desc : SegDesc → ℕ → ℕ → SegDesc
unfolding set_ldt_params
the_ldt_desc d ldt size =
    set_ldt_params
      (record d {
        granularity = 0;
        opsize = 1;
        reserved = 0;
        avail = 0;
        present = 1;
        dpl = 0;
        sys = 0;
        type_field = 2;
      })
      ldt size

unfoldable pub the_tss_desc : SegDesc → ℕ → ℕ → SegDesc
unfolding set_tss_params
the_tss_desc d tss size =
    set_tss_params
      (record d {
        granularity = 0;
        opsize = 0;
        reserved = 0;
        avail = 0;
        seg_lim_19_16 = 0;
        present = 1;
        dpl = 0;
        sys = 0;
        type_field = 9;
        seg_lim_15_00 = tss_size;
      })
      tss size

-- The fields of `tss` that the boot code sets.
pub record TaskState : Type 0 where
  pub esp0 : ℕ
  pub ss0 : ℕ
  pub ldt_segment_selector : ℕ

-- `gdt` is the table of segment descriptors by selector, `ldtr` and `tr` the registers that `lldt` and `ltr`
-- load.
pub record Segments : Type 0 where
  pub gdt : ℕ → SegDesc
  pub ldtr : ℕ
  pub tr : ℕ
  pub tss : TaskState

abbrev pub set_desc : (ℕ → SegDesc) → ℕ → SegDesc → ℕ → SegDesc
set_desc gdt selector d i = if i == selector then d else gdt i

-- The addresses and sizes that filesTeamWorkedOn/x86_desc.S defines.
pub record Labels : Type 0 where
  pub ldt : ℕ
  pub ldt_size : ℕ
  pub tss : ℕ
  pub tss_size : ℕ

-- Both blocks; `d` and `d'` are the uninitialized variables. `ldt_desc_ptr` and `tss_desc_ptr` are the entries of the table at
-- `KERNEL_LDT` and `KERNEL_TSS`.
unfoldable pub set_segments : Labels → SegDesc → SegDesc → Segments → Segments
unfolding the_ldt_desc the_tss_desc
set_segments l d d' s = record {
  gdt =
      set_desc (set_desc s.gdt kernel_ldt (the_ldt_desc d l.ldt l.ldt_size)) kernel_tss
        (the_tss_desc d' l.tss l.tss_size);
  ldtr = kernel_ldt;
  tr = kernel_tss;
  tss = record { esp0 = 0x800000; ss0 = kernel_ds; ldt_segment_selector = kernel_ldt };
}

-- `idt_desc_t`
pub record IdtDesc : Type 0 where
  pub offset_15_00 : ℕ
  pub seg_selector : ℕ
  pub reserved4 : ℕ
  pub reserved3 : ℕ
  pub reserved2 : ℕ
  pub reserved1 : ℕ
  pub size : ℕ
  pub reserved0 : ℕ
  pub dpl : ℕ
  pub present : ℕ
  pub offset_31_16 : ℕ

abbrev pub Idt : Type 0
Idt = ℕ → IdtDesc

-- `exception_print n` is the address of `exception_printN`.
pub record Handlers : Type 0 where
  pub exception_print : ℕ → ℕ
  pub exception_print_general : ℕ
  pub exception_user_program : ℕ
  pub pit_handler_wrapper : ℕ
  pub keyboard_handler_wrapper : ℕ
  pub rtc_handler_wrapper : ℕ
  pub syscall_handler : ℕ

unfoldable pub set_idt_entry : Idt → ℕ → ℕ → Idt
set_idt_entry idt v handler i =
    if i == v
    then record (idt v) { offset_31_16 = high_half handler; offset_15_00 = low_half handler }
    else idt i

-- The nine assignments to `idt[v]`; `dpl` and `reserved3` are the only values that differ.
unfoldable pub set_gate : Idt → ℕ → ℕ → ℕ → Idt
set_gate idt v dpl trap i =
    if i == v
    then record (idt v) {
      present = 1;
      dpl = dpl;
      seg_selector = kernel_cs;
      reserved4 = 0;
      reserved3 = trap;
      reserved2 = 1;
      reserved1 = 1;
      size = 1;
      reserved0 = 0;
    }
    else idt i

-- `for (i = 0; i < 32; i++)`, from `i` on, with `k` rounds left.
unfoldable pub set_gates : Idt → ℕ → ℕ → Idt
unfolding set_gate
set_gates idt i zero = idt
set_gates idt i (suc k) = set_gates (set_gate idt i 0 0) (i + 1) k

-- `SET_IDT_ENTRY(idt[i], ...)` for the vectors from `i` on, `k` of them.
unfoldable pub set_entries : (ℕ → ℕ) → Idt → ℕ → ℕ → Idt
unfolding set_idt_entry
set_entries handler idt i zero = idt
set_entries handler idt i (suc k) = set_entries handler (set_idt_entry idt i (handler i)) (i + 1) k

-- A vector of a device or of the system calls.
unfoldable pub set_vector : Idt → ℕ → ℕ → ℕ → ℕ → Idt
unfolding set_gate set_idt_entry
set_vector idt v dpl trap handler = set_idt_entry (set_gate idt v dpl trap) v handler

unfoldable pub exceptions : Handlers → Idt → Idt
unfolding set_idt_entry
exceptions h idt =
    let printing =
      set_entries h.exception_print (set_entries h.exception_print (set_gates idt 0 32) 0 15) 16
        4 in
    set_entries (λ i. h.exception_print_general)
      (set_idt_entry printing 15 h.exception_print_general) 20 12

unfoldable pub set_idt : Handlers → Idt → Idt
unfolding set_vector
set_idt h idt =
    let pit = set_vector (exceptions h idt) 0x20 0 0 h.pit_handler_wrapper in
    let keyboard = set_vector pit 0x21 0 0 h.keyboard_handler_wrapper in
    let rtc = set_vector keyboard 0x28 0 0 h.rtc_handler_wrapper in
    set_vector rtc 0x80 3 1 h.syscall_handler

-- The end of `entry`: the exceptions of user programs.
unfoldable pub squash : Handlers → Idt → Idt
squash h idt =
    set_entries (λ i. h.exception_user_program)
      (set_entries (λ i. h.exception_user_program) idt 0 15) 16 4
