-- ===== src/Tests/Descriptors.antt =====
-- The boot code's descriptors at concrete addresses.
use cl_os.Prelude.{ℕ, ◌+◌, ◌*◌, ◌≡◌, ◌↔◌, refl, ◌==◌, if◌then◌else◌, true, false, arith}
use cl_os.Descriptors.{
  SegDesc, Segments, Labels, set_segments, IdtDesc, Idt, Handlers, set_idt, squash, exceptions,
  set_gates, set_entries,
}
use cl_os.Descriptors.Fields.{base, limit, address, set_segments_lem}
use cl_os.Descriptors.Table.{is_named, is_set, squash-set_idt}

abbrev pub blank_segment : SegDesc
blank_segment = record {
  seg_lim_15_00 = 0;
  base_15_00 = 0;
  base_23_16 = 0;
  type_field = 0;
  sys = 0;
  dpl = 3;
  present = 0;
  seg_lim_19_16 = 0;
  avail = 0;
  reserved = 0;
  opsize = 0;
  granularity = 0;
  base_31_24 = 0;
}

abbrev pub blank_segments : Segments
blank_segments = record {
  gdt = λ i. blank_segment;
  ldtr = 0;
  tr = 0;
  tss = record { esp0 = 0; ss0 = 0; ldt_segment_selector = 0 };
}

abbrev pub boot_labels : Labels
boot_labels = record { ldt = 0x40a1b0; ldt_size = 31; tss = 0x12345678; tss_size = 103 }

abbrev segments_after : ℕ → SegDesc
segments_after = (set_segments boot_labels blank_segment blank_segment blank_segments).gdt

set_segments_lem_example :
    ((base (segments_after 0x38) ≡ 0x40a1b0)
      × (limit (segments_after 0x38) ≡ 31)
      × ((segments_after 0x38).type_field ≡ 2))
    × ((base (segments_after 0x30) ≡ 0x12345678)
        × (limit (segments_after 0x30) ≡ 103)
        × ((segments_after 0x30).type_field ≡ 9))
    × (((segments_after 0x38).present ≡ 1)
        × ((segments_after 0x38).dpl ≡ 0)
        × ((segments_after 0x30).present ≡ 1)
        × ((segments_after 0x30).dpl ≡ 0))
    × ((i : ℕ)
        → segments_after i ≡ (
            if i == 0x38
            then segments_after 0x38
            else if i == 0x30
            then segments_after 0x30
            else blank_segment))
set_segments_lem_example =
    set_segments_lem boot_labels blank_segment blank_segment blank_segments (omega arith)
      (omega arith) (omega arith) (omega arith)

abbrev pub blank_gate : IdtDesc
blank_gate = record {
  offset_15_00 = 0;
  seg_selector = 0;
  reserved4 = 0;
  reserved3 = 0;
  reserved2 = 0;
  reserved1 = 0;
  size = 0;
  reserved0 = 0;
  dpl = 0;
  present = 0;
  offset_31_16 = 0;
}

abbrev pub blank_idt : Idt
blank_idt i = blank_gate

abbrev pub some_handlers : Handlers
some_handlers = record {
  exception_print = λ n. 0x400100 + n * 16;
  exception_print_general = 0x400300;
  exception_user_program = 0x400400;
  pit_handler_wrapper = 0x401000;
  keyboard_handler_wrapper = 0x402000;
  rtc_handler_wrapper = 0x403000;
  syscall_handler = 0x40abcd;
}

squash-set_idt_example :
    ((((squash some_handlers (set_idt some_handlers blank_idt) 14).present ≡ 1)
        × ((squash some_handlers (set_idt some_handlers blank_idt) 14).dpl ≡ 3))
      ↔ (◌≡◌ {A = ℕ} 14 0x80))
    × (is_named 14 ≡ true
        → address (squash some_handlers (set_idt some_handlers blank_idt) 14) ≡ 0x400400)
    × (is_set 14 ≡ true
        → is_named 14 ≡ false
        → address (squash some_handlers (set_idt some_handlers blank_idt) 14) ≡ 0x4001e0)
squash-set_idt_example = squash-set_idt some_handlers blank_idt 14 (omega arith) (omega arith) refl

-- Exception 15 is printed by the general handler, also in a user program.
reserved_exception : address (squash some_handlers (set_idt some_handlers blank_idt) 15) ≡ 0x400300
unfolding set_idt squash exceptions set_gates set_entries
reserved_exception = refl
