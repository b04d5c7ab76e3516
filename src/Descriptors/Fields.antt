-- ===== src/Descriptors/Fields.antt =====
-- An address comes back from the fields of a descriptor.
use cl_os.Prelude.{ℕ, ◌+◌, ◌*◌, ◌^◌, ◌<◌, ◌≡◌, arith, ◌==◌, if◌then◌else◌}
use cl_os.Descriptors.{SegDesc, Segments, Labels, set_segments, IdtDesc}

-- What the processor reads: the base and the limit of a segment, and the address of a gate.
abbrev pub base : SegDesc → ℕ
base d = d.base_15_00 + 0x10000 * d.base_23_16 + 0x1000000 * d.base_31_24

abbrev pub limit : SegDesc → ℕ
limit d = d.seg_lim_15_00 + 0x10000 * d.seg_lim_19_16

abbrev pub address : IdtDesc → ℕ
address d = d.offset_15_00 + 0x10000 * d.offset_31_16

-- After the boot code has set the segments, with 32-bit addresses and 20-bit sizes: the entries
-- of the table at `KERNEL_LDT` and at `KERNEL_TSS` have the addresses and the sizes of the local table and
-- of the task state, they are present, of privilege 0, and of the types 2 and 9; all other entries
-- are as before.
pub set_segments_lem :
    (l : Labels) (d d' : SegDesc) (s : Segments)
    → l.ldt < 2 ^ 32
    → l.tss < 2 ^ 32
    → l.ldt_size < 2 ^ 20
    → l.tss_size < 2 ^ 20
    → let gdt = (set_segments l d d' s).gdt in
      ((base (gdt 0x38) ≡ l.ldt) × (limit (gdt 0x38) ≡ l.ldt_size) × ((gdt 0x38).type_field ≡ 2))
      × ((base (gdt 0x30) ≡ l.tss) × (limit (gdt 0x30) ≡ l.tss_size) × ((gdt 0x30).type_field ≡ 9))
      × (((gdt 0x38).present ≡ 1)
          × ((gdt 0x38).dpl ≡ 0)
          × ((gdt 0x30).present ≡ 1)
          × ((gdt 0x30).dpl ≡ 0))
      × ((i : ℕ)
          → gdt i ≡ (if i == 0x38 then gdt 0x38 else if i == 0x30 then gdt 0x30 else s.gdt i))
unfolding set_segments
set_segments_lem l d d' s p q r t = (
  (omega arith, omega arith, omega arith),
  (omega arith, omega arith, omega arith),
  (omega arith, omega arith, omega arith, omega arith),
  (λ i. ground arith),
)
