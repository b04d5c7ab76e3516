-- ===== src/Descriptors/Table.antt =====
-- Every vector of the interrupt descriptor table.
use cl_os.Prelude.{
  ℕ, zero, suc, ◌+◌, ◌/◌, ◌%◌, ◌^◌, ◌<◌, ◌≡◌, arith, ◌==◌, ltb, leb, ◌&&◌, ◌||◌, if◌then◌else◌,
  Bool, true, false, ◌↔◌,
}
use cl_os.Descriptors.{
  Handlers, IdtDesc, Idt, set_idt_entry, set_gate, set_gates, set_entries, exceptions, set_idt,
  squash,
}
use cl_os.Descriptors.Fields.{address}

-- An entry with all its fields.
abbrev pub gate : ℕ → ℕ → ℕ → IdtDesc
gate dpl trap handler = record {
  offset_15_00 = handler % 0x10000;
  seg_selector = 0x10;
  reserved4 = 0;
  reserved3 = trap;
  reserved2 = 1;
  reserved1 = 1;
  size = 1;
  reserved0 = 0;
  dpl = dpl;
  present = 1;
  offset_31_16 = handler / 0x10000 % 0x10000;
}

-- The exceptions with a number of their own.
abbrev pub is_named : ℕ → Bool
is_named v = ltb v 15 || (leb 16 v && ltb v 20)

abbrev pub handler_of : Handlers → ℕ → ℕ
handler_of h v =
    if is_named v
    then h.exception_print v
    else if ltb v 32
    then h.exception_print_general
    else if v == 0x20
    then h.pit_handler_wrapper
    else if v == 0x21
    then h.keyboard_handler_wrapper
    else if v == 0x28
    then h.rtc_handler_wrapper
    else h.syscall_handler

abbrev pub is_set : ℕ → Bool
is_set v = ltb v 32 || (v == 0x20 || (v == 0x21 || (v == 0x28 || v == 0x80)))

abbrev with_gate : IdtDesc → IdtDesc
with_gate d = record d {
  present = 1;
  dpl = 0;
  seg_selector = 0x10;
  reserved4 = 0;
  reserved3 = 0;
  reserved2 = 1;
  reserved1 = 1;
  size = 1;
  reserved0 = 0;
}

abbrev with_handler : IdtDesc → ℕ → IdtDesc
with_handler d handler = record d {
  offset_31_16 = handler / 0x10000 % 0x10000;
  offset_15_00 = handler % 0x10000;
}

set_gates_lem :
    (idt : Idt) (i k v : ℕ)
    → set_gates idt i k v ≡ (if leb i v && ltb v (i + k) then with_gate (idt v) else idt v)
unfolding set_gates
set_gates_lem idt i zero v = ground arith
set_gates_lem idt i (suc k) v = ground (arith, set_gates_lem (set_gate idt i 0 0) (i + 1) k v)

set_entries_lem :
    (f : ℕ → ℕ) (idt : Idt) (i k v : ℕ)
    → set_entries f idt i k v
      ≡ (if leb i v && ltb v (i + k) then with_handler (idt v) (f v) else idt v)
unfolding set_entries
set_entries_lem f idt i zero v = ground arith
set_entries_lem f idt i (suc k) v =
    ground (arith, set_entries_lem f (set_idt_entry idt i (f i)) (i + 1) k v)

exceptions_lem :
    (h : Handlers) (idt : Idt) (v : ℕ)
    → exceptions h idt v ≡ (if ltb v 32 then gate 0 0 (handler_of h v) else idt v)
unfolding exceptions
exceptions_lem h idt v =
    let gates = set_gates idt 0 32 in
    let low = set_entries h.exception_print gates 0 15 in
    let high = set_entries h.exception_print low 16 4 in
    let mid = set_idt_entry high 15 h.exception_print_general in
    ground (
      arith,
      set_gates_lem idt 0 32 v,
      set_entries_lem h.exception_print gates 0 15 v,
      set_entries_lem h.exception_print low 16 4 v,
      set_entries_lem (λ i. h.exception_print_general) mid 20 12 v,
    )

-- `set_idt`: the entries of the vectors 0 to 31, 0x20, 0x21, 0x28 and 0x80 are as the code means them,
-- with the address of the vector's own handler (for a 32-bit address) in the kernel's code segment; the
-- system call's entry is a trap gate of privilege 3, the others are interrupt gates of privilege 0; every
-- other entry is as before.
pub set_idt_lem :
    (h : Handlers) (idt : Idt) (v : ℕ)
    → handler_of h v < 2 ^ 32
    → let call = v == 0x80 in
      (set_idt h idt v ≡ (
        if is_set v
        then gate (if call then 3 else 0) (if call then 1 else 0) (handler_of h v)
        else idt v))
      × (address (gate 0 0 (handler_of h v)) ≡ handler_of h v)
unfolding set_idt
set_idt_lem h idt v p = (ground (arith, exceptions_lem h idt v), omega arith)

-- `squash` on any table.
squash_lem :
    (h : Handlers) (idt : Idt) (v : ℕ)
    → h.exception_user_program < 2 ^ 32
    → (squash h idt v
        ≡ (if is_named v then with_handler (idt v) h.exception_user_program else idt v))
      × (address (squash h idt v)
          ≡ (if is_named v then h.exception_user_program else address (idt v)))
unfolding squash
squash_lem h idt v p =
    let low = set_entries (λ i. h.exception_user_program) idt 0 15 in
    let e = set_entries_lem (λ i. h.exception_user_program) idt 0 15 v in
    let e' = set_entries_lem (λ i. h.exception_user_program) low 16 4 v in
    (ground (arith, e, e'), ground (arith, e, e'))

-- At the end of the boot code, on a table that had no present entry and with a 32-bit handler for
-- `exception_user_program`: a user program can enter the kernel by an interrupt of its own, that is by an
-- entry that is present and of privilege 3, through vector 0x80 and no other, and the named exceptions go to
-- `exception_user_program`.
pub squash-set_idt :
    (h : Handlers) (idt : Idt) (v : ℕ)
    → h.exception_user_program < 2 ^ 32
    → handler_of h v < 2 ^ 32
    → (idt v).present ≡ 0
    → let d = squash h (set_idt h idt) v in
      (((d.present ≡ 1) × (d.dpl ≡ 3)) ↔ (v ≡ 0x80))
      × (is_named v ≡ true → address d ≡ h.exception_user_program)
      × (is_set v ≡ true → is_named v ≡ false → address d ≡ handler_of h v)
squash-set_idt h idt v p q none_there =
    let (e, e') = squash_lem h (set_idt h idt) v p in
    let (f, f') = set_idt_lem h idt v q in
    (
      ((λ (a, b). ground (arith, e, f)), (λ r. ground (arith, e, f))),
      (λ a. ground (arith, e')),
      (λ a b. ground (arith, e', f, f')),
    )
