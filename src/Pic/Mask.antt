-- ===== src/Pic/Mask.antt =====
-- Which of the sixteen lines the mask functions and the end of interrupt change.
use Prim.Native.Nat.{bit_and, bit_or}
use cl_os.Prelude.{
  ℕ, ◌+◌, ◌-◌, ◌^◌, ◌<◌, ◌≡◌, refl, ◌==◌, leb, ltb, ◌&&◌, ◌||◌, true, false, if◌then◌else◌, arith,
  inl, inr, lt_or_ge, ==_iff,
}
use cl_os.Prelude.Bits.{bit, bit-clear, bit-set, all_below, all_below_sound}
use cl_os.Machine.{Machine}
use cl_os.Pic.{enable_irq, disable_irq, send_eoi}
use cl_os.Pic.Chip.{Chips}

byte_table :
    all_below 256
      (λ x. all_below 8 (λ l. ltb (bit_and x (255 - 2 ^ l)) 256 && ltb (bit_or x (2 ^ l)) 256))
    ≡ true
unfolding all_below
byte_table = refl

bytes_stay :
    (x l : ℕ) → x < 256 → l < 8 → (bit_and x (255 - 2 ^ l) < 256) × (bit_or x (2 ^ l) < 256)
bytes_stay x l hx hl = ground (
  arith,
  all_below_sound 8 (λ l. ltb (bit_and x (255 - 2 ^ l)) 256 && ltb (bit_or x (2 ^ l)) 256) l
      (all_below_sound 256 _ x byte_table hx) hl,
)

or_eoi_table : all_below 8 (λ l. bit_or 0x60 l == 0x60 + l) ≡ true
unfolding all_below
or_eoi_table = refl

or_eoi : (l : ℕ) → l < 8 → bit_or 0x60 l ≡ 0x60 + l
or_eoi l h = (==_iff _ _).0 (all_below_sound 8 _ l or_eoi_table h)

module _ (m : Machine) (c : Chips m) where
  -- 1 where the line `k` is masked.
  abbrev pub masked : m.State → ℕ → ℕ
  masked s k = if ltb k 8 then bit k (c.master s) else bit (k - 8) (c.slave s)

  -- After a write of `v` to the mask register of the slave, or of the master.
  masked_slave :
      (s : m.State) (v k : ℕ)
      → v < 256
      → masked (m.outb (m.inb s 0xa1).1 v 0xa1) k ≡ (if ltb k 8 then masked s k else bit (k - 8) v)
  masked_slave s v k h = ground (
    arith,
    c.write_slave (m.inb s 0xa1).1 v h,
    c.write_keeps_master (m.inb s 0xa1).1 v,
    c.read_keeps_master s 0xa1,
  )

  masked_master :
      (s : m.State) (v k : ℕ)
      → v < 256
      → masked (m.outb (m.inb s 0x21).1 v 0x21) k ≡ (if ltb k 8 then bit k v else masked s k)
  masked_master s v k h = ground (
    arith,
    c.write_master (m.inb s 0x21).1 v h,
    c.write_keeps_slave (m.inb s 0x21).1 v,
    c.read_keeps_slave s 0x21,
  )

  -- `enable_irq` unmasks its line and no other.
  pub masked-enable_irq :
      (irq k : ℕ) (s : m.State)
      → irq < 16
      → k < 16
      → masked (enable_irq m irq s) k ≡ (if k == irq then 0 else masked s k)
  unfolding enable_irq
  masked-enable_irq irq k s hi hk = elim (lt_or_ge irq 8) [
    | inl l ↦ ground (
      arith,
      c.read_master s,
      masked_master s (bit_and (c.master s) (255 - 2 ^ irq)) k
          (bytes_stay (c.master s) irq (c.master_byte s) l).0,
      bit-clear irq k (c.master s) l,
      c.master_byte s,
    )
    | inr g ↦ ground (
      arith,
      c.read_slave s,
      masked_slave s (bit_and (c.slave s) (255 - 2 ^ (irq - 8))) k
          (bytes_stay (c.slave s) (irq - 8) (c.slave_byte s) (omega arith)).0,
      bit-clear (irq - 8) (k - 8) (c.slave s) (omega arith),
      c.slave_byte s,
    )
  ]

  -- `disable_irq` masks its line and no other.
  pub masked-disable_irq :
      (irq k : ℕ) (s : m.State)
      → irq < 16
      → k < 16
      → masked (disable_irq m irq s) k ≡ (if k == irq then 1 else masked s k)
  unfolding disable_irq
  masked-disable_irq irq k s hi hk = elim (lt_or_ge irq 8) [
    | inl l ↦ ground (
      arith,
      c.read_master s,
      masked_master s (bit_or (c.master s) (2 ^ irq)) k
          (bytes_stay (c.master s) irq (c.master_byte s) l).1,
      bit-set irq k (c.master s) l,
      c.master_byte s,
    )
    | inr g ↦ ground (
      arith,
      c.read_slave s,
      masked_slave s (bit_or (c.slave s) (2 ^ (irq - 8))) k
          (bytes_stay (c.slave s) (irq - 8) (c.slave_byte s) (omega arith)).1,
      bit-set (irq - 8) (k - 8) (c.slave s) (omega arith),
      c.slave_byte s,
    )
  ]

  -- `send_eoi` ends the service of its line and, for a line of the slave, of the line 2 that the
  -- slave hangs on, and of no other.
  pub in_service-send_eoi :
      (irq k : ℕ) (s : m.State)
      → irq < 16
      → c.in_service (send_eoi m irq s) k
        ≡ (if k == irq || leb 8 irq && k == 2 then false else c.in_service s k)
  unfolding send_eoi
  in_service-send_eoi irq k s hi = elim (lt_or_ge irq 8) [
    | inl l ↦ ground (arith, or_eoi irq l, c.end_master s irq k)
    | inr g ↦ ground (
      arith,
      or_eoi (irq - 8) (omega arith),
      c.end_master (m.outb s (0x60 + (irq - 8)) 0xa0) 2 k,
      c.end_slave s (irq - 8) k,
    )
  ]
