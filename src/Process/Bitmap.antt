-- ===== src/Process/Bitmap.antt =====
-- The bits of `pid_bitmap`.
use Prim.Native.Nat.{bit_and}
use cl_os.Prelude.{
  ℕ, zero, suc, ◌+◌, ◌-◌, ◌%◌, ◌^◌, ◌≤◌, ◌<◌, ◌≡◌, refl, ◌==◌, ==_iff, if◌then◌else◌, none, some,
  arith, eq_or_ne, inl, inr, true,
}
use cl_os.Prelude.Bits.{bit, all_below, all_below_sound}
use cl_os.Process.{find_pid}

test_table :
    all_below 8 (λ l. all_below 256 (λ x. (if bit_and x (2 ^ l) == 0 then 0 else 1) == bit l x))
    ≡ true
unfolding all_below
test_table = refl

-- `pid_bitmap & (1 << l)` tests the bit `l`.
pub bit_test : (x l : ℕ) → x < 256 → l < 8 → (if bit_and x (2 ^ l) == 0 then 0 else 1) ≡ bit l x
bit_test x l hx hl =
    (==_iff _ _).0 (all_below_sound 256 _ x (all_below_sound 8 _ l test_table hl) hx)

drop_table :
    all_below 8 (λ l. all_below 8 (λ k. all_below 256 (λ x.
      if bit l x == 0
      then true
      else bit k ((x + 256 - 2 ^ l) % 256) == (if k == l then 0 else bit k x))))
    ≡ true
unfolding all_below
drop_table = refl

-- `pid_bitmap -= (1 << l)` clears the bit `l` where it is set.
pub bit-drop :
    (l k x : ℕ)
    → l < 8
    → k < 8
    → x < 256
    → bit l x ≡ 1
    → bit k ((x + 256 - 2 ^ l) % 256) ≡ (if k == l then 0 else bit k x)
bit-drop l k x hl hk hx e = ground (
  arith,
  all_below_sound 256
      (λ x.
        if bit l x == 0
        then true
        else bit k ((x + 256 - 2 ^ l) % 256) == (if k == l then 0 else bit k x))
      x (all_below_sound 8 _ k (all_below_sound 8 _ l drop_table hl) hk) hx,
)

find_pid_from :
    (x l p k : ℕ)
    → x < 256
    → p + k < 8
    → p ≤ l
    → l ≤ p + k
    → ((j : ℕ) → p ≤ j → j < l → bit j x ≡ 1)
    → bit l x ≡ 0
    → find_pid x p k ≡ some l
unfolding find_pid
find_pid_from x l p zero hx hp lo hi h z =
    let e : p ≡ l = omega arith in rw e (ground (arith, bit_test x l hx (omega arith)))
find_pid_from x l p (suc k) hx hp lo hi h z = elim (eq_or_ne p l) [
  | inl e ↦ rw e (ground (arith, bit_test x l hx (omega arith)))
  | inr ne ↦ ground (
    arith,
    h p (omega arith) (omega arith),
    bit_test x p hx (omega arith),
    find_pid_from x l (p + 1) k hx (omega arith) (omega arith) (omega arith)
        (λ j p' q'. h j (omega arith) q') z,
  )
]

find_pid-none_from :
    (x p k : ℕ)
    → x < 256
    → p + k < 8
    → ((j : ℕ) → p ≤ j → j ≤ p + k → bit j x ≡ 1)
    → find_pid x p k ≡ none
unfolding find_pid
find_pid-none_from x p zero hx hp h =
    ground (arith, h p (omega arith) (omega arith), bit_test x p hx (omega arith))
find_pid-none_from x p (suc k) hx hp h = ground (
  arith,
  h p (omega arith) (omega arith),
  bit_test x p hx (omega arith),
  find_pid-none_from x (p + 1) k hx (omega arith) (λ j p' q'. h j (omega arith) (omega arith)),
)

-- `sys_execute` takes the lowest pid below 6 whose bit is clear.
pub find_pid_lem :
    (x l : ℕ)
    → x < 256
    → l < 6
    → ((j : ℕ) → j < l → bit j x ≡ 1)
    → bit l x ≡ 0
    → find_pid x 0 5 ≡ some l
find_pid_lem x l hx hl h z =
    find_pid_from x l 0 5 hx (omega arith) (omega arith) (omega arith) (λ j _ q. h j q) z

-- With the six bits of `pid_bitmap` set, the search for a pid finds none.
pub find_pid_full : (x : ℕ) → x < 256 → ((j : ℕ) → j < 6 → bit j x ≡ 1) → find_pid x 0 5 ≡ none
find_pid_full x hx h = find_pid-none_from x 0 5 hx (omega arith) (λ j _ q. h j (omega arith))
