-- ===== src/Strings/Compare.antt =====
-- What `strncmp` decides.
use cl_os.Prelude.{
  ℕ, zero, suc, ◌+◌, ◌≤◌, ◌<◌, ◌≡◌, refl, ◌≢◌, ◌↔◌, inl, inr, pos, diff8-eq, diff8_self, Mem,
  IsBytes, arith, eq_or_ne,
}
use cl_os.Strings.{strncmp_from, strncmp}

-- Equal at every index below `b + k` that no NUL of the first string from `b` on precedes.
abbrev pub AgreeFrom : Mem → Mem → ℕ → ℕ → Type 0
AgreeFrom s1 s2 b k =
    (i : ℕ) → b ≤ i → i < b + k → ((j : ℕ) → b ≤ j → j < i → s1 j ≢ 0) → s1 i ≡ s2 i

AgreeFrom-of_zero :
    (s1 s2 : Mem)
    → IsBytes s1
    → IsBytes s2
    → (b k : ℕ) → strncmp_from s1 s2 b k ≡ pos 0
    → AgreeFrom s1 s2 b k
unfolding strncmp_from
AgreeFrom-of_zero s1 s2 h1 h2 b zero e i le lt nz = absurd (omega arith)
AgreeFrom-of_zero s1 s2 h1 h2 b (suc k) e i le lt nz = elim (eq_or_ne i b) [
  | inl p ↦ ground (arith, diff8-eq (s1 b) (s2 b) (h1 b) (h2 b))
  | inr p ↦ ground (
    arith,
    nz b,
    diff8-eq (s1 b) (s2 b) (h1 b) (h2 b),
    λ (e' : strncmp_from s1 s2 (b + 1) k ≡ pos 0).
        AgreeFrom-of_zero s1 s2 h1 h2 (b + 1) k e' i (omega arith) (omega arith)
          (λ j lj. nz j (omega arith)),
  )
]

zero_of_AgreeFrom : (s1 s2 : Mem) (b k : ℕ) → AgreeFrom s1 s2 b k → strncmp_from s1 s2 b k ≡ pos 0
unfolding strncmp_from
zero_of_AgreeFrom s1 s2 b zero h = refl
zero_of_AgreeFrom s1 s2 b (suc k) h = elim (eq_or_ne (s1 b) 0) [
  | inl z ↦ ground (arith, first, diff8_self (s1 b))
  | inr nz ↦ ground (arith, first, zero_of_AgreeFrom s1 s2 (b + 1) k (later nz))
]
  where
    first : s1 b ≡ s2 b
    first = h b (omega arith) (omega arith) (λ j l l'. absurd (omega arith))

    -- Past a byte that is not NUL the rest agrees as well.
    later : s1 b ≢ 0 → AgreeFrom s1 s2 (b + 1) k
    later nz i le lt nz' = h i (omega arith) (omega arith) (λ j l l'. elim (eq_or_ne j b) [
      | inl e ↦ (λ z. nz (rw e at z))
      | inr ne ↦ nz' j (omega arith) l'
    ])

-- `strncmp` returns 0 exactly when the first `n` bytes agree up to a NUL.
pub strncmp_zero_iff :
    (s1 s2 : Mem) (n : ℕ)
    → IsBytes s1
    → IsBytes s2
    → (strncmp s1 s2 n ≡ pos 0) ↔ AgreeFrom s1 s2 0 n
unfolding strncmp
strncmp_zero_iff s1 s2 n h1 h2 = (AgreeFrom-of_zero s1 s2 h1 h2 0 n, zero_of_AgreeFrom s1 s2 0 n)
