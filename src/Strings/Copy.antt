-- ===== src/Strings/Copy.antt =====
-- What `strlen`, `strcpy` and `strncpy` leave in memory, and that they end.
use cl_os.Prelude.{
  ℕ, zero, suc, ◌+◌, leb, ltb, ◌==◌, ◌&&◌, if◌then◌else◌, refl, ◌≤◌, ◌<◌, ◌≡◌, ◌≢◌, inl, inr, some,
  Mem, store, arith, eq_or_ne,
}
use cl_os.Strings.{strlen_from, strlen, strcpy_from, strcpy, pad_from, strncpy_from, strncpy}

-- The string at `s`, read from index `b` on, ends at index `l`.
pub record EndsAt (s : Mem) (b l : ℕ) : Type 0 where
  pub later : b ≤ l
  pub nul : s l ≡ 0
  pub full : (j : ℕ) → b ≤ j → j < l → s j ≢ 0

pub EndsAt-suc : {s : Mem} {b l : ℕ} → EndsAt s b l → b ≢ l → EndsAt s (b + 1) l
EndsAt-suc e ne = record {
  later = omega (arith, e.later);
  nul = e.nul;
  full = λ j p q. e.full j (omega arith) q;
}

strlen_from_lem :
    (fuel : ℕ) (s : Mem) (b l : ℕ) → EndsAt s b l → l < b + fuel → strlen_from fuel s b ≡ some l
unfolding strlen_from
strlen_from_lem zero s b l e h = absurd (omega (arith, e.later))
strlen_from_lem (suc fuel) s b l e h = elim (eq_or_ne b l) [
  | inl p ↦ ground (arith, e.nul)
  | inr p ↦ ground (
    arith,
    e.full b (omega arith) (omega (arith, e.later)),
    strlen_from_lem fuel s (b + 1) l (EndsAt-suc e p) (omega arith),
  )
]

-- `strlen` ends, and returns the index of the first NUL.
pub strlen_lem : (fuel : ℕ) (s : Mem) (l : ℕ) → EndsAt s 0 l → l < fuel → strlen fuel s ≡ some l
unfolding strlen
strlen_lem fuel s l e h = strlen_from_lem fuel s 0 l e (omega arith)

-- `r` is `dest` with the bytes of `src` from `b` to `l`, both included.
abbrev Copied : Mem → Mem → ℕ → ℕ → Mem → Type 0
Copied dest src b l r =
    ((i : ℕ) → b ≤ i → i ≤ l → r i ≡ src i)
    × ((i : ℕ) → i < b → r i ≡ dest i)
    × ((i : ℕ) → l < i → r i ≡ dest i)

strcpy_from_lem :
    (fuel : ℕ) (dest src : Mem) (b l : ℕ)
    → EndsAt src b l
    → l < b + fuel
    → (r : Mem) × (strcpy_from fuel dest src b ≡ some r) × Copied dest src b l r
unfolding strcpy_from
strcpy_from_lem zero dest src b l e h = absurd (omega (arith, e.later))
strcpy_from_lem (suc fuel) dest src b l e h = elim (eq_or_ne b l) [
  | inl p ↦ (
    store dest b 0,
    ground (arith, e.nul),
    ((λ i q q'. ground (arith, e.nul)), (λ i q. ground arith), (λ i q. ground arith)),
  )
  | inr p ↦
      let (r, eq, (mid, low, high)) =
        strcpy_from_lem fuel (store dest b (src b)) src (b + 1) l (EndsAt-suc e p) (omega arith) in
      (
        r,
        ground (arith, eq, e.full b (omega arith) (omega (arith, e.later))),
        (
          (λ i q q'. ground (arith, mid i, low i)),
          (λ i q. ground (arith, low i)),
          (λ i q. ground (arith, e.later, high i)),
        ),
      )
]

-- `strcpy` ends, copies the string with its NUL, and writes nothing behind it.
pub strcpy_lem :
    (fuel : ℕ) (dest src : Mem) (l : ℕ)
    → EndsAt src 0 l
    → l < fuel
    → (r : Mem) × (strcpy fuel dest src ≡ some r)
      × ((i : ℕ) → r i ≡ (if leb i l then src i else dest i))
unfolding strcpy
strcpy_lem fuel dest src l e h =
    let (r, eq, (mid, low, high)) = strcpy_from_lem fuel dest src 0 l e (omega arith) in
    (r, eq, (λ i. ground (arith, mid i, high i)))

pad_from_lem :
    (dest : Mem) (b k i : ℕ)
    → ((b ≤ i) → (i < b + k) → pad_from dest b k i ≡ 0)
      × ((i < b) → pad_from dest b k i ≡ dest i)
      × ((b + k ≤ i) → pad_from dest b k i ≡ dest i)
unfolding pad_from
pad_from_lem dest b zero i = ground arith
pad_from_lem dest b (suc k) i = ground (arith, pad_from_lem (store dest b 0) (b + 1) k i)

-- Character `i` of the string at `s`: NUL from the first NUL on.
abbrev pub char_of : Mem → ℕ → ℕ
char_of s zero = s 0
char_of s (suc i) = if char_of s i == 0 then 0 else s (suc i)

-- The same with what the loop knows: from index `b` on, with all before it full.
abbrev IsFull : Mem → ℕ → Type 0
IsFull s b = (j : ℕ) → j < b → s j ≢ 0

IsFull-suc : (s : Mem) (b : ℕ) → IsFull s b → s b ≢ 0 → IsFull s (b + 1)
IsFull-suc s b h nz j p = elim (eq_or_ne j b) [
  | inl e ↦ (λ z. nz (rw e at z))
  | inr ne ↦ h j (omega arith)
]

pub char_of_full : (s : Mem) (i : ℕ) → ((j : ℕ) → j ≤ i → s j ≢ 0) → char_of s i ≡ s i
char_of_full s zero h = refl
char_of_full s (suc i) h = ground (arith, char_of_full s i (λ j p. h j (omega arith)), h i)

char_of_nul : (s : Mem) (i j : ℕ) → j ≤ i → s j ≡ 0 → char_of s i ≡ 0
char_of_nul s zero j p z = let e : j ≡ 0 = omega arith in rw e at z
char_of_nul s (suc i) j p z = elim (eq_or_ne j (suc i)) [
  | inl e ↦ ground (arith, (rw e at z))
  | inr ne ↦ ground (arith, char_of_nul s i j (omega arith) z)
]

strncpy_from_lem :
    (dest src : Mem) (b k i : ℕ)
    → IsFull src b
    → strncpy_from dest src b k i ≡ (if leb b i && ltb i (b + k) then char_of src i else dest i)
unfolding strncpy_from
strncpy_from_lem dest src b zero i h = ground arith
strncpy_from_lem dest src b (suc k) i h = elim (eq_or_ne (src b) 0) [
  | inl z ↦ ground (arith, z, pad_from_lem dest b (suc k) i, char_of_nul src i b)
  | inr nz ↦ ground (
    arith,
    nz,
    char_of_full src b (λ j p. IsFull-suc src b h nz j (omega arith)),
    strncpy_from_lem (store dest b (src b)) src (b + 1) k i (IsFull-suc src b h nz),
  )
]

-- `strncpy` writes exactly the first `n` bytes: the characters of the source, NULs from its first
-- NUL on.
pub strncpy_lem :
    (dest src : Mem) (n i : ℕ) → strncpy dest src n i ≡ (if ltb i n then char_of src i else dest i)
unfolding strncpy
strncpy_lem dest src n i =
    ground (arith, strncpy_from_lem dest src 0 n i (λ j p. absurd (omega arith)))
