-- ===== src/Fs/Lookup/Find.antt =====
-- Which directory entry a lookup finds, and when it finds none.
use cl_os.Prelude.{
  ℕ, leb, if◌then◌else◌, zero, suc, ◌+◌, ◌*◌, ◌≤◌, ◌<◌, ◌≡◌, ◌≢◌, ◌↔◌, inl, inr, Mem, IsBytes, ℤ,
  pos, minus_one, Option, none, some, true, false, arith, eq_or_ne, refl, sym, ◌∙◌,
}
use cl_os.Strings.{strncmp}
use cl_os.Strings.Compare.{AgreeFrom, strncmp_zero_iff}
use cl_os.Strings.Copy.{EndsAt, strcpy_lem}
use cl_os.Fs.Image.{file_name, file_type, inode_num}
use cl_os.Fs.Lookup.{Dentry, same_name, empty_name, is_zero, find_name, read_dentry_by_name}

pub is_zero_iff : (z : ℤ) → (is_zero z ≡ true) ↔ (z ≡ pos 0)
is_zero_iff z = ground arith

-- Two names are the same in the first 32 bytes, up to a NUL.
abbrev pub SameName : Mem → Mem → Type 0
SameName a b = AgreeFrom a b 0 32

same_name_iff : (a b : Mem) → IsBytes a → IsBytes b → (same_name a b ≡ true) ↔ SameName a b
unfolding same_name
same_name_iff a b ha hb =
    let s = strncmp_zero_iff a b 32 ha hb in
    let z = is_zero_iff (strncmp a b 32) in ((λ h. s.0 (z.0 h)), (λ h. z.1 (s.1 h)))

same_name_empty : (a : Mem) → IsBytes a → (same_name a empty_name ≡ true) ↔ (a 0 ≡ 0)
same_name_empty a ha =
    let s = same_name_iff a empty_name ha (λ i. omega arith) in
    (
      (λ h. s.0 h 0 (omega arith) (omega arith) (λ j p q. absurd (omega arith))),
      (λ z. s.1 (λ i p q nz. elim (eq_or_ne i 0) [
        | inl e ↦ ground arith
        | inr ne ↦ absurd (nz 0 (omega arith) (omega arith) z)
      ])),
    )

module _ (bblock : Mem) (bytes : IsBytes bblock) (fname : Mem) (fbytes : IsBytes fname) where
  -- The entry `d` is one that the search passes: it has a name, and another one.
  abbrev pub IsPassed : ℕ → Type 0
  IsPassed d = (file_name bblock d 0 ≢ 0) × ¬ SameName (file_name bblock d) fname

  passed_tests :
      (d : ℕ)
      → IsPassed d
      → (same_name (file_name bblock d) fname ≡ false)
        × (same_name (file_name bblock d) empty_name ≡ false)
  passed_tests d (p, q) =
      let b = λ (i : ℕ). bytes (64 + 64 * d + i) in
      (
        ground (arith, q, (same_name_iff (file_name bblock d) fname b fbytes).0),
        ground (arith, p, (same_name_empty (file_name bblock d) b).0),
      )

  -- What the search gives when it comes to the entry `l`, where it ends.
  abbrev Ends : ℕ → Option ℕ → Type 0
  Ends l none = (file_name bblock l 0 ≡ 0) × ¬ SameName (file_name bblock l) fname
  Ends l (some d) = (d ≡ l) × SameName (file_name bblock l) fname

  find_name-Ends :
      (l : ℕ) (r : Option ℕ) (fuel : ℕ) → Ends l r → find_name bblock (suc fuel) fname l ≡ some r
  unfolding find_name
  find_name-Ends l none fuel (z, q) =
      let b = λ (i : ℕ). bytes (64 + 64 * l + i) in
      ground (
        arith,
        z,
        q,
        (same_name_iff (file_name bblock l) fname b fbytes).0,
        (same_name_empty (file_name bblock l) b).1,
      )
  find_name-Ends l (some d) fuel (e, q) =
      let b = λ (i : ℕ). bytes (64 + 64 * l + i) in
      ground (arith, q, (same_name_iff (file_name bblock l) fname b fbytes).1)

  find_name_pass :
      (fuel d : ℕ)
      → IsPassed d
      → find_name bblock (suc fuel) fname d ≡ find_name bblock fuel fname (d + 1)
  unfolding find_name
  find_name_pass fuel d h = ground (arith, passed_tests d h)

  find_name_lem :
      (l : ℕ) (r : Option ℕ) (fuel d : ℕ)
      → d ≤ l
      → l < d + fuel
      → ((j : ℕ) → d ≤ j → j < l → IsPassed j)
      → Ends l r
      → find_name bblock fuel fname d ≡ some r
  find_name_lem l r zero d p q h e = absurd (omega arith)
  find_name_lem l r (suc fuel) d p q h e = elim (eq_or_ne d l) [
    | inl q' ↦ rw q' (find_name-Ends l r fuel e)
    | inr ne ↦ rw (find_name_pass fuel d (h d (omega arith) (omega arith))) (
        find_name_lem l r fuel (d + 1) (omega arith) (omega arith) (λ j p' q'. h j (omega arith) q')
          e)
  ]

  -- A name that is not empty, and an entry `l` that the search reaches with its fuel: where `l` has
  -- that name and every entry before it another one, not empty, the lookup returns 0 with the type,
  -- the inode and the name of `l`.
  pub read_dentry_by_name_found :
      (fuel l e : ℕ) (dentry : Dentry)
      → fname 0 ≢ 0
      → ((j : ℕ) → j < l → IsPassed j)
      → SameName (file_name bblock l) fname
      → EndsAt (file_name bblock l) 0 e
      → l < fuel
      → e < fuel
      → (name : Mem) × (read_dentry_by_name bblock fuel fname dentry
          ≡ some (
            pos 0,
            record { name = name; kind = file_type bblock l; inode = inode_num bblock l },
          ))
        × ((i : ℕ) → name i ≡ (if leb i e then file_name bblock l i else dentry.name i))
  unfolding read_dentry_by_name
  read_dentry_by_name_found fuel l e dentry nz h same ends hl he =
      let (r, eq, up) = strcpy_lem fuel dentry.name (file_name bblock l) e ends he in
      (r, ground (arith, nz, (same_name_empty fname fbytes).0, eq, found), up)
    where
      found : find_name bblock fuel fname 0 ≡ some (some l)
      found =
          find_name_lem l (some l) fuel 0 (omega arith) (omega arith) (λ j _ q. h j q) (refl, same)

  -- Where an empty name comes before any entry of that name, the lookup returns -1 and leaves
  -- `dentry` as it was.
  pub read_dentry_by_name_missing :
      (fuel l : ℕ) (dentry : Dentry)
      → fname 0 ≢ 0
      → ((j : ℕ) → j < l → IsPassed j)
      → file_name bblock l 0 ≡ 0
      → l < fuel
      → read_dentry_by_name bblock fuel fname dentry ≡ some (minus_one, dentry)
  unfolding read_dentry_by_name
  read_dentry_by_name_missing fuel l dentry nz h z hl =
      ground (arith, nz, (same_name_empty fname fbytes).0, missing)
    where
      missing : find_name bblock fuel fname 0 ≡ some none
      missing =
          find_name_lem l none fuel 0 (omega arith) (omega arith) (λ j _ q. h j q)
            (
              z,
              (λ s. nz (sym (s 0 (omega arith) (omega arith) (λ j p q. absurd (omega arith))) ∙ z)),
            )
