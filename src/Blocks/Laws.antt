-- ===== src/Blocks/Laws.antt =====
-- The alignment of `memset` does not show.
use cl_os.Prelude.{
  ℕ, zero, suc, ◌+◌, ◌-◌, ◌*◌, ◌/◌, ◌%◌, ◌≡◌, ◌&&◌, leb, ltb, if◌then◌else◌, Mem, store, arith,
}
use cl_os.Blocks.{store4, set_bytes, set_words, set_aligned, set_top, memset}

-- `m` with the byte `c` at the `n` addresses from `a` on.
abbrev pub filled : Mem → ℕ → ℕ → ℕ → Mem
filled m a c n i = if leb a i && ltb i (a + n) then c else m i

set_bytes_lem : (m : Mem) (a c n i : ℕ) → set_bytes m a c n i ≡ filled m a c n i
unfolding set_bytes
set_bytes_lem m a c zero i = ground arith
set_bytes_lem m a c (suc n) i = ground (arith, set_bytes_lem (store m a c) (a + 1) c n i)

set_words_lem : (m : Mem) (a c n i : ℕ) → set_words m a c n i ≡ filled m a c (4 * n) i
unfolding set_words
set_words_lem m a c zero i = ground arith
set_words_lem m a c (suc n) i = ground (arith, set_words_lem (store4 m a (λ i. c)) (a + 4) c n i)

set_aligned_lem : (m : Mem) (a c n i : ℕ) → set_aligned m a c n i ≡ filled m a c n i
unfolding set_aligned
set_aligned_lem m a c n i = ground (
  arith,
  set_bytes_lem (set_words m a c (n / 4)) (a + 4 * (n / 4)) c (n % 4) i,
  set_words_lem m a c (n / 4) i,
)

set_top_lem : (m : Mem) (a c n i : ℕ) → set_top m a c n i ≡ filled m a c n i
unfolding set_top
set_top_lem m a c zero i = ground arith
set_top_lem m a c (suc n) i =
    ground (arith, set_aligned_lem m a c (suc n) i, set_top_lem (store m a c) (a + 1) c n i)

-- `memset` puts the low byte of `c` at the `n` addresses from `s` on and changes no other byte,
-- whatever the alignment of `s`.
pub memset_lem : (m : Mem) (s c n i : ℕ) → memset m s c n i ≡ filled m s (c % 256) n i
unfolding memset
memset_lem m s c n i = set_top_lem m s (c % 256) n i

-- `m` with `n` bytes of `m` from `b` on put at `a`.
abbrev pub moved : Mem → ℕ → ℕ → ℕ → Mem
moved m a b n i = if leb a i && ltb i (a + n) then m (b + (i - a)) else m i
