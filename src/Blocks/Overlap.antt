-- ===== src/Blocks/Overlap.antt =====
-- Copies in one memory.
use cl_os.Prelude.{ℕ, zero, suc, ◌+◌, ◌-◌, ◌*◌, ◌/◌, ◌%◌, ◌≤◌, ◌<◌, ◌≡◌, ◌⊎◌, ap, Mem, store, arith}
use cl_os.Blocks.{
  store4, copy_bytes, copy_words, copy_aligned, copy_top, memcpy, copy_down, memmove,
}
use cl_os.Blocks.Laws.{moved}

-- Upwards is safe when the source is not below the destination, or behind it.
copy_bytes_lem :
    (m : Mem) (a b n i : ℕ) → (a ≤ b) ⊎ (b + n ≤ a) → copy_bytes m a b n i ≡ moved m a b n i
unfolding copy_bytes
copy_bytes_lem m a b zero i h = ground arith
copy_bytes_lem m a b (suc n) i h =
    ground (arith, copy_bytes_lem (store m a (m b)) (a + 1) (b + 1) n i, here, next)
  where
    here : i ≡ a → m (b + (i - a)) ≡ m b
    here e = ap m (omega arith)

    next : a < i → m (b + 1 + (i - (a + 1))) ≡ m (b + (i - a))
    next e = ap m (omega arith)

copy_down_lem : (m : Mem) (a b n i : ℕ) → b ≤ a → copy_down m a b n i ≡ moved m a b n i
unfolding copy_down
copy_down_lem m a b zero i h = ground arith
copy_down_lem m a b (suc n) i h =
    ground (arith, copy_down_lem (store m (a + n) (m (b + n))) a b n i h, last)
  where
    last : i ≡ a + n → m (b + (i - a)) ≡ m (b + n)
    last e = ap m (omega arith)

-- `memmove` copies `n` bytes as they were before the call, however the two stretches overlap, and
-- changes no other byte.
pub memmove_lem : (m : Mem) (dest src n i : ℕ) → memmove m dest src n i ≡ moved m dest src n i
unfolding memmove
memmove_lem m dest src n i =
    ground (arith, copy_bytes_lem m dest src n i, copy_down_lem m dest src n i)

copy_words_lem :
    (m : Mem) (a b n i : ℕ)
    → (a ≤ b) ⊎ (b + 4 * n ≤ a)
    → copy_words m a b n i ≡ moved m a b (4 * n) i
unfolding copy_words
copy_words_lem m a b zero i h = ground arith
copy_words_lem m a b (suc n) i h = ground (
  arith,
  copy_words_lem (store4 m a (λ k. m (b + k))) (a + 4) (b + 4) n i,
  here 0,
  here 1,
  here 2,
  here 3,
  next,
)
  where
    here : (k : ℕ) → i ≡ a + k → m (b + (i - a)) ≡ m (b + k)
    here k e = ap m (omega arith)

    next : a + 4 ≤ i → m (b + 4 + (i - (a + 4))) ≡ m (b + (i - a))
    next e = ap m (omega arith)

copy_aligned_lem :
    (m : Mem) (a b n i : ℕ) → (a ≤ b) ⊎ (b + n ≤ a) → copy_aligned m a b n i ≡ moved m a b n i
unfolding copy_aligned
copy_aligned_lem m a b n i h = ground (
  arith,
  copy_bytes_lem (copy_words m a b (n / 4)) (a + w) (b + w) (n % 4) i,
  copy_words_lem m a b (n / 4) i,
  copy_words_lem m a b (n / 4) (b + w + (i - (a + w))),
  tail,
)
  where
    w : ℕ
    w = 4 * (n / 4)

    tail : a + w ≤ i → m (b + w + (i - (a + w))) ≡ m (b + (i - a))
    tail e = ap m (omega arith)

copy_top_lem :
    (m : Mem) (a b n i : ℕ) → (a ≤ b) ⊎ (b + n ≤ a) → copy_top m a b n i ≡ moved m a b n i
unfolding copy_top
copy_top_lem m a b zero i h = ground arith
copy_top_lem m a b (suc n) i h = ground (
  arith,
  copy_aligned_lem m a b (suc n) i h,
  copy_top_lem (store m a (m b)) (a + 1) (b + 1) n i,
  here,
  next,
)
  where
    here : i ≡ a → m (b + (i - a)) ≡ m b
    here e = ap m (omega arith)

    next : a < i → m (b + 1 + (i - (a + 1))) ≡ m (b + (i - a))
    next e = ap m (omega arith)

-- `memcpy` copies `n` bytes and changes no other byte, whatever the alignment, where the source does
-- not lie below the destination and reach into it.
pub memcpy_lem :
    (m : Mem) (dest src n i : ℕ)
    → (dest ≤ src) ⊎ (src + n ≤ dest)
    → memcpy m dest src n i ≡ moved m dest src n i
unfolding memcpy
memcpy_lem m dest src n i h = copy_top_lem m dest src n i h
