-- ===== src/Programs/Output.antt =====
-- What `tWrite` writes of a text without NULs.
use cl_os.Prelude.{ℕ, zero, suc, ◌+◌, ◌<◌, ◌≡◌, ◌≢◌, refl, ap, sym, ◌∙◌, Mem, arith}
use cl_os.Terminal.{write_from, t_write}

-- The bytes of `f` from index `i` on, `k` of them, one by one.
abbrev pub put_bytes : {S : Type 0} → (ℕ → S → S) → Mem → ℕ → ℕ → S → S
put_bytes putc f i zero s = s
put_bytes putc f i (suc k) s = put_bytes putc f (i + 1) k (putc (f i) s)

module _ {S : Type 0} (putc : ℕ → S → S) where
  pub put_bytes_cong :
      (f g : Mem) (k i j : ℕ) (s : S)
      → ((n : ℕ) → n < k → f (i + n) ≡ g (j + n))
      → put_bytes putc f i k s ≡ put_bytes putc g j k s
  put_bytes_cong f g zero i j s h = refl
  put_bytes_cong f g (suc k) i j s h =
      ap (λ c. put_bytes putc f (i + 1) k (putc c s)) first
      ∙ put_bytes_cong f g k (i + 1) (j + 1) (putc (g j) s) later
    where
      first : f i ≡ g j
      first = ap f (omega arith) ∙ h 0 (omega arith) ∙ ap g (omega arith)

      later : (n : ℕ) → n < k → f (i + 1 + n) ≡ g (j + 1 + n)
      later n l = ap f (omega arith) ∙ h (n + 1) (omega arith) ∙ ap g (omega arith)

  pub put_bytes_add :
      (f : Mem) (c k i n : ℕ) (s : S)
      → n ≡ c + k
      → put_bytes putc f (i + c) k (put_bytes putc f i c s) ≡ put_bytes putc f i n s
  put_bytes_add f zero k i n s e =
      ap (λ x. put_bytes putc f x k s) here ∙ ap (λ x. put_bytes putc f i x s) (sym e')
    where
      here : i + 0 ≡ i
      here = omega arith

      e' : n ≡ k
      e' = omega (arith, e)
  put_bytes_add f (suc c) k i n s e =
      ap (λ x. put_bytes putc f x k (put_bytes putc f (i + 1) c (putc (f i) s))) here
      ∙ put_bytes_add f c k (i + 1) (c + k) (putc (f i) s) refl
      ∙ ap (λ x. put_bytes putc f i x s) all
    where
      here : i + suc c ≡ i + 1 + c
      here = omega arith

      all : suc (c + k) ≡ n
      all = omega (arith, e)

  write_from_full :
      (buf : Mem) (nbytes k i w : ℕ) (s : S)
      → ((j : ℕ) → j < k → buf (i + j) ≢ 0)
      → write_from putc buf nbytes i k w s ≡ (w + k, put_bytes putc buf i k s)
  unfolding write_from
  write_from_full buf nbytes zero i w s h = ap (λ x. (x, s)) none_more
    where
      none_more : w ≡ w + 0
      none_more = omega arith
  write_from_full buf nbytes (suc k) i w s h =
      ground (arith, here, write_from_full buf nbytes k (i + 1) (w + 1) (putc (buf i) s) later)
    where
      here : buf i ≢ 0
      here e = h 0 (omega arith) (ap buf (omega arith) ∙ e)

      later : (j : ℕ) → j < k → buf (i + 1 + j) ≢ 0
      later j l e = h (j + 1) (omega arith) (ap buf (omega arith) ∙ e)

  zero_plus : (n : ℕ) → 0 + n ≡ n
  zero_plus n = omega arith

  -- A text without NULs is written in full.
  pub t_write_full :
      (buf : Mem) (n : ℕ) (s : S)
      → ((j : ℕ) → j < n → buf j ≢ 0)
      → t_write putc buf n s ≡ (n, put_bytes putc buf 0 n s)
  unfolding t_write
  t_write_full buf n s h =
      write_from_full buf n n 0 0 s (λ j l e. h j l (ap buf (omega arith) ∙ e))
      ∙ ap (λ x. (x, put_bytes putc buf 0 n s)) (zero_plus n)
