-- ===== src/Printf/Format.antt =====
-- What `printf` prints.
use mathlib.Core.Option
use cl_os.Prelude.{
  ℕ, zero, suc, ◌+◌, ◌-◌, ◌^◌, ◌≤◌, ◌<◌, ◌≡◌, ◌≢◌, inl, inr, ap, ◌∙◌, refl, Mem, offset, text, [],
  ◌∷◌, some, arith, eq_or_ne,
}
use cl_os.Strings.Copy.{EndsAt, EndsAt-suc}
use cl_os.Screen.{Screen, putc, puts_from, puts}
use cl_os.Printf.{specifier, put_converted, printf_from, printf, convert_aligned}
use cl_os.Printf.Convert.{hex_digits, convert_aligned_lem}

-- The bytes of `str` from index `i` on, `k` of them, one by one.
abbrev pub put_all : ℕ → ℕ → ℕ → Mem → ℕ → ℕ → Screen → Screen
put_all current t key_int str i zero s = s
put_all current t key_int str i (suc k) s =
    put_all current t key_int str (i + 1) k (putc current t key_int (str i) s)

put_all_cong :
    (current t key_int : ℕ) (str str' : Mem) (k i i' : ℕ) (s : Screen)
    → ((j : ℕ) → j < k → str (i + j) ≡ str' (i' + j))
    → put_all current t key_int str i k s ≡ put_all current t key_int str' i' k s
put_all_cong current t key_int str str' zero i i' s h = refl
put_all_cong current t key_int str str' (suc k) i i' s h =
    ap (λ c. put_all current t key_int str (i + 1) k (putc current t key_int c s)) first
    ∙ put_all_cong current t key_int str str' k (i + 1) (i' + 1)
        (putc current t key_int (str' i') s) later
  where
    first : str i ≡ str' i'
    first = ap str (omega arith) ∙ h 0 (omega arith) ∙ ap str' (omega arith)

    later : (j : ℕ) → j < k → str (i + 1 + j) ≡ str' (i' + 1 + j)
    later j l = ap str (omega arith) ∙ h (j + 1) (omega arith) ∙ ap str' (omega arith)

EndsAt-next : {s : Mem} {b : ℕ} (k : ℕ) → EndsAt s b (b + suc k) → EndsAt s (b + 1) (b + 1 + k)
EndsAt-next {s} {b} k e = record {
  later = omega arith;
  nul = ap s index ∙ e.nul;
  full = λ j p q. e.full j (omega arith) (omega arith);
}
  where
    index : b + 1 + k ≡ b + suc k
    index = omega arith

pub puts_from_lem :
    (fuel current t key_int k b : ℕ) (str : Mem) (s : Screen)
    → EndsAt str b (b + k)
    → k < fuel
    → puts_from fuel current t key_int str b s ≡ some (b + k, put_all current t key_int str b k s)
unfolding puts_from
puts_from_lem zero current t key_int k b str s e h = absurd (omega arith)
puts_from_lem (suc fuel) current t key_int zero b str s e h = ground (arith, e.nul, ap str here)
  where
    here : b + 0 ≡ b
    here = omega arith
puts_from_lem (suc fuel) current t key_int (suc k) b str s e h = ground (
  arith,
  e.full b (omega arith) (omega arith),
  puts_from_lem fuel current t key_int k (b + 1) str (putc current t key_int (str b) s)
      (EndsAt-next k e) (omega arith),
)

-- A format without a `%` is printed as `puts` prints it, whatever the parameters: the two return the same number and
-- leave the same screen.
pub printf-puts :
    (current t key_int : ℕ) (words : ℕ → ℕ) (string_at : ℕ → Mem) (conv_buf : Mem)
    → (fuel l : ℕ) (format : Mem) (s : Screen) → EndsAt format 0 l
    → ((j : ℕ) → j < l → format j ≢ b'%')
    → printf current t key_int words string_at conv_buf fuel format s
      ≡ puts fuel current t key_int format s
unfolding printf puts printf_from puts_from
printf-puts current t key_int words string_at conv_buf fuel l format s e h = from fuel 0 0 s e
  where
    from :
        (fuel b arg : ℕ) (s : Screen)
        → EndsAt format b l
        → printf_from current t key_int words string_at conv_buf fuel format b arg s
          ≡ puts_from fuel current t key_int format b s
    from zero b arg s e = refl
    from (suc fuel) b arg s e = elim (eq_or_ne b l) [
      | inl p ↦ ground (arith, ap format p, e.nul)
      | inr p ↦ ground (
        arith,
        e.full b (omega arith) (omega (arith, e.later)),
        h b (omega (arith, e.later)),
        from fuel (b + 1) arg (putc current t key_int (format b) s) (EndsAt-suc e p),
      )
    ]

abbrev pub aligned_format : Mem
aligned_format = text (b'%' ∷ b'#' ∷ b'x' ∷ [])

pub hex_digits-EndsAt :
    (b : Mem) (value start : ℕ)
    → ((j : ℕ) → j < 8 → b (start + j) ≡ hex_digits value j)
    → b (start + 8) ≡ 0
    → EndsAt (offset b start) 0 (0 + 8)
hex_digits-EndsAt b value start h e = record {
  later = omega arith;
  nul = e;
  full = λ j p q z. absurd (ground (arith, h j (omega arith), z));
}

module _ (current t key_int : ℕ) (words : ℕ → ℕ) (string_at : ℕ → Mem) (conv_buf : Mem) where
  put_aligned :
      (f : ℕ) (s : Screen)
      → words 0 < 2 ^ 32
      → 8 < f
      → put_converted current t key_int words string_at conv_buf f 2 0
          (convert_aligned f conv_buf (words 0))
          s
        ≡ some (2, 1, put_all current t key_int (hex_digits (words 0)) 0 8 s)
  unfolding put_converted puts
  put_aligned f s h l =
      let (b, start, e, digits, nul) = convert_aligned_lem f (words 0) conv_buf h l in
      ap (λ o. put_converted current t key_int words string_at conv_buf f 2 0 o s) e
      ∙ ap (Option.map (λ r. (2, 1, r.1))) (
          puts_from_lem f current t key_int 8 0 (offset b start) s
            (hex_digits-EndsAt b (words 0) start digits nul) l)
      ∙ ap (λ s'. some (2, 1, s'))
          (put_all_cong current t key_int (offset b start) (hex_digits (words 0)) 8 0 0 s
            (shown b start digits))
    where
      shown :
          (b : Mem) (start : ℕ)
          → ((j : ℕ) → j < 8 → b (start + j) ≡ hex_digits (words 0) j)
          → (j : ℕ) → j < 8
          → offset b start (0 + j) ≡ hex_digits (words 0) (0 + j)
      shown b start h j l =
          ap (λ (x : ℕ). b (start + x)) (omega arith)
          ∙ h j l
          ∙ ap (hex_digits (words 0)) (omega arith)

  aligned_at :
      (f : ℕ) (s : Screen)
      → words 0 < 2 ^ 32
      → 8 < f
      → printf current t key_int words string_at conv_buf (suc (suc (suc f))) aligned_format s
        ≡ some (3, put_all current t key_int (hex_digits (words 0)) 0 8 s)
  unfolding printf printf_from specifier
  aligned_at f s h l = rw (put_aligned f s h l) refl

-- The format `%#x` prints the eight hexadecimal digits of a 32-bit parameter, the highest first, leading zeros included,
-- and nothing else; `printf` then returns 3.
pub printf_aligned :
    (current t key_int fuel : ℕ) (words : ℕ → ℕ) (string_at : ℕ → Mem) (conv_buf : Mem) (s : Screen)
    → words 0 < 2 ^ 32
    → 12 ≤ fuel
    → printf current t key_int words string_at conv_buf fuel aligned_format s
      ≡ some (3, put_all current t key_int (hex_digits (words 0)) 0 8 s)
printf_aligned current t key_int fuel words string_at conv_buf s h l =
    ap (λ x. printf current t key_int words string_at conv_buf x aligned_format s) exact
    ∙ aligned_at current t key_int words string_at conv_buf (fuel - 3) s h (omega arith)
  where
    exact : fuel ≡ suc (suc (suc (fuel - 3)))
    exact = omega arith
