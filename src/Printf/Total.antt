-- ===== src/Printf/Total.antt =====
-- `printf` ends.
use mathlib.Core.Option
use cl_os.Prelude.{
  ℕ, zero, suc, ◌+◌, ◌-◌, ◌^◌, ◌≤◌, ◌<◌, ◌≡◌, ◌≢◌, inl, inr, ap, ◌∙◌, refl, sym, ◌==◌,
  if◌then◌else◌, Bool, true, false, Mem, store, offset, text, List, [], ◌∷◌, Option, some, arith,
  eq_or_ne, ne→==, lt_or_ge, lt→ltb, le→ltb,
}
use cl_os.Strings.Copy.{EndsAt}
use cl_os.Numbers.Digits.{numeral_bounded}
use cl_os.Terminal.Reading.{length}
use cl_os.Programs.Support.Compare.{is_full}
use cl_os.Screen.{Screen, putc, puts}
use cl_os.Printf.{
  splice, specifier, put_converted, printf_from, printf, convert_hex, convert_aligned,
  convert_unsigned, convert_signed,
}
use cl_os.Printf.Convert.{convert_aligned_lem, splice-EndsAt}
use cl_os.Printf.Format.{puts_from_lem, hex_digits-EndsAt}

-- A format in which each `%`, with any `#` behind it, has a character behind it. The flag tells whether the text stands
-- behind a `%`.
abbrev pub is_format : Bool → List ℕ → Bool
is_format b [] = if b then false else true
is_format b (c ∷ l) = if b then is_format (c == b'#') l else is_format (c == b'%') l

-- A conversion that gives a text of at most 33 characters.
abbrev Short : Option (Mem × ℕ) → Type 0
Short o =
    (b : Mem) × (start : ℕ) × (d : ℕ) × (o ≡ some (b, start))
    × EndsAt (offset b start) 0 (0 + d)
    × (d ≤ 33)

ends_here : {r : Mem} {d : ℕ} → EndsAt r 0 d → EndsAt (offset r 0) 0 (0 + d)
ends_here {r} {d} e = record {
  later = omega arith;
  nul = ap r (same d) ∙ e.nul;
  full = λ j p q z. e.full j p (omega arith) (ap r (back j) ∙ z);
}
  where
    same : (d : ℕ) → 0 + (0 + d) ≡ d
    same d = omega arith

    back : (j : ℕ) → j ≡ 0 + j
    back j = omega arith

module _ (fuel value : ℕ) (conv_buf : Mem) (h : value < 2 ^ 32) (l : 33 < fuel) where
  convert_hex-Short : Short (convert_hex fuel conv_buf value)
  unfolding convert_hex
  convert_hex-Short =
      let (d, r, e, ends, v, short) =
        numeral_bounded fuel value 16 conv_buf (omega arith) (omega arith) h (omega arith) in
      (r, 0, d, rw e refl, ends_here ends, omega arith)

  convert_unsigned-Short : Short (convert_unsigned fuel conv_buf value)
  unfolding convert_unsigned
  convert_unsigned-Short =
      let (d, r, e, ends, v, short) =
        numeral_bounded fuel value 10 conv_buf (omega arith) (omega arith) h (omega arith) in
      (r, 0, d, rw e refl, ends_here ends, omega arith)

  convert_aligned-Short : Short (convert_aligned fuel conv_buf value)
  convert_aligned-Short =
      let (b, start, e, digits, nul) = convert_aligned_lem fuel value conv_buf h (omega arith) in
      (b, start, 8, e, hex_digits-EndsAt b value start digits nul, omega arith)

  convert_signed-Short : Short (convert_signed fuel conv_buf value)
  unfolding convert_signed
  convert_signed-Short = elim (lt_or_ge value (2 ^ 31)) [
    | inl lt ↦
        let (d, r, e, ends, v, short) =
          numeral_bounded fuel value 10 conv_buf (omega arith) (omega arith) h (omega arith) in
        (
          r,
          0,
          d,
          rw (lt→ltb value (2 ^ 31) lt, convert_signed, e) refl,
          ends_here ends,
          omega arith,
        )
    | inr ge ↦
        let signed = store conv_buf 0 b'-' in
        let (d, r, e, ends, v, short) =
          numeral_bounded fuel (2 ^ 32 - value) 10 (offset signed 1) (omega arith) (omega arith)
            (omega arith) (omega arith) in
        (
          splice signed 1 r,
          0,
          d + 1,
          rw (le→ltb value (2 ^ 31) ge, convert_signed, e) refl,
          ends_here (splice-EndsAt signed r d ends refl),
          omega arith,
        )
  ]

-- A format read from index `i` on.
abbrev At : Mem → ℕ → List ℕ → Type 0
At format i l = (j : ℕ) → j ≤ length l → format (i + j) ≡ text l j

At-next : (format : Mem) (i c : ℕ) (l : List ℕ) → At format i (c ∷ l) → At format (i + 1) l
At-next format i c l a j p = ap format (next j) ∙ a (suc j) (omega arith)
  where
    next : (j : ℕ) → i + 1 + j ≡ i + suc j
    next j = omega arith

At-first : (format : Mem) (i c : ℕ) (l : List ℕ) → At format i (c ∷ l) → format i ≡ c
At-first format i c l a = ap format here ∙ a 0 (omega arith)
  where
    here : i ≡ i + 0
    here = omega arith

At-end : (format : Mem) (i : ℕ) → At format i [] → format i ≡ 0
At-end format i a = ap format here ∙ a 0 (omega arith)
  where
    here : i ≡ i + 0
    here = omega arith

-- A specifier whose character is at index `i`.
abbrev Done : ℕ → Option (ℕ × ℕ × Screen) → Type 0
Done i o = (arg : ℕ) × (s : Screen) × (o ≡ some (i, arg, s))

if-Done :
    (b : Bool) (i : ℕ) (x y : Option (ℕ × ℕ × Screen))
    → Done i x
    → Done i y
    → Done i (if b then x else y)
if-Done true i x y h k = h
if-Done false i x y h k = k

module _ (current t key_int : ℕ) (words : ℕ → ℕ) (string_at : ℕ → Mem) (conv_buf : Mem) where
  put_converted-Done :
      (fuel i arg : ℕ) (o : Option (Mem × ℕ)) (s : Screen)
      → Short o
      → 33 < fuel
      → Done i (put_converted current t key_int words string_at conv_buf fuel i arg o s)
  unfolding put_converted puts
  put_converted-Done fuel i arg o s (b, start, d, e, ends, short) h = (
    arg + 1,
    _,
    ap (λ o. put_converted current t key_int words string_at conv_buf fuel i arg o s) e
        ∙ ap (Option.map (λ r. (i, arg + 1, r.1)))
            (puts_from_lem fuel current t key_int d 0 (offset b start) s ends (omega arith)),
  )

  -- What the parameters have to be: words of 32 bits, and strings of at most `n` characters.
  module _ (n : ℕ) (words32 : (arg : ℕ) → words arg < 2 ^ 32)
      (strings : (p : ℕ) → (d : ℕ) × EndsAt (string_at p) 0 (0 + d) × (d ≤ n)) where
    put_string-Done :
        (fuel i arg : ℕ) (s : Screen)
        → n < fuel
        → Done i (
            Option.map
              (λ r. (i, arg + 1, r.1))
              (puts fuel current t key_int (string_at (words arg)) s))
    unfolding puts
    put_string-Done fuel i arg s h =
        let (d, ends, short) = strings (words arg) in
        (
          arg + 1,
          _,
          ap (Option.map (λ r. (i, arg + 1, r.1))) (
              puts_from_lem fuel current t key_int d 0 (string_at (words arg)) s ends
                (omega arith)),
        )

    -- Behind a `%` with no `#`.
    specifier-Done :
        (fuel i arg : ℕ) (alternate : Bool) (format : Mem) (s : Screen)
        → 34 + n < fuel
        → format i ≢ b'#'
        → Done i (
            specifier current t key_int words string_at conv_buf
              (suc fuel)
              format
              i
              alternate
              arg
              s)
    unfolding specifier
    specifier-Done fuel i arg alternate format s h ne =
        let c = format i in
        let w = words arg in
        let b = words32 arg in
        if-Done (c == b'%') i _ _ (arg, _, refl)
          (rw (ne→== c b'#' ne) (
            if-Done (c == b'x') i _ _ (either alternate w b) (
              if-Done (c == b'u') i _ _
                (put_converted-Done fuel i arg _ s
                  (convert_unsigned-Short fuel w conv_buf b (omega arith)) (omega arith))
                (if-Done (c == b'd') i _ _
                  (put_converted-Done fuel i arg _ s
                    (convert_signed-Short fuel w conv_buf b (omega arith)) (omega arith))
                  (if-Done (c == b'c') i _ _ (arg + 1, _, refl)
                    (if-Done (c == b's') i _ _ (put_string-Done fuel i arg s (omega arith))
                      (arg, _, refl)))))))
      where
        either :
            (b : Bool) (w : ℕ)
            → w < 2 ^ 32
            → Done i (
                put_converted current t key_int words string_at conv_buf fuel i arg
                  (if b then convert_aligned fuel conv_buf w else convert_hex fuel conv_buf w)
                  s)
        either true w b =
            put_converted-Done fuel i arg _ s
              (convert_aligned-Short fuel w conv_buf b (omega arith)) (omega arith)
        either false w b =
            put_converted-Done fuel i arg _ s (convert_hex-Short fuel w conv_buf b (omega arith))
              (omega arith)

    -- The specifier ends in front of a rest of the format.
    abbrev Rest : Mem → ℕ → Option (ℕ × ℕ × Screen) → Type 0
    Rest format m o =
        (i : ℕ) × (arg : ℕ) × (s : Screen) × (l : List ℕ) × (o ≡ some (i, arg, s))
        × At format (i + 1) l
        × ((is_full l ≡ true) × (is_format false l ≡ true) × (length l < m))

    specifier_hash :
        (fuel i arg : ℕ) (alternate : Bool) (format : Mem) (s : Screen)
        → format i ≡ b'#'
        → specifier current t key_int words string_at conv_buf (suc fuel) format i alternate arg s
          ≡ specifier current t key_int words string_at conv_buf fuel format (i + 1) true arg s
    unfolding specifier
    specifier_hash fuel i arg alternate format s e = rw e refl

    specifier-Rest :
        (fuel i arg : ℕ) (alternate : Bool) (format : Mem) (l : List ℕ) (s : Screen)
        → is_full l ≡ true
        → is_format true l ≡ true
        → At format i l
        → 35 + n + length l < fuel
        → Rest format
            (length l)
            (specifier current t key_int words string_at conv_buf fuel format i alternate arg s)
    specifier-Rest zero i arg alternate format l s fl f a h = absurd (omega arith)
    specifier-Rest (suc fuel) i arg alternate format [] s fl f a h = cc
    specifier-Rest (suc fuel) i arg alternate format (c ∷ l) s fl f a h = elim (eq_or_ne c b'#') [
      | inl e ↦
          let (i', arg', s', l', eq, a', (fl', f', short)) =
            specifier-Rest fuel (i + 1) arg true format l s (ground arith) (ground (arith, e))
              (At-next format i c l a) (omega arith) in
          (
            i',
            arg',
            s',
            l',
            specifier_hash fuel i arg alternate format s (At-first format i c l a ∙ e) ∙ eq,
            a',
            (fl', f', omega arith),
          )
      | inr ne ↦
          let first : format i ≡ c = At-first format i c l a in
          let (arg', s', eq) =
            specifier-Done fuel i arg alternate format s (omega arith) (λ z. ne (sym first ∙ z)) in
          (
            i,
            arg',
            s',
            l,
            eq,
            At-next format i c l a,
            (ground arith, ground (arith, ne), omega arith),
          )
    ]

    ended_here :
        (fuel i arg : ℕ) (format : Mem) (s : Screen)
        → format i ≡ 0
        → printf_from current t key_int words string_at conv_buf (suc fuel) format i arg s
          ≡ some (i, s)
    unfolding printf_from
    ended_here fuel i arg format s z = rw z refl

    step_percent :
        (fuel i arg i' arg' : ℕ) (format : Mem) (s s' : Screen)
        → format i ≡ b'%'
        → specifier current t key_int words string_at conv_buf fuel format (i + 1) false arg s
          ≡ some (i', arg', s')
        → printf_from current t key_int words string_at conv_buf (suc fuel) format i arg s
          ≡ printf_from current t key_int words string_at conv_buf fuel format (i' + 1) arg' s'
    unfolding printf_from
    step_percent fuel i arg i' arg' format s s' e eq = rw (e, eq) refl

    step_char :
        (fuel i arg : ℕ) (format : Mem) (s : Screen)
        → format i ≢ 0
        → format i ≢ b'%'
        → printf_from current t key_int words string_at conv_buf (suc fuel) format i arg s
          ≡ printf_from current t key_int words string_at conv_buf fuel format
              (i + 1)
              arg
              (putc current t key_int (format i) s)
    unfolding printf_from
    step_char fuel i arg format s nz ne = rw (ne→== (format i) 0 nz, ne→== (format i) b'%' ne) refl

    abbrev Ended : ℕ → Mem → ℕ → ℕ → Screen → Type 0
    Ended fuel format i arg s =
        (r : ℕ × Screen) × (printf_from current t key_int words string_at conv_buf fuel format i arg
            s
          ≡ some r)

    -- By recursion on the fuel.
    printf_from_total :
        (fuel i arg : ℕ) (format : Mem) (l : List ℕ) (s : Screen)
        → is_full l ≡ true
        → is_format false l ≡ true
        → At format i l
        → 36 + n + length l < fuel
        → Ended fuel format i arg s
    printf_from_total zero i arg format l s fl f a h = absurd (omega arith)
    printf_from_total (suc fuel) i arg format [] s fl f a h =
        ((i, s), ended_here fuel i arg format s (At-end format i a))
    printf_from_total (suc fuel) i arg format (c ∷ l) s fl f a h = elim (eq_or_ne c b'%') [
      | inl e ↦
          let (i', arg', s', l', eq, a', (fl', f', short)) =
            specifier-Rest fuel (i + 1) arg false format l s (ground arith) (ground (arith, e))
              (At-next format i c l a) (omega arith) in
          let (r, eq') =
            printf_from_total fuel (i' + 1) arg' format l' s' fl' f' a' (omega arith) in
          (r, step_percent fuel i arg i' arg' format s s' (At-first format i c l a ∙ e) eq ∙ eq')
      | inr ne ↦
          let first : format i ≡ c = At-first format i c l a in
          let (r, eq) =
            printf_from_total fuel (i + 1) arg format l (putc current t key_int (format i) s)
              (ground arith) (ground (arith, ne)) (At-next format i c l a) (omega arith) in
          (
            r,
            step_char fuel i arg format s (λ z. ground (arith, first)) (λ z. ne (sym first ∙ z))
                ∙ eq,
          )
    ]

-- `printf` ends for each format in which every `%` has a specifier behind it, whatever its parameters: words of 32 bits,
-- behind pointers strings of at most `n` characters. The format's length, `n` and 37 rounds of fuel are enough.
pub printf_total :
    (current t key_int : ℕ) (words : ℕ → ℕ) (string_at : ℕ → Mem) (conv_buf : Mem) (n fuel : ℕ)
    (l : List ℕ) (s : Screen)
    → ((arg : ℕ) → words arg < 2 ^ 32)
    → ((p : ℕ) → (d : ℕ) × EndsAt (string_at p) 0 (0 + d) × (d ≤ n))
    → is_full l ≡ true
    → is_format false l ≡ true
    → 36 + n + length l < fuel
    → (r : ℕ × Screen) × (printf current t key_int words string_at conv_buf fuel (text l) s
        ≡ some r)
unfolding printf
printf_total current t key_int words string_at conv_buf n fuel l s w st fl f h =
    printf_from_total current t key_int words string_at conv_buf n w st fuel 0 0 (text l) l s fl f
      (λ j p. ap (text l) (start j)) h
  where
    start : (j : ℕ) → 0 + j ≡ j
    start j = omega arith
