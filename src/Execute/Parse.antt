-- ===== src/Execute/Parse.antt =====
-- How `parser` splits a command line.
use cl_os.Prelude.{
  ℕ, zero, suc, ◌+◌, ◌-◌, ◌≤◌, ◌<◌, ◌≡◌, ◌⊎◌, inl, inr, ap, ◌==◌, ◌&&◌, leb, ltb, if◌then◌else◌,
  Mem, store, some, arith, eq_or_ne, min,
}
use cl_os.Execute.{copy_cmd, copy_args, close_args, parser}

-- A space, a newline or a NUL ends the command name.
abbrev pub EndsName : ℕ → Type 0
EndsName c = (c ≡ b' ') ⊎ (c ≡ b'\n') ⊎ (c ≡ 0)

-- A newline or a NUL ends the line.
abbrev pub EndsLine : ℕ → Type 0
EndsLine c = (c ≡ b'\n') ⊎ (c ≡ 0)

copy_cmd_lem :
    (fuel : ℕ) (command cmd : Mem) (i n : ℕ)
    → i ≤ n
    → n < i + fuel
    → ((j : ℕ) → i ≤ j → j < n → ¬ EndsName (command j))
    → EndsName (command n)
    → (r : Mem) × (copy_cmd fuel command cmd i ≡ some (r, n))
      × ((j : ℕ) → r j ≡ (if leb i j && ltb j n then command j else cmd j))
unfolding copy_cmd
copy_cmd_lem zero command cmd i n p q h e = absurd (omega arith)
copy_cmd_lem (suc fuel) command cmd i n p q h e = elim (eq_or_ne i n) [
  | inl eq ↦ (cmd, rw eq (ground arith), (λ j. ground arith))
  | inr ne ↦
      let (r, run, at) =
        copy_cmd_lem fuel command (store cmd i (command i)) (i + 1) n (omega arith) (omega arith)
          (λ j p' q'. h j (omega arith) q') e in
      (r, ground (arith, h i (omega arith) (omega arith), run), (λ j. ground (arith, at j)))
]

-- The copy stops at the end of the line, index `n`, or when `k` characters are copied.
copy_args_lem :
    (command args : Mem) (t i k n : ℕ)
    → i ≤ n
    → ((j : ℕ) → i ≤ j → j < n → ¬ EndsLine (command j))
    → EndsLine (command n)
    → let (r, t') = copy_args command args t i k in
      (t' ≡ t + min k (n - i))
      × ((j : ℕ)
          → r j ≡ (if leb t j && ltb j (t + min k (n - i)) then command (i + (j - t)) else args j))
unfolding copy_args
copy_args_lem command args t i zero n p h e = (omega arith, (λ j. ground arith))
copy_args_lem command args t i (suc k) n p h e = elim (eq_or_ne i n) [
  | inl eq ↦ rw eq (ground arith, (λ j. ground arith))
  | inr ne ↦
      let (count, at) =
        copy_args_lem command (store args t (command i)) (t + 1) (i + 1) k n (omega arith)
          (λ j p' q'. h j (omega arith) q') e in
      (
        ground (arith, h i (omega arith) (omega arith), count),
        (λ j. ground (arith, h i (omega arith) (omega arith), at j, next j, here j)),
      )
]
  where
    next : (j : ℕ) → t < j → command (i + 1 + (j - (t + 1))) ≡ command (i + (j - t))
    next j l = ap command (omega arith)

    here : (j : ℕ) → j ≡ t → command (i + (j - t)) ≡ command i
    here j l = ap command (omega arith)

-- A line whose name ends at index `n`, and which ends at index `e`: `parser` ends, puts the name into
-- `cmd`, and puts into `args` what follows the space behind it, 31 characters at most, with a NUL
-- behind 31. The rest of both buffers is unchanged.
pub parser_lem :
    (fuel : ℕ) (command cmd args : Mem) (n e : ℕ)
    → n < fuel
    → ((j : ℕ) → j < n → ¬ EndsName (command j))
    → EndsName (command n)
    → n ≤ e
    → ((j : ℕ) → n ≤ j → j < e → ¬ EndsLine (command j))
    → EndsLine (command e)
    → let start = if command n == b' ' then n + 1 else n in
      (cmd' args' : Mem) × (parser fuel command cmd args ≡ some (cmd', args'))
      × ((j : ℕ) → cmd' j ≡ (if ltb j n then command j else cmd j))
      × ((j : ℕ)
          → args' j ≡ (
              if ltb j (min 31 (e - start))
              then command (start + j)
              else if j == 31 && leb 31 (e - start)
              then 0
              else args j))
unfolding parser
parser_lem fuel command cmd args n e l h en p g ee =
    let (cmd', run, at) =
      copy_cmd_lem fuel command cmd 0 n (omega arith) (omega arith) (λ j _ q. h j q) en in
    let (count, chars) =
      copy_args_lem command args 0 start 31 e (ground arith) (λ j p' q'. g j (ground arith) q')
        ee in
    (
      cmd',
      close_args (copy_args command args 0 start 31),
      ground (arith, run),
      (λ j. ground (arith, at j)),
      (λ j. ground (arith, count, chars j, closed (copy_args command args 0 start 31) j)),
    )
  where
    start : ℕ
    start = if command n == b' ' then n + 1 else n

    closed : (r : Mem × ℕ) (j : ℕ) → close_args r j ≡ (if r.1 == 31 && j == 31 then 0 else r.0 j)
    closed (r, t) j = ground arith
