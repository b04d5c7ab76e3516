-- ===== src/Tests/Process.antt =====
-- Command lines and the bitmap of processes.
use cl_os.Prelude.{
  ℕ, zero, suc, ◌+◌, ◌-◌, ◌<◌, ◌≤◌, ◌≡◌, inl, inr, refl, ◌==◌, leb, ltb, ◌&&◌, if◌then◌else◌, Mem,
  some, arith, text, [], ◌∷◌, min,
}
use cl_os.Execute.{parser}
use cl_os.Execute.Parse.{EndsName, EndsLine, parser_lem}
use cl_os.Tests.Disk.{blank}

-- `cat f`
abbrev line : Mem
line = text (b'c' ∷ b'a' ∷ b't' ∷ b' ' ∷ b'f' ∷ [])

name_chars : (j : ℕ) → j < 3 → ¬ EndsName (line j)
name_chars zero h e = absurd (omega arith)
name_chars (suc zero) h e = absurd (omega arith)
name_chars (suc (suc zero)) h e = absurd (omega arith)
name_chars (suc (suc (suc j))) h e = absurd (omega arith)

rest_chars : (j : ℕ) → 3 ≤ j → j < 5 → ¬ EndsLine (line j)
rest_chars zero p h e = absurd (omega arith)
rest_chars (suc zero) p h e = absurd (omega arith)
rest_chars (suc (suc zero)) p h e = absurd (omega arith)
rest_chars (suc (suc (suc zero))) p h e = absurd (omega arith)
rest_chars (suc (suc (suc (suc zero)))) p h e = absurd (omega arith)
rest_chars (suc (suc (suc (suc (suc j))))) p h e = absurd (omega arith)

parser_lem_example :
    (cmd' args' : Mem) × (parser 9 line blank blank ≡ some (cmd', args'))
    × ((j : ℕ) → cmd' j ≡ (if ltb j 3 then line j else blank j))
    × ((j : ℕ)
        → args' j ≡ (
            if ltb j (min 31 (5 - 4))
            then line (4 + j)
            else if j == 31 && leb 31 (5 - 4)
            then 0
            else blank j))
parser_lem_example =
    parser_lem 9 line blank blank 3 5 (omega arith) name_chars (inl refl) (omega arith) rest_chars
      (inr refl)
