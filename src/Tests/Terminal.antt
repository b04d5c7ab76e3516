-- ===== src/Tests/Terminal.antt =====
-- Lines of terminal 2.
use cl_os.Prelude.{ℕ, ◌≡◌, refl, ◌==◌, ltb, leb, if◌then◌else◌, Mem, text, [], ◌∷◌, some, arith}
use cl_os.Terminal.{Lines, t_read}
use cl_os.Terminal.Line.{IsBounded}
use cl_os.Terminal.Reading.{keys, finished, t_read_lem}
use cl_os.Tests.Disk.{blank}

-- Terminal 1 has a full line, terminal 2 one of three characters, terminal 3 an empty one.
abbrev lines : Lines
lines = record { idx = λ t. if t == 1 then 128 else if t == 2 then 3 else 0; tbuf = blank }

lines-IsBounded : IsBounded lines
lines-IsBounded t = ground arith

t_read_lem_example :
    (b : Mem) × (s' : Lines) × (t_read 2 (keys (b'l' ∷ b's' ∷ [])) blank 128 lines
      ≡ some (3, b, s'))
    × ((i : ℕ)
        → b i ≡ (
            if ltb i 3
            then text (finished (b'l' ∷ b's' ∷ [])) i
            else if leb i 128
            then 0
            else blank i))
t_read_lem_example = t_read_lem 2 128 (b'l' ∷ b's' ∷ []) blank lines (omega arith) refl
