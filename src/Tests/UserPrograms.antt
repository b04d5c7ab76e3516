-- ===== src/Tests/UserPrograms.antt =====
-- The user programs on small environments.
use cl_os.Prelude.{
  ℕ, zero, suc, ◌+◌, ◌<◌, ◌≡◌, ◌≢◌, ◌↔◌, refl, ◌==◌, if◌then◌else◌, ℤ, pos, minus_one, Mem, text,
  List, [], ◌∷◌, some, arith,
}
use cl_os.Prelude.Literal.{codes, literal}
use cl_os.Pcb.{FileArray, fops_dir, no_table}
use cl_os.Fs.Image.{file_name}
use cl_os.Numbers.{itoa}
use cl_os.Terminal.Reading.{length, finished}
use cl_os.Programs.{Calls}
use cl_os.Programs.Cat.{Io, write_terminal}
use cl_os.Programs.Support.{ece391_strcmp, ece391_itoa}
use cl_os.Programs.Support.Compare.{compare_texts, ece391_strcmp_lem}
use cl_os.Programs.Support.Same.{ece391_itoa-itoa}
use cl_os.Programs.Ls.{ls}
use cl_os.Programs.Ls.Listing.{read_directory, IsListable, list_names, ls_lem}
use cl_os.Programs.Shell.{shell}
use cl_os.Programs.Shell.Session.{Session, leave, idle, run, rounds, shell_lem}
use cl_os.Programs.Pingpong.{pingpong}
use cl_os.Programs.Pingpong.Frames.{IsWorld, IsLetter, pingpong_total}
use cl_os.Programs.Small.{counter}
use cl_os.Programs.Small.Counting.{Counted, counter_lem}
use cl_os.Tests.Disk.{disk, disk-IsBytes, blank}

ece391_strcmp_lem_example :
    (ece391_strcmp 5 (literal "exit") (literal "exam")
      ≡ some (compare_texts (codes "exit") (codes "exam")))
    × ((compare_texts (codes "exit") (codes "exam") ≡ pos 0) ↔ (codes "exit" ≡ codes "exam"))
ece391_strcmp_lem_example =
    ece391_strcmp_lem 5 (literal "exit") (literal "exam") (codes "exit") (codes "exam") refl refl
      (omega arith) (λ j p. refl) (λ j p. refl)

ece391_itoa-itoa_example : ece391_itoa 9 391 blank 10 ≡ itoa 9 391 blank 10
ece391_itoa-itoa_example = ece391_itoa-itoa 9 391 blank 10 (omega arith) (omega arith)

-- Lines that are typed, and how many commands have been executed.
pub record Desk : Type 0 where
  pub pending : List (List ℕ)
  pub executed : ℕ

abbrev type_line : List (List ℕ) → Mem → ℕ → ℤ × Mem × Desk
type_line [] buf n = (pos 0, buf, record { pending = []; executed = n })
type_line (l ∷ ls) buf n =
    (pos (suc (length l)), text (finished l), record { pending = ls; executed = n })

abbrev desk_calls : Calls Desk
desk_calls = record {
  getargs = λ buf n s. (minus_one, buf, s);
  open_file = λ name s. (minus_one, s);
  read = λ fd buf n s. type_line s.pending buf s.executed;
  write = λ fd buf n s. (n, s);
  close = λ fd s. (pos 0, s);
  execute = λ command s. (pos 0, record s { executed = s.executed + 1 });
}

abbrev typed_lines : List (List ℕ)
typed_lines = codes "ls" ∷ [] ∷ codes "exit" ∷ []

abbrev at_desk : List (List ℕ) → ℕ → Desk
at_desk ls n = record { pending = ls; executed = n }

abbrev desk_session : Session desk_calls (codes "ls" ∷ []) (at_desk typed_lines 0) (at_desk [] 1)
desk_session =
    run {l = codes "ls"} {s1 = at_desk ([] ∷ codes "exit" ∷ []) 0}
      {s2 = at_desk ([] ∷ codes "exit" ∷ []) 1} {r = pos 0} refl (omega arith) (omega arith) refl
      (λ buf. (literal "ls\n", refl, λ j p. refl)) (λ m h. refl)
      (idle {s1 = at_desk (codes "exit" ∷ []) 1} (λ buf. (literal "\n", refl, λ j p. refl))
        (leave (λ buf. (literal "exit\n", refl, λ j p. refl))))

shell_lem_example : shell desk_calls 1200 blank (at_desk typed_lines 0) ≡ some (0, at_desk [] 1)
unfolding rounds
shell_lem_example =
    shell_lem desk_calls 1200 blank (codes "ls" ∷ []) (at_desk typed_lines 0) (at_desk [] 1)
      desk_session (omega arith)

abbrev directory_files : FileArray
directory_files k =
    if k == 2
    then record { fops_table = fops_dir; inode = 0; file_position = 0; flags = 0x11 }
    else record { fops_table = no_table; inode = 0; file_position = 0; flags = 0 }

abbrev note_char : ℕ → List ℕ → List ℕ
note_char c l = c ∷ l

abbrev list_calls : Calls (Io (List ℕ))
list_calls = record {
  getargs = λ buf n s. (minus_one, buf, s);
  open_file = λ name s. (pos 2, s);
  read = read_directory disk;
  write = write_terminal note_char disk;
  close = λ fd s. (pos 0, s);
  execute = λ command s. (minus_one, s);
}

abbrev before_list : Io (List ℕ)
before_list = record { files = directory_files; device = [] }

directory-IsListable : IsListable disk (directory_files 2) 0 3
directory-IsListable = record {
  directory = refl;
  at_entry = refl;
  named = λ j p. name_there j p;
  ended = refl;
}
  where
    name_there : (j : ℕ) → j < 3 → file_name disk (0 + j) 0 ≢ 0
    name_there zero p = omega arith
    name_there (suc zero) p = omega arith
    name_there (suc (suc zero)) p = omega arith
    name_there (suc (suc (suc j))) p = absurd (omega arith)

ls_lem_example :
    (files' : FileArray) × (ls list_calls 4 blank before_list
      ≡ some (0, record { files = files'; device = list_names note_char disk 0 3 [] }))
ls_lem_example =
    ls_lem note_char disk list_calls 4 2 0 3 blank before_list before_list disk-IsBytes refl refl
      refl directory-IsListable (omega arith)

-- What that is, newest first.
listed_names : list_names note_char disk 0 3 [] ≡ codes "\nctr\nllehs\n."
listed_names = refl

counter_lem_example :
    (s' : Desk) × (counter desk_calls 70 blank (at_desk (codes "0" ∷ []) 0) ≡ some (0, s'))
    × Counted desk_calls 0 100 (at_desk [] 0) s'
counter_lem_example =
    counter_lem desk_calls 70 b'0' blank (literal "0\n") (at_desk (codes "0" ∷ []) 0) (at_desk [] 0)
      (omega arith) (omega arith) (omega arith) refl refl refl

pingpong_total_example :
    (buf' : Mem) × (c' : ℕ) × (s' : Desk) × (pingpong desk_calls 81 3 blank blank (at_desk [] 0)
      ≡ some (buf', c', s'))
    × IsLetter c'
    × IsWorld buf'
pingpong_total_example = pingpong_total desk_calls 81 3 blank blank (at_desk [] 0) (omega arith)
