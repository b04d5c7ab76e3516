-- ===== src/Execute.antt =====
-- filesIWorkedOn/executehelper.c: the command line of `sys_execute`, and the test for an executable.
pub mod Parse
use cl_os.Prelude.{
  ℕ, zero, suc, ◌+◌, ◌==◌, ◌!=◌, ◌&&◌, ◌||◌, if◌then◌else◌, ℤ, pos, negsuc, minus_one, Mem, store,
  Bool, Option, none, some,
}
use cl_os.Fs.{read_data}
use cl_os.Fs.Lookup.{Dentry, read_dentry_by_name}

abbrev pub argsize : ℕ
argsize = 32

abbrev pub is_end : ℕ → Bool
is_end c = c == b'\n' || c == 0

-- The first `while` of `parser`: `cmd` and the index where it stops, `none` without fuel.
unfoldable pub copy_cmd : ℕ → Mem → Mem → ℕ → Option (Mem × ℕ)
copy_cmd zero command cmd i = none
copy_cmd (suc fuel) command cmd i =
    let rest = copy_cmd fuel command (store cmd i (command i)) (i + 1) in
    if command i != b' ' && (command i != b'\n' && command i != 0) then rest else some (cmd, i)

-- The second `while`: `args` and `t`. It breaks at `t == ARGSIZE - 1`, with `k` rounds left till then.
unfoldable pub copy_args : Mem → Mem → ℕ → ℕ → ℕ → Mem × ℕ
copy_args command args t i zero = (args, t)
copy_args command args t i (suc k) =
    let rest = copy_args command (store args t (command i)) (t + 1) (i + 1) k in
    if command i != b'\n' && command i != 0 then rest else (args, t)

-- `if(t==(ARGSIZE-1)) args[t] = '\0';`
abbrev pub close_args : Mem × ℕ → Mem
close_args (args, t) = if t == 31 then store args t 0 else args

-- `cmd` and `args` after the call.
unfoldable pub parser : ℕ → Mem → Mem → Mem → Option (Mem × Mem)
parser fuel command cmd args = elim (copy_cmd fuel command cmd 0) [
  | none ↦ none
  | some (cmd', i) ↦
      let i' = if command i == b' ' then i + 1 else i in
      some (cmd', close_args (copy_args command args 0 i' 31))
]

-- `elf[0]==0x7F&&elf[1]=='E'&&elf[2]=='L'&&elf[3]=='F'`
abbrev pub has_magic : Mem → Bool
has_magic elf = elf 0 == 0x7f && (elf 1 == b'E' && (elf 2 == b'L' && elf 3 == b'F'))

-- The branches behind `read_data`.
abbrev pub check_magic : ℤ × Mem → ℤ
check_magic (negsuc n, elf) = minus_one
check_magic (pos n, elf) = if has_magic elf then pos 0 else minus_one

-- `junk` and `elf` are the uninitialized variables on the stack. The messages of the failing
-- branches are left out.
unfoldable pub check_exe : ℕ → Mem → Dentry → Mem → Mem → Option ℤ
check_exe fuel bblock junk elf cmd = elim (read_dentry_by_name bblock fuel cmd junk) [
  | none ↦ none
  | some (negsuc n, e) ↦ some minus_one
  | some (pos n, e) ↦ some (check_magic (read_data bblock e.inode 0 elf 4))
]
