-- ===== src/Tests/Misc.antt =====
-- Arguments, numbers, page tables and keys.
use cl_os.Prelude.{
  ℕ, ◌+◌, ◌*◌, ◌/◌, ◌%◌, ◌≤◌, ◌<◌, ◌≡◌, ◌≢◌, ◌==◌, ltb, if◌then◌else◌, pos, Mem, some, arith, true,
  false,
}
use cl_os.Syscalls.Arguments.{sys_getargs, sys_getargs_lem}
use cl_os.Screen.{video, video_term}
use cl_os.Paging.{Tables, initilize_paging}
use cl_os.Paging.Entries.{initilize_paging_lem}
use cl_os.Keyboard.{key_letter}
use cl_os.Tests.Disk.{shell_name}
use cl_os.Tests.Strings.{shell_name-EndsAt}

sys_getargs_lem_example :
    (b : Mem) × (sys_getargs 9 shell_name (some shell_name) 32 ≡ some (pos 0, some b))
    × ((i : ℕ) → b i ≡ (if ltb i 5 then shell_name i else if ltb i 5 then 0 else shell_name i))
sys_getargs_lem_example =
    sys_getargs_lem 9 5 5 32 shell_name shell_name shell_name-EndsAt shell_name-EndsAt (omega arith)
      (omega arith) (omega arith) (omega arith)

abbrev no_tables : Tables
no_tables = record {
  page_dir = λ p e. 0;
  page_table_0 = λ e. 0;
  page_table_vidmap = λ e. 0;
  page_table_term = λ e. 0;
}

initilize_paging_lem_example :
    let s' = initilize_paging 0x405000 0x406000 no_tables in
    ((p e : ℕ)
      → p < 6
      → e < 1024
      → s'.page_dir p e ≡ (
          if e == 0
          then 0x405007
          else if e == 1
          then 0x400183
          else if e == video_term 1 / 0x400000
          then 0x406007
          else 2))
    × (s'.page_table_0 (video / 4096) ≡ video + 7)
    × ((t : ℕ)
        → 1 ≤ t
        → t ≤ 3
        → s'.page_table_term (video_term t / 4096 % 1024) ≡ 0x2400000 + 0x1000 * t + 7)
initilize_paging_lem_example = initilize_paging_lem 0x405000 0x406000 no_tables

abbrev one_key : ℕ
one_key = b'1'

one_key-shown : key_letter false true one_key ≢ 0xff
unfolding key_letter
one_key-shown = omega arith
