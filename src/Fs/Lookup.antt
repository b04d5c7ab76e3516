-- ===== src/Fs/Lookup.antt =====
-- The directory of the boot block: `read_dentry_by_name` and `read_dentry_by_index` of fs.c.
pub mod Index
pub mod Find
use mathlib.Core.Option
use cl_os.Prelude.{
  ℕ, zero, suc, ◌+◌, ◌==◌, ◌!=◌, ◌||◌, if◌then◌else◌, Mem, ℤ, pos, negsuc, minus_one, text, [],
  Option, none, some, Bool, true, false,
}
use cl_os.Strings.{strncmp, strcpy}
use cl_os.Fs.Image.{file_name, file_type, inode_num, type_file, max_files}

-- `dentry_t`, less its padding.
pub record Dentry : Type 0 where
  pub name : Mem
  pub kind : ℕ
  pub inode : ℕ

-- The C test of an `int32_t` against 0.
abbrev pub is_zero : ℤ → Bool
is_zero (pos zero) = true
is_zero (pos (suc n)) = false
is_zero (negsuc n) = false

-- `strncmp(a, b, 32) == 0`
unfoldable pub same_name : Mem → Mem → Bool
unfolding strncmp
same_name a b = is_zero (strncmp a b 32)

abbrev pub empty_name : Mem
empty_name = text []

module _ (bblock : Mem) where
  -- The `while` of `read_dentry_by_name` at entry `d`: `none` without fuel, `some none` for its
  -- `return -1`, and the entry otherwise. No test bounds `d` by the 63 entries.
  unfoldable pub find_name : ℕ → Mem → ℕ → Option (Option ℕ)
  find_name zero fname d = none
  find_name (suc fuel) fname d =
      let rest = find_name fuel fname (d + 1) in
      if same_name (file_name bblock d) fname
      then some (some d)
      else if same_name (file_name bblock d) empty_name
      then some none
      else rest

  -- The three assignments to `*dentry`.
  unfoldable pub copy_dentry : ℕ → ℕ → Dentry → Option Dentry
  copy_dentry fuel d dentry =
      Option.map
        (λ name. record { name = name; kind = file_type bblock d; inode = inode_num bblock d })
        (strcpy fuel dentry.name (file_name bblock d))

  unfoldable pub read_dentry_by_name : ℕ → Mem → Dentry → Option (ℤ × Dentry)
  unfolding find_name copy_dentry
  read_dentry_by_name fuel fname dentry =
      if same_name fname empty_name
      then some (minus_one, dentry)
      else elim (find_name fuel fname 0) [
        | none ↦ none
        | some none ↦ some (minus_one, dentry)
        | some (some d) ↦ Option.map (λ e. (pos 0, e)) (copy_dentry fuel d dentry)
      ]

  -- The `while` of `read_dentry_by_index` at entry `d`, with `k` entries behind it.
  find_index : ℕ → ℕ → ℕ → Option ℕ
  find_index index d zero =
      if inode_num bblock d != index || file_type bblock d != type_file then none else some d
  find_index index d (suc k) =
      let rest = find_index index (d + 1) k in
      if inode_num bblock d != index || file_type bblock d != type_file then rest else some d

  unfoldable pub read_dentry_by_index : ℕ → ℕ → Dentry → Option (ℤ × Dentry)
  unfolding find_index copy_dentry
  read_dentry_by_index fuel index dentry = elim (find_index index 0 62) [
    | none ↦ some (minus_one, dentry)
    | some d ↦ Option.map (λ e. (pos 0, e)) (copy_dentry fuel d dentry)
  ]
