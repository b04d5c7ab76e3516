-- ===== src/Process/Refused.antt =====
-- A `sys_execute` that returns to its caller has changed nothing.
use cl_os.Prelude.{
  ℕ, ◌<◌, ◌≡◌, refl, ℤ, pos, negsuc, minus_one, Mem, Option, none, some, arith, inl, inr, lt_or_ge,
  eq_or_ne, Option-cases, ltb, if◌then◌else◌, ◌/◌, ◌+◌, ◌-◌, ◌≢◌, ◌==◌, true, false, ◌∙◌, sym,
}
use mathlib.Core.Path.{subst}
use cl_os.Fs.Image.{inode_cnt, inode_length}
use cl_os.Fs.{Flow, returned, running, result, copy_blocks, read_data}
use cl_os.Fs.Read.{read_data_refused, read_data_end}
use cl_os.Fs.Lookup.{read_dentry_by_name}
use cl_os.Execute.{parser, check_magic, check_exe}
use cl_os.Process.{
  Kernel, Outcome, entered, resumed, Stack, find_pid, setup_paging, enter, start, sys_execute,
}

abbrev AfterCall : Kernel → Option Outcome → Type 0
AfterCall k none = Unit
AfterCall k (some (Outcome.returned r k')) = (r ≡ minus_one) × (k' ≡ k)
AfterCall k (some (entered k')) = Unit
AfterCall k (some (resumed n k')) = Unit

-- Of an inode out of range `read_data` gives -1, so a program that passes the test has an inode.
inode_of_magic :
    (bblock elf : Mem) (inode n : ℕ)
    → check_magic (read_data bblock inode 0 elf 4) ≡ pos n
    → inode < inode_cnt bblock
inode_of_magic bblock elf inode n h = elim (lt_or_ge inode (inode_cnt bblock)) [
  | inl l ↦ l
  | inr g ↦ ground (arith, rw (read_data_refused bblock inode 0 elf 4 (inl g)) at h)
]

pos-result : (f : Flow) → (n : ℕ) × (b : Mem) × (result f ≡ (pos n, b))
pos-result (returned n b) = (n, b, refl)
pos-result (running n b) = (n, b, refl)

is_below : {a b : ℕ} → a < b → ltb a b ≡ true
is_below l = ground arith

not_below : (a : ℕ) → ltb a 0 ≡ false
not_below a = ground arith

is_not : {a : ℕ} → a ≢ 0 → ((0 == a) ≡ false) × ((a == 0) ≡ false)
is_not n = ground arith

abbrev clamped : ℕ → ℕ → ℕ
clamped file_length length = if ltb (file_length - 0) length then file_length - 0 else length

reads :
    (bblock buf : Mem) (inode length : ℕ)
    → inode < inode_cnt bblock
    → inode_length bblock inode ≢ 0
    → length ≢ 0
    → read_data bblock inode 0 buf length
      ≡ result (
          copy_blocks bblock inode 0
            (clamped (inode_length bblock inode) length)
            0
            (clamped (inode_length bblock inode) length / 4096 + 1)
            0
            buf)
unfolding read_data
reads bblock buf inode length h nz nl =
    rw (is_below h, not_below (inode_length bblock inode), (is_not nz).0, (is_not nl).1) refl

pos-read_data :
    (bblock buf : Mem) (inode length : ℕ)
    → inode < inode_cnt bblock
    → (n : ℕ) × (b : Mem) × (read_data bblock inode 0 buf length ≡ (pos n, b))
pos-read_data bblock buf inode length h = elim (eq_or_ne (inode_length bblock inode) 0) [
  | inl z ↦ (0, buf, read_data_end bblock inode 0 buf length h (omega arith) (inl (sym z)))
  | inr nz ↦ elim (eq_or_ne length 0) [
    | inl z ↦ (0, buf, read_data_end bblock inode 0 buf length h (omega arith) (inr z))
    | inr nl ↦
        let want = clamped (inode_length bblock inode) length in
        let (n, b, e) = pos-result (copy_blocks bblock inode 0 want 0 (want / 4096 + 1) 0 buf) in
        (n, b, reads bblock buf inode length h nz nl ∙ e)
  ]
]

-- Behind the test for an executable nothing fails.
enter-AfterCall :
    (bblock args : Mem) (st : Stack) (pid inode : ℕ) (k k0 : Kernel)
    → inode < inode_cnt bblock
    → AfterCall k0 (some (enter pid args k (read_data bblock inode 0 st.prog_img 258048)))
unfolding enter
enter-AfterCall bblock args st pid inode k k0 h =
    let (n, b, e) = pos-read_data bblock st.prog_img inode 258048 h in rw (e, enter) tt

start-AfterCall :
    (fuel : ℕ) (bblock : Mem) (st : Stack) (cmd args : Mem) (pid n : ℕ) (k : Kernel)
    → check_exe fuel bblock st.junk st.elf cmd ≡ some (pos n)
    → AfterCall k (start fuel bblock st cmd args pid k)
unfolding start check_exe
start-AfterCall fuel bblock st cmd args pid n k h =
    elim (Option-cases (read_dentry_by_name bblock fuel cmd st.junk)) [
      | inl e ↦ rw (e, start) tt
      | inr ((pos x, e), eq) ↦
          rw (eq, start)
            (enter-AfterCall bblock args st pid e.inode (setup_paging pid k) k
              (inode_of_magic bblock st.elf e.inode n (ground (arith, rw (eq, check_exe) at h))))
      | inr ((negsuc x, e), eq) ↦ ground (arith, rw (eq, check_exe) at h)
    ]

AfterCall-sys_execute :
    (fuel : ℕ) (bblock : Mem) (st : Stack) (command : Mem) (k : Kernel)
    → AfterCall k (sys_execute fuel bblock st command k)
unfolding sys_execute
AfterCall-sys_execute fuel bblock st command k =
    elim (Option-cases (
      parser fuel command (λ i. if ltb i 1024 then 0 else st.cmd i)
        (λ i. if ltb i 32 then 0 else st.args i))) [
          | inl e ↦ rw (e, sys_execute) tt
          | inr ((cmd, args), e) ↦ elim (Option-cases (check_exe fuel bblock st.junk st.elf cmd)) [
            | inl c ↦ rw (e, sys_execute, c, sys_execute) tt
            | inr (negsuc n, c) ↦ rw (e, sys_execute, c, sys_execute) (refl, refl)
            | inr (pos n, c) ↦ elim (Option-cases (find_pid k.pid_bitmap 0 5)) [
              | inl f ↦ rw (e, sys_execute, c, sys_execute, f, sys_execute) (refl, refl)
              | inr (pid, f) ↦
                  rw (e, sys_execute, c, sys_execute, f, sys_execute)
                    (start-AfterCall fuel bblock st cmd args pid n k c)
            ]
          ]
        ]

-- A `sys_execute` that returns to its caller, for whatever reason, returns -1 and leaves the kernel as
-- it was, its paging included: once the file has passed the test for an executable and a pid is
-- found, nothing fails any more.
pub sys_execute-returned :
    (fuel : ℕ) (bblock : Mem) (st : Stack) (command : Mem) (k k' : Kernel) (r : ℤ)
    → sys_execute fuel bblock st command k ≡ some (Outcome.returned r k')
    → (r ≡ minus_one) × (k' ≡ k)
sys_execute-returned fuel bblock st command k k' r e =
    subst (AfterCall k) e (AfterCall-sys_execute fuel bblock st command k)
