-- ===== src/Process/Tree/Steps.antt =====
-- A `sys_execute` that enters a program has launched it.
use mathlib.Core.Path.{subst}
use cl_os.Prelude.{
  ℕ, zero, suc, ◌+◌, ◌≤◌, ◌<◌, ◌≡◌, inl, inr, refl, ap, sym, if◌then◌else◌, ℤ, pos, negsuc, Mem,
  Option, none, some, arith, Option-cases, ltb,
}
use cl_os.Prelude.Bits.{bit}
use cl_os.Fs.{read_data}
use cl_os.Fs.Lookup.{read_dentry_by_name}
use cl_os.Execute.{parser, check_exe}
use cl_os.Process.{
  Kernel, Stack, Outcome, entered, resumed, find_pid, setup_paging, load_image, launch, enter,
  start, sys_execute,
}
use cl_os.Process.Bitmap.{bit_test}
use cl_os.Process.Tree.{IsLinked, IsTree}
use cl_os.Process.Tree.Launch.{IsReady, launch-IsTree}

find_pid-free :
    (x p k l : ℕ)
    → x < 256
    → p + k < 8
    → find_pid x p k ≡ some l
    → (p ≤ l) × (l ≤ p + k) × (bit l x ≡ 0)
unfolding find_pid
find_pid-free x p zero l hx h e =
    ground (arith, bit_test x p hx (omega arith), ap (λ (y : ℕ). bit y x))
find_pid-free x p (suc k) l hx h e =
    ground (arith, bit_test x p hx (omega arith), find_pid-free x (p + 1) k l hx (omega arith))

-- A state of the kernel behind the image's copy, which the links do not see.
abbrev pub loaded : ℕ → ℕ → Mem → Kernel → Kernel
loaded pid n prog_img k = load_image prog_img n (setup_paging pid k)

abbrev pub IsLaunched : Kernel → Kernel → Type 0
IsLaunched k k' =
    (pid : ℕ) × (n : ℕ) × (prog_img : Mem) × (args : Mem) × (pid < 6)
    × (bit pid k.pid_bitmap ≡ 0)
    × (k' ≡ launch pid prog_img args (loaded pid n prog_img k))

abbrev pub Entered : Kernel → Option Outcome → Type 0
Entered k none = Unit
Entered k (some (Outcome.returned r k')) = Unit
Entered k (some (entered k')) = IsLaunched k k'
Entered k (some (resumed n k')) = ⊥

enter-Entered :
    (pid : ℕ) (args : Mem) (k : Kernel) (r : ℤ × Mem)
    → pid < 6
    → bit pid k.pid_bitmap ≡ 0
    → Entered k (some (enter pid args (setup_paging pid k) r))
unfolding enter
enter-Entered pid args k (negsuc n, prog_img) lt free = tt
enter-Entered pid args k (pos n, prog_img) lt free = (pid, n, prog_img, args, lt, free, refl)

start-Entered :
    (fuel : ℕ) (bblock : Mem) (st : Stack) (cmd args : Mem) (pid : ℕ) (k : Kernel)
    → pid < 6
    → bit pid k.pid_bitmap ≡ 0
    → Entered k (start fuel bblock st cmd args pid k)
unfolding start
start-Entered fuel bblock st cmd args pid k lt free =
    elim (Option-cases (read_dentry_by_name bblock fuel cmd st.junk)) [
      | inl e ↦ rw (e, start) tt
      | inr ((negsuc x, e), eq) ↦ rw (eq, start) tt
      | inr ((pos x, e), eq) ↦
          rw (eq, start)
            (enter-Entered pid args k (read_data bblock e.inode 0 st.prog_img 258048) lt free)
    ]

pub sys_execute-Entered :
    (fuel : ℕ) (bblock : Mem) (st : Stack) (command : Mem) (k : Kernel)
    → k.pid_bitmap < 256
    → Entered k (sys_execute fuel bblock st command k)
unfolding sys_execute
sys_execute-Entered fuel bblock st command k byte =
    elim (Option-cases (
      parser fuel command (λ i. if ltb i 1024 then 0 else st.cmd i)
        (λ i. if ltb i 32 then 0 else st.args i))) [
          | inl e ↦ rw (e, sys_execute) tt
          | inr ((cmd, args), e) ↦ elim (Option-cases (check_exe fuel bblock st.junk st.elf cmd)) [
            | inl c ↦ rw (e, sys_execute, c, sys_execute) tt
            | inr (negsuc n, c) ↦ rw (e, sys_execute, c, sys_execute) tt
            | inr (pos n, c) ↦ elim (Option-cases (find_pid k.pid_bitmap 0 5)) [
              | inl f ↦ rw (e, sys_execute, c, sys_execute, f, sys_execute) tt
              | inr (pid, f) ↦
                  let (_, hi, free) = find_pid-free k.pid_bitmap 0 5 pid byte (omega arith) f in
                  rw (e, sys_execute, c, sys_execute, f, sys_execute)
                    (start-Entered fuel bblock st cmd args pid k (omega arith) free)
            ]
          ]
        ]

loaded-IsLinked :
    (pid n : ℕ) (prog_img : Mem) (k : Kernel) → IsLinked k → IsLinked (loaded pid n prog_img k)
unfolding load_image setup_paging
loaded-IsLinked pid n prog_img k l = record {
  byte = l.byte;
  self = l.self;
  child = l.child;
  parent = l.parent;
}

pub IsLaunched-IsTree : (k k' : Kernel) → IsReady k → IsLaunched k k' → IsTree k'
unfolding load_image setup_paging
IsLaunched-IsTree k k' (linked, parent) (pid, n, prog_img, args, lt, free, e) =
    subst IsTree (sym e) (
      launch-IsTree (loaded pid n prog_img k) pid prog_img args
        (loaded-IsLinked pid n prog_img k linked) lt free parent)
