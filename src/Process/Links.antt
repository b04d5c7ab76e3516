-- ===== src/Process/Links.antt =====
-- A child process from its launch to its halt.
use Prim.Native.Nat.{bit_or}
use cl_os.Prelude.{
  ℕ, ◌+◌, ◌-◌, ◌*◌, ◌%◌, ◌^◌, ◌<◌, ◌≡◌, ◌≢◌, refl, ltb, ◌==◌, if◌then◌else◌, minus_one, Mem, some,
  arith, true,
}
use cl_os.Prelude.Bits.{bit, bit-set, all_below, all_below_sound}
use cl_os.Pcb.{close_flag}
use cl_os.Process.{
  Kernel, Stack, resumed, claim_pcb, place, replace_shell, adopt, ready, launch, release, return_to,
  halt_result, sys_halt, kernel_stack_base, task_stack_size,
}
use cl_os.Process.Bitmap.{bit-drop}

byte_table : all_below 8 (λ l. all_below 256 (λ x. ltb (bit_or x (2 ^ l)) 256)) ≡ true
unfolding all_below
byte_table = refl

pub bit_or-byte : (x l : ℕ) → x < 256 → l < 8 → bit_or x (2 ^ l) < 256
bit_or-byte x l hx hl = ground (
  arith,
  all_below_sound 256 (λ x. ltb (bit_or x (2 ^ l)) 256) x (all_below_sound 8 _ l byte_table hl) hx,
)

-- Setting a clear bit and clearing it again.
bit-set_drop :
    (l j x : ℕ)
    → l < 8
    → j < 8
    → x < 256
    → bit l x ≡ 0
    → bit j ((bit_or x (2 ^ l) + 256 - 2 ^ l) % 256) ≡ bit j x
bit-set_drop l j x hl hj hx z = ground (
  arith,
  bit-drop l j (bit_or x (2 ^ l)) hl hj (bit_or-byte x l hx hl)
      (ground (arith, bit-set l l x hl hl hx)),
  bit-set l j x hl hj hx,
  z,
)

-- A program that the running process `p` executes as the child `pid`, not a new shell of a terminal, and that
-- halts before anything else changes the kernel: `p` resumes with 256
-- where the register that `halt_ret_label` compares is 1 and with the low byte of the child's status where it is not,
-- and `program_exception` tells whether the status was 256, that of an exception; `p` runs again, on its own page directory and kernel stack, and waits for no child; the bits of
-- `pid_bitmap` are those from before the launch, every control block but those of `p` and `pid` is as
-- it was, and the descriptors of the child are closed.
pub sys_halt-launch :
    (fuel : ℕ) (bblock : Mem) (st : Stack) (status pid : ℕ) (prog_img args : Mem) (k : Kernel)
    → k.pid_bitmap < 256
    → pid < 6
    → bit pid k.pid_bitmap ≡ 0
    → k.cur ≢ pid
    → (k.pcbs k.cur).pid ≡ k.cur
    → k.which_term ≡ 0
    → k.attempt_exit ≡ 0
    → (k' : Kernel) × (sys_halt fuel bblock st status (launch pid prog_img args k)
        ≡ some (resumed (halt_result st.exception_register status) k'))
      × (k'.program_exception ≡ (if status == 256 then 1 else 0))
      × (k'.cur ≡ k.cur)
      × ((k'.pcbs k.cur).child_pid ≡ minus_one)
      × (k'.cr3 ≡ k.cur)
      × (k'.tss_esp0 ≡ kernel_stack_base - k.cur * task_stack_size)
      × ((j : ℕ) → j < 8 → bit j k'.pid_bitmap ≡ bit j k.pid_bitmap)
      × ((j : ℕ) → j ≢ k.cur → j ≢ pid → k'.pcbs j ≡ k.pcbs j)
      × ((fd : ℕ) → fd < 8 → ((k'.pcbs pid).file_array fd).flags ≡ close_flag)
unfolding launch claim_pcb place replace_shell adopt ready release return_to sys_halt
sys_halt-launch fuel bblock st status pid prog_img args k byte hp free ne self w a = (
  return_to k.cur (release status (launch pid prog_img args k)),
  ground (arith),
  refl,
  refl,
  ground (arith),
  ground (arith),
  ground (arith),
  (λ j h. ground (arith, bit-set_drop pid j k.pid_bitmap (omega arith) h byte free)),
  (λ j h g. ground arith),
  (λ fd h. ground arith),
)
