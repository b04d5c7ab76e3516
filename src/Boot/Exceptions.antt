-- ===== src/Boot/Exceptions.antt =====
-- `print_exceptions` and `test_interrupts` of filesIWorkedOn/lib.c.
use mathlib.Core.Option
use cl_os.Prelude.{
  ℕ, zero, suc, ◌+◌, ◌*◌, ◌%◌, ◌^◌, ◌≤◌, ◌<◌, ◌≡◌, refl, ap, ◌==◌, if◌then◌else◌, Bool, true, false,
  Mem, store, text, List, [], Option, some, arith,
}
use cl_os.Prelude.Literal.{codes}
use cl_os.Strings.Copy.{EndsAt}
use cl_os.Terminal.Reading.{length}
use cl_os.Programs.Support.Compare.{is_full}
use cl_os.Screen.{Screen, video, clear}
use cl_os.Printf.Total.{is_format, printf_total}
use cl_os.Console.{Console, print}

-- The format of the `switch`.
unfoldable pub exception_text : ℕ → List ℕ
exception_text num =
    if num == 0
    then codes "exceptions %d is called: divide-by-zero\n"
    else if num == 1
    then codes "exceptions %d is called: debug\n"
    else if num == 2
    then codes "exceptions %d is called: NMI\n"
    else if num == 3
    then codes "exceptions %d is called: breakpoint\n"
    else if num == 4
    then codes "exceptions %d is called: overflow\n"
    else if num == 5
    then codes "exceptions %d is called: bound range exceeded\n"
    else if num == 6
    then codes "exceptions %d is called: invalid opcode\n"
    else if num == 7
    then codes "exceptions %d is called: device not availble\n"
    else if num == 8
    then codes "exceptions %d is called: double fault\n"
    else if num == 9
    then codes "exceptions %d is called: coproccssor segment overrun\n"
    else if num == 10
    then codes "exceptions %d is called: invalid tss\n"
    else if num == 11
    then codes "exceptions %d is called: segment not present\n"
    else if num == 12
    then codes "exceptions %d is called: stack segment falut\n"
    else if num == 13
    then codes "exceptions %d is called: general protection fault\n"
    else if num == 14
    then codes "exceptions %d is called: page_fault\n"
    else if num == 16
    then codes "exceptions %d is called: x87 floating point exception\n"
    else if num == 17
    then codes "exceptions %d is called: alignment check\n"
    else if num == 18
    then codes "exceptions %d is called: machine check\n"
    else if num == 19
    then codes "exceptions %d is called: SIMD floating point exceptions\n"
    else codes "exceptions %d is called: reserved fault\n"

unfoldable pub print_exceptions : {S : Type 0} → ℕ → ℕ → Console S → Option (Console S)
print_exceptions fuel num s =
    print fuel (text (exception_text num)) num
      (record s { screen = clear s.kernel.current_terminal s.screen })

-- The loop of `test_interrupts` from cell `i` on, with `k` rounds left.
unfoldable pub bump_cells : Mem → ℕ → ℕ → Mem
bump_cells mem i zero = mem
bump_cells mem i (suc k) =
    bump_cells (store mem (video + 2 * i) ((mem (video + 2 * i) + 1) % 256)) (i + 1) k

unfoldable pub test_interrupts : Screen → Screen
unfolding bump_cells
test_interrupts s = record s { mem = bump_cells s.mem 0 2000 }

-- What each of the texts is.
record IsMessage (l : List ℕ) : Type 0 where
  full : is_full l ≡ true
  format : is_format false l ≡ true
  short : length l ≤ 64

either-IsMessage :
    (b : Bool) (l r : List ℕ) → IsMessage l → IsMessage r → IsMessage (if b then l else r)
either-IsMessage true l r h k = h
either-IsMessage false l r h k = k

message : (l : List ℕ) → is_full l ≡ true → is_format false l ≡ true → length l ≤ 64 → IsMessage l
message l h k p = record { full = h; format = k; short = p }

nothing-EndsAt : EndsAt (text []) 0 (0 + 0)
nothing-EndsAt = record { later = omega arith; nul = refl; full = λ j p q. absurd (omega arith) }

exception_text-IsMessage : (num : ℕ) → IsMessage (exception_text num)
unfolding exception_text
exception_text-IsMessage num = either-IsMessage (num == 0) _ _ (message _ refl refl (omega arith)) (
    either-IsMessage (num == 1) _ _ (message _ refl refl (omega arith)) (
      either-IsMessage (num == 2) _ _ (message _ refl refl (omega arith)) (
        either-IsMessage (num == 3) _ _ (message _ refl refl (omega arith)) (
          either-IsMessage (num == 4) _ _ (message _ refl refl (omega arith)) (
            either-IsMessage (num == 5) _ _ (message _ refl refl (omega arith)) (
              either-IsMessage (num == 6) _ _ (message _ refl refl (omega arith)) (
                either-IsMessage (num == 7) _ _ (message _ refl refl (omega arith)) (
                  either-IsMessage (num == 8) _ _ (message _ refl refl (omega arith)) (
                    either-IsMessage (num == 9) _ _ (message _ refl refl (omega arith)) (
                      either-IsMessage (num == 10) _ _ (message _ refl refl (omega arith)) (
                        either-IsMessage (num == 11) _ _ (message _ refl refl (omega arith)) (
                          either-IsMessage (num == 12) _ _ (message _ refl refl (omega arith)) (
                            either-IsMessage (num == 13) _ _ (message _ refl refl (omega arith)) (
                              either-IsMessage (num == 14) _ _ (message _ refl refl (omega arith)) (
                                either-IsMessage (num == 16) _ _ (message _ refl refl (omega arith))
                                  (either-IsMessage (num == 17) _ _
                                    (message _ refl refl (omega arith))
                                    (either-IsMessage (num == 18) _ _
                                      (message _ refl refl (omega arith))
                                      (either-IsMessage (num == 19) _ _
                                        (message _ refl refl (omega arith))
                                        (message _ refl refl (omega arith))))))))))))))))))))

-- For every exception, those without a text of their own too, `print_exceptions` ends, with 140 rounds of fuel: what it leaves
-- is the console with another screen.
pub print_exceptions_total :
    {S : Type 0} (fuel num : ℕ) (s : Console S)
    → num < 2 ^ 32
    → 140 ≤ fuel
    → (screen : Screen) × (print_exceptions fuel num s ≡ some (record s { screen = screen }))
unfolding print_exceptions print
print_exceptions_total fuel num s h l =
    let m = exception_text-IsMessage num in
    let t = (s.kernel.pcbs s.kernel.cur).cur_terminal in
    let (r, e) =
      printf_total s.kernel.current_terminal t s.key_int (λ i. num) (λ p. text []) (text []) 0 fuel
        (exception_text num) (clear s.kernel.current_terminal s.screen) (λ arg. h)
        (λ p. (0, nothing-EndsAt, omega arith)) m.full m.format (omega (arith, m.short)) in
    (
      r.1,
      ap (Option.map (λ (r : ℕ × Screen). let c : Console _ = record s { screen = r.1 } in c)) e,
    )
