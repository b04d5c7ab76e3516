-- ===== src/Tests/Boot.antt =====
-- The boot code, and the messages of the exceptions.
use cl_os.Prelude.{
  ℕ, ◌+◌, ◌≡◌, refl, ap, ◌∙◌, Mem, Option, none, Bool, true, false, ◌-◌, ◌==◌, ltb, if◌then◌else◌,
  text, [], some, arith,
}
use cl_os.Prelude.Literal.{codes}
use cl_os.Screen.{Screen, puts, clear}
use cl_os.Console.{Console, shell_line}
use cl_os.Printf.{
  printf, printf_from, specifier, put_converted, convert_hex, convert_aligned, pad_zeros,
}
use cl_os.Numbers.{itoa, digits_from, strrev, reverse_from}
use cl_os.Strings.{strncmp, strncmp_from, strcpy, strcpy_from, strlen, strlen_from}
use cl_os.Fs.{read_data, copy_block, copy_blocks}
use cl_os.Fs.Image.{inode_length, data_block, datablock_adrs}
use cl_os.Fs.Lookup.{read_dentry_by_name, same_name, find_name, copy_dentry}
use cl_os.Execute.{parser, copy_cmd, copy_args, check_exe}
use cl_os.Process.{Kernel, Outcome, entered, find_pid, setup_paging, start, enter, sys_execute}
use cl_os.Printf.Total.{printf_total}
use cl_os.Boot.{
  System, Linked, executed, multiboot_bootloader_magic, bootblock, entry, set_up, before_shell,
  report_boot, show_info, show_if, show_maps, show_words,
}
use cl_os.Boot.First.{IsBooted, entry-executed, entry-IsBooted}
use cl_os.Strings.Copy.{EndsAt}
use cl_os.Tests.Disk.{blank, disk}
use cl_os.Tests.Kernel.{kernel, stack}
use cl_os.Tests.Console.{board, console}
use cl_os.Tests.Descriptors.{blank_segment, blank_segments, blank_idt, boot_labels, some_handlers}

abbrev linked : Linked
linked = record {
  labels = boot_labels;
  handlers = some_handlers;
  table_0 = 0x405000;
  table_term = 0x406000;
  ldt_desc = blank_segment;
  tss_desc = blank_segment;
}

abbrev switched_on : System ℕ
switched_on = record {
  console = record console { kernel = record kernel { pid_bitmap = 0 } };
  segments = blank_segments;
  idt = blank_idt;
  tables = record {
    page_dir = λ p e. 0;
    page_table_0 = λ e. 0;
    page_table_vidmap = λ e. 0;
    page_table_term = λ e. 0;
  };
}

-- The memory behind the loader: no flag is set, and the first module is the image of `Disk` at 4096.
abbrev loaded : Mem
loaded a = if ltb a 4096 then if a == 1 then 16 else 0 else disk (a - 4096)

abbrev cleared : Console ℕ
cleared = record switched_on.console { screen = clear 1 switched_on.console.screen }

abbrev reports : Option (Bool × Console ℕ)
reports = report_boot 40 loaded multiboot_bootloader_magic 64 cleared

abbrev reported : Console ℕ
reported = elim reports [ none ↦ cleared | some (b, c) ↦ c ]

report_ends : reports ≡ some (true, reported)
unfolding report_boot show_info show_if show_maps show_words printf printf_from specifier
    put_converted convert_hex convert_aligned pad_zeros strcpy strcpy_from strlen strlen_from itoa
    digits_from strrev reverse_from puts
report_ends = refl

abbrev booting : Kernel
booting = record switched_on.console.kernel { which_term = 1 }

abbrev starting : Option Outcome
starting = sys_execute 40 (bootblock loaded 64) stack shell_line booting

abbrev started : Kernel
started = elim starting [ some (entered k) ↦ k | _ ↦ booting ]

shell_starts : starting ≡ some (entered started)
unfolding sys_execute parser copy_cmd copy_args check_exe read_dentry_by_name find_name copy_dentry
    same_name strncmp strncmp_from cl_os.Prelude.diff8 find_pid setup_paging start enter read_data
    copy_block copy_blocks inode_length data_block datablock_adrs strcpy strcpy_from
shell_starts = refl

same_kernel : reported.kernel ≡ switched_on.console.kernel
unfolding report_boot show_info show_if show_maps show_words printf printf_from specifier
    put_converted convert_hex convert_aligned pad_zeros strcpy strcpy_from strlen strlen_from itoa
    digits_from strrev reverse_from puts
same_kernel = refl

abbrev at_shell : System ℕ
at_shell =
    before_shell board linked stack
      (set_up board linked stack (record switched_on { console = reported }))

boot_ends :
    entry board linked stack 40 loaded multiboot_bootloader_magic 64 switched_on
    ≡ some (executed at_shell (entered started))
boot_ends =
    entry-executed board linked stack 40 loaded multiboot_bootloader_magic 64 switched_on reported
      (entered started) report_ends
      (ap
          (λ (k : Kernel).
            sys_execute 40 (bootblock loaded 64) stack shell_line (record k { which_term = 1 }))
          same_kernel
        ∙ shell_starts)

-- The shell starts.
entry-IsBooted_example :
    IsBooted board linked stack
      (bootblock loaded 64)
      switched_on
      (executed at_shell (entered started))
entry-IsBooted_example =
    entry-IsBooted board linked stack 40 loaded multiboot_bootloader_magic 64 switched_on
      (executed at_shell (entered started)) refl boot_ends

empty-EndsAt : EndsAt (text []) 0 (0 + 0)
empty-EndsAt = record { later = omega arith; nul = refl; full = λ j p q. absurd (omega arith) }

printf_total_example :
    (r : ℕ × Screen) × (printf 1 1 0
        (λ i. 391)
        (λ p. text [])
        blank
        60
        (text (codes "%u of %#x: %s\n"))
        console.screen
      ≡ some r)
printf_total_example =
    printf_total 1 1 0 (λ i. 391) (λ p. text []) blank 0 60 (codes "%u of %#x: %s\n") console.screen
      (λ i. omega arith) (λ p. (0, empty-EndsAt, omega arith)) refl refl (omega arith)
