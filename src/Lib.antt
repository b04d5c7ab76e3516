-- ===== src/Lib.antt =====
-- clOS, a small Unix-like kernel for the x86: its file system, its system calls, its processes and
-- its device drivers.
--
-- The kernel boots from a multiboot loader with a file system image in memory. Interrupts come from
-- two 8259 controllers: the interval timer, which runs the scheduler, the keyboard and the real-time
-- clock. A user program calls the kernel through interrupt 0x80. A process has a control block with
-- eight descriptors, and an open descriptor points to one of four tables of operations: regular
-- file, directory, clock, terminal.
--
-- Which file models which part (paths of the repository in parentheses):
-- - Prelude: shared names, tests, memory as a function from offsets to bytes, bits of a byte.
-- - Strings (filesIWorkedOn/lib.c): `strlen`, `strncmp`, `strcpy`, `strncpy`. A `char *` is the memory
--   from that pointer on.
-- - Blocks (filesIWorkedOn/lib.c): `memset`, `memset_word`, `memset_dword`, `memcpy`, `memmove` in one memory, by
--   the loops of their assembly.
-- - Machine: the port instructions, a parameter of the drivers.
-- - Pic (filesIWorkedOn/i8259.c), Rtc (filesIWorkedOn/rtc.c), Pit (filesTeamWorkedOn/pit.c): the drivers.
--   Pic/Chip and the record `Chip` of Rtc/Registers say what the drivers rely on in the chips.
-- - Fs (filesTeamWorkedOn/fs.c, fs.h): `read_data`; Fs/Image is the layout, Fs/Lookup the directory,
--   Fs/Ops the operations of regular files and of the directory.
-- - Pcb (filesTeamWorkedOn/pcb.h): the control block.
-- - Execute (filesIWorkedOn/executehelper.c): `parser` and `check_exe` (`checkExe`).
-- - Syscalls (filesIWorkedOn/syscalls.c): `sys_open`, `sys_read`, `sys_write`, `sys_close` on the file
--   array of the running process.
-- - Process (filesIWorkedOn/syscalls.c, kernel.c): `sys_execute` and `sys_halt` on the record `Kernel`.
-- - Schedule (filesIWorkedOn/schedule.c): `schedule`, with a search on fuel: six rounds are enough where a
--   process can run.
-- - Terminal (filesIWorkedOn/terminal.c): the line buffers (`insert`, `clearbuf`, `backspacebuf`), `tRead`
--   (`t_read`), whose wait takes the keys that come in as a list, and `tWrite` (`t_write`). Terminal/Editor is
--   the view of a line as a list of characters.
-- - Screen (filesIWorkedOn/lib.c): `putc`, `puts`, `clear`, `backspace`, `tScroll` (`t_scroll`) and the copying
--   loops of `screenChange`, on one memory with the addresses of the code.
-- - Numbers (filesIWorkedOn/lib.c): `itoa` and `strrev`.
-- - Syscalls/Arguments (filesIWorkedOn/syscalls.c): `sys_getargs`, `vidmap`, `set_handler`, `sigreturn`.
-- - Paging (filesIWorkedOn/kernel.c): `initilize_paging` and `add_vidmap` on the directories and tables.
-- - Keyboard (filesIWorkedOn/keyboard.c, keyhelper.c): the tables of characters and the choice of the
--   character that a key inserts.
-- - Printf (filesIWorkedOn/lib.c): `printf`.
-- - Console (filesIWorkedOn/lib.c, keyboard.c): `updatecursor`, `screenChange` (`screen_change`) and, in
--   Console/Handler, `keyboard_init` and `keyboard_handler`, on one record `Console` of the processes, the lines,
--   the screen and the ports. `Turn` tells whether a function returns or is left for a new shell.
-- - Lifecycle: `sys_execute`, `sys_halt`, `schedule` and the changes of the terminal as steps on the kernel, in any
--   order, from the first shell on; a shell of a terminal that fails to start is not among the steps.
--   Process/Tree has the invariant of the processes.
-- - Rtc/Wait (filesIWorkedOn/rtc.c): `rtc_read` and `rtc_wait`; a list tells at which of
--   their steps an interrupt comes.
-- - Programs (syscalls/ece391cat.c): `cat` on the interface `Calls`; Programs/Cat gives it the kernel's functions for
--   a regular file and the terminal.
-- - Programs/Support (syscalls/ece391support.c): the library of the user programs.
-- - Programs/Ls, Programs/Shell, Programs/Grep (syscalls/ece391ls.c, ece391shell.c, ece391grep.c) and Programs/Small
--   (syscalls/ece391counter.c, ece391hello.c, ece391testprint.c): the `main` of each program on `Calls`; Programs/Pingpong
--   (syscalls/ece391pingpong.c), whose endless loop runs for a given number of rounds.
-- - Descriptors (filesTeamWorkedOn/x86_desc.h, filesIWorkedOn/kernel.c): the segment and interrupt descriptors, and
--   the tables that `entry` fills (`set_segments`, `set_idt`, `squash`).
-- - Boot (filesIWorkedOn/kernel.c): `entry`; Boot/Exceptions (filesIWorkedOn/lib.c): `print_exceptions` and
--   `test_interrupts`.
-- - Console/Read (filesIWorkedOn/terminal.c): the whole of `tRead` (`read_terminal`) on the console, with the keyboard's
--   interrupts between the rounds of its loops.
-- - Tests: concrete inputs.
--
-- Integers are natural numbers; a 32-bit value keeps its wrap-around where the code can reach it, and
-- a result that may be -1 is an integer. An uninitialized variable of the C code is an argument.
--
-- Loops that are bounded by a constant or a length are recursion on the rounds left. Loops that
-- end at a byte in memory (`strlen`, `strcpy`, `parser`, `read_dentry_by_name`) take fuel; the
-- theorems ask for more fuel than the string or the directory is long, and then the result is there.
-- The two loops of `rtc_write` take 33 and 17 rounds: each round of the first one halves a number
-- below 2 ^ 32, and the second one stops at the rate of a power of two up to 1024.
--
-- The waits of `keyboard_handler` on its ports take fuel, and so does `printf`; without fuel they return nothing. How
-- long a wait lasts is up to the keyboard. A 32-bit number has at most 32 digits, so 33 rounds are enough for `itoa`.
--
-- Not modelled: the assembly (filesTeamWorkedOn/*.S), whose effect on the stacks is the constructor of
-- `Outcome` that a call returns, and whose labels are the records `Handlers` and `Labels`; the loads of the
-- processor's registers; the messages of the calls on processes, of `rtc_wait` and of `rtc_write`; the interrupts
-- between `sti` in `entry` and the first shell; the programs ece391sigtest.c, ece391syserr.c and
-- ece391emulate.c under syscalls, which are tests and an emulation of the calls on another system; and the unit tests in filesIWorkedOn/kernel.c, which are comments.
pub mod Prelude
pub mod Strings
pub mod Blocks
pub mod Machine
pub mod Pic
pub mod Rtc
pub mod Pit
pub mod Pcb
pub mod Fs
pub mod Execute
pub mod Syscalls
pub mod Process
pub mod Schedule
pub mod Lifecycle
pub mod Terminal
pub mod Screen
pub mod Numbers
pub mod Printf
pub mod Console
pub mod Programs
pub mod Paging
pub mod Descriptors
pub mod Boot
pub mod Keyboard
pub mod Tests
