-- ===== src/Lib.antt =====
-- Larch OS: the C code of the kernel, from its entry to the shell, its drivers, file system, loader and
-- tables, of the libraries that they use, of the sound card, and of the desktop compositor.
--
-- The program. `kernel_main` sets the parts up one after the other: the boot information, the
-- descriptor tables, the timer, the screen, the shell. The shell (kernel/shell) reads keys, keeps a
-- line and a history, cuts the line into words and runs one of twelve commands. The commands write on
-- the text screen (kernel/drivers/vga_scroll.c) by `vga_putchar`, `vga_writestring`, `vga_set_color`
-- and `vga_clear`, read files by `fs_open` and `fs_read` (kernel/fs/initramfs.c), and read the clock
-- (kernel/drivers/rtc.c) and the tick counter. `kprintf` (kernel/printf/kprintf.c) writes on the same
-- screen. Programs are loaded by kernel/userspace/elf_loader.c and call the kernel through
-- kernel/syscall; the timer calls the scheduler (kernel/sched/process.c). kernel/fs/vfs.c is a second
-- file system interface. lib/libc and lib/math hold routines that the others call, and security/perm
-- decides accesses.
--
-- The files.
--   Prelude        names of the library, lists over native numbers, slices, bit fields, integers
--   Console        `Event`: one call of the display; what the commands produce is a list of events
--   Ram            memory as bytes at 32-bit addresses, and the words in it
--   Libc.Strings, Libc.Memory   lib/libc/string.c: strlen, strcmp; memcpy, memset, strcpy
--   Libc.Math      lib/math/math.c: abs, labs, min_int, max_int, pow_u32, div_round_up, is_power_of_two
--   Fs.Interface   what the commands use of a file system, and the contract of its reads
--   Fs.Initramfs   kernel/fs/initramfs.c: fs_open, fs_read, fs_size; Service fills the interface
--   Fs.Vfs         kernel/fs/vfs.c: vfs_mount, vfs_resolve, vfs_open, vfs_read
--   Printf         kernel/printf/kprintf.c: print_hex, print_dec, kprintf, printf_init
--   Drivers.Bus    the ports of a device: what reads return, and the writes so far
--   Drivers.Vga    kernel/drivers/vga_scroll.c, every function; Screen is its specification, a terminal
--   Drivers.Plain  kernel/drivers/vga.c: vga_color, vga_putchar, vga_write
--   Drivers.Rtc    kernel/drivers/rtc.c: rtc_bcd_to_bin, rtc_get_time, cmd_date
--   Drivers.Mouse, Drivers.Cursor, Drivers.Serial   kernel/drivers/ps2_mouse.c, vga_cursor.c and
--                  serial.c, every function
--   Drivers.Timer  kernel/drivers/pit.c; Blinking is plit.c, the one that calls the cursor and schedule
--   Shell.Cat, Shell.Hexdump, Shell.Commands   kernel/shell/cmd_cat.c, builtin_commands.c, help_updated.c
--   Shell.History  kernel/shell/command_history.c: history_add, history_prev, history_next
--   Shell.Tokens, Shell.Process, Shell.Editor   kernel/shell/shell_main.c: trim_newline and
--                  parse_command; shell_process_command; shell_handle_key and shell_init.
--                  shell_prompt is that of kernel/shell/colored_shell.c, and Shell.Splash its splash
--   Shell.Older    kernel/shell/shell.c, with a shell_handle_key of its own
--   Shell.Keyboard kernel/shell/shell_keyboard.c: terminal_readline, from one read of the port to the next
--   Perm           security/perm/permissions.c: check_permission, set_permission
--   Cpu.Gdt, Cpu.Idt, Cpu.Small   kernel/gdt/gdt_full.c; kernel/larch/idt.c; kernel/larch/gdt.c and
--                  kernel/tss/tss.c: the gates and the tables
--   Sched          kernel/sched/process.c: create_process, schedule
--   Syscall        kernel/syscall/syscall_handler.c and syscall_implementations.c
--   Syscall.User   usr/include/larch.h and kernel/syscall/more_syscall.h: the side of a program
--   Userspace.Elf  kernel/userspace/elf_loader.c: elf_load and exec_user_program. The loops of
--                  elf_load over segments, pages and bytes are load_segments, map_pages,
--                  copy_from (its memcpy) and clear_from
--   Userspace.Exec exec_user_program with the handler of kernel/syscall behind its interrupt
--   Boot.Multiboot, Boot.Main   kernel/larch/multiboot.c; kernel/kernel_main.c, with a function for
--                  each part that it starts
--   Compositor     usr/bin/de_compositor.c: windows and the compositor; Plus is de_compositor.cpp, which
--                  has the same text
--   Sound          sound/drivers/hdaudio.c: hda_init, hda_play_sample, hda_stop_stream
--   Shell.Session  the line editor, the tokenizer, the commands, the initramfs and the screen together
--
-- The model. Static variables are records that the functions take and return. `none` is undefined
-- behaviour, an access outside of an object or an overflow of an `int`, or a loop that runs out of fuel.
-- Machine words are natural numbers with the wrap-around written out. A text is the list of its
-- bytes; a pointer into one is the rest of the list. The linker's addresses, what a port answers, and
-- the functions that are not in C (the page allocator, the terminal, the interrupts) are parameters;
-- what they change is a world that is passed on. The ELF file and the boot information lie in the
-- memory of that world, so that loading a program may overwrite the file it is loaded from.
--
-- Fuel. The loops over digits have 11 rounds, one more than the digits of a 32-bit word; `pow_u32` has
-- 32, the bits of its exponent. `cat` takes its fuel as an argument, and one round more than the file
-- has bytes is enough, as every round but the last one reads a byte. `strcpy` takes one round more
-- than the text has bytes. The loader has 2 ^ 20 rounds for the pages of a segment and 2 ^ 16 for the
-- segments, as many as there are pages of 4096 bytes and segment numbers of 16 bits. `sys_sleep`, the
-- loops of the serial port and the walk over the boot information take their fuel as an argument.
-- `mouse_wait` counts down from 100000 itself, and `hda_init` up to 10000.
--
-- Not modelled. The code in Rust, assembly and C#; windows of negative sizes, and numbers of sound streams
-- below 0. `reboot` does not return, and the shell's model has no result for it. The processor's
-- registers are left out, but for the interrupt flag and the busy bit that the load of the task
-- register sets in the table, and so are the delay loops and history_index, which nothing reads. The
-- start is one straight run: an interrupt that arrives during it is not modelled.
pub mod Prelude
pub mod Console
pub mod Libc
pub mod Fs
pub mod Printf
pub mod Drivers
pub mod Shell
pub mod Sound
pub mod Perm
pub mod Cpu
pub mod Sched
pub mod Syscall
pub mod Ram
pub mod Userspace
pub mod Boot
pub mod Compositor
