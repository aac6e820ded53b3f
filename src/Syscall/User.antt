-- ===== src/Syscall/User.antt =====
-- The side of a program: usr/include/larch.h, with the numbers of kernel/syscall/more_syscall.h. The way
-- from the instruction to the handler and back is in assembly: it is the argument `interrupt`.
pub mod Served
use larch.Prelude.{ℕ}
use larch.Syscall.{InterruptFrame}

-- `syscall_num_t`
pub data SyscallNum : Type 0 where
  sys_exit : SyscallNum
  sys_read : SyscallNum
  sys_write : SyscallNum
  sys_open : SyscallNum
  sys_close : SyscallNum
  sys_alloc : SyscallNum
  sys_free : SyscallNum
  sys_audio_play : SyscallNum
  sys_audio_stop : SyscallNum
  sys_audio_volume : SyscallNum
  sys_graphics_rect : SyscallNum
  sys_graphics_text : SyscallNum

unfoldable pub number : SyscallNum → ℕ
number sys_exit = 1
number sys_read = 2
number sys_write = 3
number sys_open = 4
number sys_close = 5
number sys_alloc = 6
number sys_free = 7
number sys_audio_play = 100
number sys_audio_stop = 101
number sys_audio_volume = 102
number sys_graphics_rect = 200
number sys_graphics_text = 201

-- The calls of processes, by their numbers in the second header.
pub data ProcessCall : Type 0 where
  sys_fork : ProcessCall
  sys_exec : ProcessCall
  sys_getpid : ProcessCall
  sys_sleep : ProcessCall
  sys_waitpid : ProcessCall
  sys_getticks : ProcessCall

unfoldable pub process_number : ProcessCall → ℕ
process_number sys_fork = 8
process_number sys_exec = 9
process_number sys_getpid = 10
process_number sys_sleep = 11
process_number sys_waitpid = 12
process_number sys_getticks = 13

-- `syscall`, from the registers of the program: the result, and the registers after it.
pub syscall {ℓ} :
    {W : Type ℓ} (interrupt : InterruptFrame → W → InterruptFrame × W) (registers : InterruptFrame)
    (num arg1 arg2 arg3 : ℕ)
    → W
    → ℕ × InterruptFrame × W
syscall interrupt registers num arg1 arg2 arg3 w =
    let (after, w') =
      interrupt (record registers { eax = num; ebx = arg1; ecx = arg2; edx = arg3 }) w in
    (after.eax, after, w')
