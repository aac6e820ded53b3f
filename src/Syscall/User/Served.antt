-- ===== src/Syscall/User/Served.antt =====
-- What a program gets for its system calls from the handler of the kernel.
use larch.Prelude.{ℕ, ◌-◌, ◌^◌, ◌≡◌, ◌≢◌, refl, ap, arith}
use larch.Syscall.{Externs, InterruptFrame, syscall_int80_handler}
use larch.Syscall.Frame.{
  Request, Asks, answer, syscall_int80_handler_lem, asks_exit, asks_write, asks_alloc, asks_free,
  asks_unknown,
}
use larch.Syscall.User.{
  SyscallNum, sys_exit, sys_read, sys_write, sys_open, sys_close, sys_alloc, sys_free,
  sys_audio_play, sys_audio_stop, sys_audio_volume, sys_graphics_rect, sys_graphics_text, number,
  ProcessCall, sys_fork, sys_exec, sys_getpid, sys_sleep, sys_waitpid, sys_getticks, process_number,
  syscall,
}

-- The request that the kernel makes of a call: four of the twelve are known to it.
abbrev pub request : SyscallNum → (arg1 arg2 : ℕ) → Request
request sys_exit a b = Request.exit
request sys_write a b = Request.write a b
request sys_alloc a b = Request.alloc a
request sys_free a b = Request.free a b
request other a b = Request.unknown (number other)

process_number-unknown :
    (call : ProcessCall)
    → (process_number call ≢ 1)
      × (process_number call ≢ 3)
      × (process_number call ≢ 6)
      × (process_number call ≢ 7)
unfolding process_number
process_number-unknown sys_fork = (omega arith, omega arith, omega arith, omega arith)
process_number-unknown sys_exec = (omega arith, omega arith, omega arith, omega arith)
process_number-unknown sys_getpid = (omega arith, omega arith, omega arith, omega arith)
process_number-unknown sys_sleep = (omega arith, omega arith, omega arith, omega arith)
process_number-unknown sys_waitpid = (omega arith, omega arith, omega arith, omega arith)
process_number-unknown sys_getticks = (omega arith, omega arith, omega arith, omega arith)

module _ (W : Type 0) (externs : Externs W) (registers : InterruptFrame) where
  abbrev pub asked : (num arg1 arg2 arg3 : ℕ) → InterruptFrame
  asked num arg1 arg2 arg3 = record registers { eax = num; ebx = arg1; ecx = arg2; edx = arg3 }

  unknown_call :
      (num a b c : ℕ)
      → num ≢ 1
      → num ≢ 3
      → num ≢ 6
      → num ≢ 7
      → Asks (asked num a b c) (Request.unknown num)
  unknown_call num a b c h1 h3 h6 h7 = asks_unknown h1 h3 h6 h7

  Asks-request :
      (call : SyscallNum) (a b c : ℕ) → Asks (asked (number call) a b c) (request call a b)
  unfolding number
  Asks-request sys_exit a b c = asks_exit refl
  Asks-request sys_read a b c =
      unknown_call (number sys_read) a b c (omega arith) (omega arith) (omega arith) (omega arith)
  Asks-request sys_write a b c = asks_write refl
  Asks-request sys_open a b c =
      unknown_call (number sys_open) a b c (omega arith) (omega arith) (omega arith) (omega arith)
  Asks-request sys_close a b c =
      unknown_call (number sys_close) a b c (omega arith) (omega arith) (omega arith) (omega arith)
  Asks-request sys_alloc a b c = asks_alloc refl
  Asks-request sys_free a b c = asks_free refl
  Asks-request sys_audio_play a b c =
      unknown_call (number sys_audio_play) a b c (omega arith) (omega arith) (omega arith)
        (omega arith)
  Asks-request sys_audio_stop a b c =
      unknown_call (number sys_audio_stop) a b c (omega arith) (omega arith) (omega arith)
        (omega arith)
  Asks-request sys_audio_volume a b c =
      unknown_call (number sys_audio_volume) a b c (omega arith) (omega arith) (omega arith)
        (omega arith)
  Asks-request sys_graphics_rect a b c =
      unknown_call (number sys_graphics_rect) a b c (omega arith) (omega arith) (omega arith)
        (omega arith)
  Asks-request sys_graphics_text a b c =
      unknown_call (number sys_graphics_text) a b c (omega arith) (omega arith) (omega arith)
        (omega arith)

  -- For each of the twelve calls of the header a program that reaches the kernel's handler gets the
  -- answer to its request: of exit, write, alloc and free their results, with their effects; and of the
  -- eight others, those of files, sound and graphics, -1 with no effect.
  pub syscall-answer :
      (call : SyscallNum) (a b c : ℕ) (w : W)
      → let (result, effect) = answer W externs (request call a b) w in
        syscall (syscall_int80_handler W externs) registers (number call) a b c w
        ≡ (result, record (asked (number call) a b c) { eax = result }, effect)
  unfolding syscall
  syscall-answer call a b c w =
      ap (λ r. (r.0.eax, r.0, r.1))
        (syscall_int80_handler_lem W externs (asked (number call) a b c) (request call a b) w
          (Asks-request call a b c))

  -- The six calls of processes have numbers that the handler does not know: a program gets -1 for each,
  -- with no effect.
  pub syscall-refused :
      (call : ProcessCall) (a b c : ℕ) (w : W)
      → syscall (syscall_int80_handler W externs) registers (process_number call) a b c w
        ≡ (2 ^ 32 - 1, record (asked (process_number call) a b c) { eax = 2 ^ 32 - 1 }, w)
  unfolding syscall
  syscall-refused call a b c w =
      let (h1, h3, h6, h7) = process_number-unknown call in
      ap (λ r. (r.0.eax, r.0, r.1))
        (syscall_int80_handler_lem W externs (asked (process_number call) a b c)
          (Request.unknown (process_number call)) w (asks_unknown h1 h3 h6 h7))
