-- ===== src/Syscall/Tests.antt =====
-- Two system calls, and a sleep across the end of the counter.
use larch.Prelude.{refl, ℕ, ◌+◌, ◌-◌, ◌%◌, ◌^◌, ◌≡◌, arith}
use larch.Syscall.{Externs, InterruptFrame, syscall_int80_handler, sys_sleep}
use larch.Syscall.User.{syscall, number, sys_open}
use larch.Syscall.User.Served.{asked, syscall-answer}
use larch.Syscall.Sleep.{IsTimer, Wakes, sys_sleep_ends}

abbrev idle_externs : Externs ℕ
idle_externs = record {
  terminal_write = λ s len w. w + len;
  sys_alloc = λ size w. (0x5000, w + size);
  sys_free = λ ptr size w. w - size;
}

-- `SYS_READ`, which the handler does not serve.
abbrev read_frame : InterruptFrame
read_frame = record {
  ds = 0x10;
  edi = 0;
  esi = 0;
  ebp = 0;
  esp = 0;
  ebx = 5;
  edx = 0;
  ecx = 9;
  eax = 2;
  int_no = 0x80;
  err_code = 0;
  eip = 0x1000;
  cs = 8;
  eflags = 2;
  useresp = 0;
  ss = 0x10;
}

-- The counter stands just before its end, and each read sees one more tick.
abbrev wrapping : ℕ → ℕ
wrapping k = (2 ^ 32 - 2 + k) % 2 ^ 32

wrapping-IsTimer : IsTimer wrapping (λ k. k) (2 ^ 32 - 2) 1
wrapping-IsTimer = record { shows = λ k. refl; zero_first = refl; often = λ k. omega arith }

sys_sleep_ends_example : Wakes (λ k. k) 1 1 5 (sys_sleep wrapping 9 5)
sys_sleep_ends_example =
    sys_sleep_ends wrapping (λ k. k) (2 ^ 32 - 2) 1 8 5 wrapping-IsTimer (omega arith) (omega arith)

-- A program opens a file, and gets -1.
syscall-answer_example :
    syscall (syscall_int80_handler ℕ idle_externs) read_frame (number sys_open) 0x6000 0 0 9 ≡ (
      2 ^ 32 - 1,
      record (asked ℕ idle_externs read_frame (number sys_open) 0x6000 0 0) { eax = 2 ^ 32 - 1 },
      9,
    )
syscall-answer_example = syscall-answer ℕ idle_externs read_frame sys_open 0x6000 0 0 9
