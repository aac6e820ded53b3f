-- ===== src/Syscall.antt =====
-- kernel/syscall: the dispatcher of syscall_handler.c and the calls of syscall_implementations.c. The
-- allocator and the terminal are not among the sources in C: they are functions on a world.
pub mod Frame
pub mod Sleep
pub mod User
mod Tests
use larch.Prelude.{ℕ, zero, suc, ◌+◌, ◌-◌, ◌%◌, ◌^◌, Option, none, some, ◌==◌, ltb, if◌then◌else◌}

abbrev pub sys_exit : ℕ
sys_exit = 1

abbrev pub sys_write : ℕ
sys_write = 3

abbrev pub sys_alloc_number : ℕ
sys_alloc_number = 6

abbrev pub sys_free_number : ℕ
sys_free_number = 7

-- `terminal_write`, `sys_alloc` and `sys_free`.
pub record Externs (W : Type 0) : Type 0 where
  pub terminal_write : (s len : ℕ) → W → W
  pub sys_alloc : ℕ → W → ℕ × W
  pub sys_free : (ptr size : ℕ) → W → W

pub record InterruptFrame : Type 0 where
  pub ds : ℕ
  pub edi : ℕ
  pub esi : ℕ
  pub ebp : ℕ
  pub esp : ℕ
  pub ebx : ℕ
  pub edx : ℕ
  pub ecx : ℕ
  pub eax : ℕ
  pub int_no : ℕ
  pub err_code : ℕ
  pub eip : ℕ
  pub cs : ℕ
  pub eflags : ℕ
  pub useresp : ℕ
  pub ss : ℕ

module _ (W : Type 0) (externs : Externs W) where
  pub syscall_handler : (syscall_num arg1 arg2 arg3 : ℕ) → W → ℕ × W
  syscall_handler syscall_num arg1 arg2 arg3 w =
      if syscall_num == sys_exit
      then (0, w)
      else (if syscall_num == sys_write
          then (arg2, externs.terminal_write arg1 arg2 w)
          else (if syscall_num == sys_alloc_number
              then externs.sys_alloc arg1 w
              else (if syscall_num == sys_free_number
                  then (0, externs.sys_free arg1 arg2 w)
                  else (2 ^ 32 - 1, w))))

  pub syscall_int80_handler : InterruptFrame → W → InterruptFrame × W
  unfolding syscall_handler
  syscall_int80_handler frame w =
      let r = syscall_handler frame.eax frame.ebx frame.ecx frame.edx w in
      (record frame { eax = r.0 }, r.1)

  pub sys_alloc_wrapper : ℕ → W → ℕ × W
  sys_alloc_wrapper size w = externs.sys_alloc size w

  pub sys_free_wrapper : (ptr size : ℕ) → W → W
  sys_free_wrapper ptr size w = externs.sys_free ptr size w

-- The two static variables.
pub record Pids : Type 0 where
  pub next_pid : ℕ
  pub current_pid : ℕ

unfoldable pub initial_pids : Pids
initial_pids = record { next_pid = 1; current_pid = 1 }

pub sys_fork : Pids → ℕ × Pids
sys_fork p = (p.next_pid, record p { next_pid = (p.next_pid + 1) % 2 ^ 32 })

pub sys_exec : ℕ
sys_exec = 2 ^ 32 - 1

pub sys_getpid : Pids → ℕ
sys_getpid p = p.current_pid

pub sys_waitpid : ℕ → ℕ
sys_waitpid pid = 0

-- `tick_at k` is what the k-th read of the tick counter returns; the result is the number of calls of
-- `schedule`, and `none` is out of fuel.
pub sleep_from : (tick_at : ℕ → ℕ) (fuel k start ticks : ℕ) → Option ℕ
sleep_from tick_at zero k start ticks = none
sleep_from tick_at (suc fuel) k start ticks =
    let again = sleep_from tick_at fuel (suc k) start ticks in
    if ltb ((tick_at k + 2 ^ 32 - start) % 2 ^ 32) ticks then again else some (k - 1)

pub sys_sleep : (tick_at : ℕ → ℕ) (fuel ticks : ℕ) → Option ℕ
unfolding sleep_from
sys_sleep tick_at fuel ticks = sleep_from tick_at fuel 1 (tick_at 0) ticks

pub sys_getticks : (tick_at : ℕ → ℕ) → ℕ
sys_getticks tick_at = tick_at 0
