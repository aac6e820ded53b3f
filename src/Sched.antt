-- ===== src/Sched.antt =====
-- kernel/sched/process.c: creating processes and choosing the next one. Every process is put at the
-- address 0x100000; memory is a function from addresses to the `process_t` there, and NULL is 0.
pub mod Cycle
mod Tests
use larch.Prelude.{ℕ, ◌+◌, ◌%◌, ◌^◌, ◌==◌, if◌then◌else◌}

pub record Process : Type 0 where
  pub pid : ℕ
  pub state : ℕ
  pub stack : ℕ
  pub next : ℕ

pub record Sched : Type 0 where
  pub memory : ℕ → Process
  pub current : ℕ
  pub ready_queue : ℕ
  pub next_pid : ℕ

abbrev pub process_address : ℕ
process_address = 0x100000

-- `proc->... = ...` for a `process_t` at an address.
unfoldable pub put_process : (ℕ → Process) → ℕ → Process → ℕ → Process
put_process memory address p a = if a == address then p else memory a

-- The pid that is returned, and the state after the call.
pub create_process : Sched → ℕ × Sched
create_process s =
    let old = s.memory process_address in
    let proc = record old { pid = s.next_pid; state = 1; next = s.ready_queue } in
    (
      s.next_pid,
      record s {
        memory = put_process s.memory process_address proc;
        ready_queue = process_address;
        next_pid = (s.next_pid + 1) % 2 ^ 32;
      },
    )

pub schedule : Sched → Sched
schedule s =
    if s.current == 0
    then record s { current = s.ready_queue }
    else record s { current = (s.memory s.current).next }
