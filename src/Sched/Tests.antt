-- ===== src/Sched/Tests.antt =====
-- Two processes from the start.
use larch.Prelude.{◌≡◌}
use larch.Sched.{Sched, create_process}
use larch.Sched.Cycle.{nth_ready, created_twice, create_process-cycle}

abbrev booted : Sched
booted = record {
  memory = λ a. record { pid = 0; state = 0; stack = 0; next = 0 };
  current = 0;
  ready_queue = 0;
  next_pid = 1;
}

create_process-cycle_example :
    ((created_twice booted).memory (nth_ready (created_twice booted) 7)).pid ≡ 2
unfolding create_process
create_process-cycle_example = create_process-cycle booted 7
