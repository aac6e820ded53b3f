-- ===== src/Sched/Cycle.antt =====
-- What the shared address does to the queue.
use larch.Prelude.{ℕ, zero, suc, ◌≡◌, refl, ap, ◌∙◌, ◌⊎◌, arith}
use larch.Sched.{Sched, process_address, put_process, create_process, schedule}

-- The n-th process of the ready queue, following `next`.
unfoldable pub nth_ready : Sched → ℕ → ℕ
nth_ready s zero = s.ready_queue
nth_ready s (suc n) = (s.memory (nth_ready s n)).next

-- `n` calls of `schedule`.
unfoldable pub schedules : ℕ → Sched → Sched
schedules zero s = s
schedules (suc n) s = schedule (schedules n s)

-- The queue after two creations.
abbrev pub created_twice : Sched → Sched
created_twice s = (create_process (create_process s).1).1

created_twice-ready : (s : Sched) (n : ℕ) → nth_ready (created_twice s) n ≡ process_address
unfolding create_process nth_ready put_process
created_twice-ready s zero = refl
created_twice-ready s (suc n) =
    ap (λ (a : ℕ). ((created_twice s).memory a).next) (created_twice-ready s n)

created_twice-pid :
    (s : Sched)
    → ((created_twice s).memory process_address).pid ≡ (create_process (create_process s).1).0
unfolding create_process put_process
created_twice-pid s = refl

-- After two creations every place of the ready queue is the second process: the queue is a cycle that
-- never ends, and the first process is in it no more.
pub create_process-cycle :
    (s : Sched) (n : ℕ)
    → let t = created_twice s in
      (t.memory (nth_ready t n)).pid ≡ (create_process (create_process s).1).0
create_process-cycle s n =
    ap (λ (a : ℕ). ((created_twice s).memory a).pid) (created_twice-ready s n) ∙ created_twice-pid s

-- The only process of the queue is its own successor, and nothing else was chosen before.
record IsStuck (t : Sched) : Type 0 where
  queue : t.ready_queue ≡ process_address
  successor : (t.memory process_address).next ≡ process_address
  chosen : (t.current ≡ 0) ⊎ (t.current ≡ process_address)

created_twice-IsStuck :
    (s : Sched) → (s.current ≡ 0) ⊎ (s.current ≡ process_address) → IsStuck (created_twice s)
unfolding create_process put_process
created_twice-IsStuck s chosen = record { queue = refl; successor = refl; chosen = chosen }

schedule-IsStuck :
    (t : Sched)
    → IsStuck t
    → IsStuck (schedule t)
      × ((schedule t).current ≡ process_address)
      × ((schedule t).memory ≡ t.memory)
unfolding schedule
schedule-IsStuck t h = ground arith

schedules-IsStuck :
    (t : Sched) (n : ℕ) → IsStuck t → IsStuck (schedules n t) × ((schedules n t).memory ≡ t.memory)
unfolding schedules
schedules-IsStuck t zero h = (h, refl)
schedules-IsStuck t (suc n) h =
    let before = schedules-IsStuck t n h in
    let step = schedule-IsStuck (schedules n t) before.0 in (step.0, step.2 ∙ before.1)

-- When no process but those at the shared address was chosen before, every call of `schedule` after two
-- creations chooses the second process: the first one never runs again.
pub schedule-only_last :
    (s : Sched) (n : ℕ)
    → (s.current ≡ 0) ⊎ (s.current ≡ process_address)
    → let t = schedules (suc n) (created_twice s) in
      (t.memory t.current).pid ≡ (create_process (create_process s).1).0
unfolding schedules
schedule-only_last s n chosen =
    let t = created_twice s in
    let before = schedules-IsStuck t n (created_twice-IsStuck s chosen) in
    let step = schedule-IsStuck (schedules n t) before.0 in
    rw (step.1, step.2, before.1) (created_twice-pid s)
