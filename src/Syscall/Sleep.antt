-- ===== src/Syscall/Sleep.antt =====
-- A sleep ends in time, on a tick counter of 32 bits that wraps.
use larch.Prelude.{
  ℕ, zero, suc, ◌+◌, ◌-◌, ◌%◌, ◌^◌, ◌≤◌, ◌<◌, ◌≡◌, refl, subst, Option, some, arith, ltb,
  le→ltb_false, Bool-cases, inl, inr, ◌==◌,
}
use larch.Syscall.{sleep_from, sys_sleep}

-- The counter as the reads see it: `progress k` ticks of the timer have gone by between the first read
-- and the read `k`, never more than `longest` between two reads, and the counter shows them from
-- `start` on modulo 2 ^ 32.
pub record IsTimer (tick_at progress : ℕ → ℕ) (start longest : ℕ) : Type 0 where
  pub shows : (k : ℕ) → tick_at k ≡ (start + progress k) % 2 ^ 32
  pub zero_first : progress 0 ≡ 0
  pub often : (k : ℕ) → progress (suc k) ≤ progress k + longest

-- The loop, entered with the read `k`, ends at the read `reads + 1`: the first one that is at least
-- `ticks` ticks after the start, and not more than `longest` later.
pub record Wakes (progress : ℕ → ℕ) (longest k ticks : ℕ) (call : Option ℕ) : Type 0 where
  pub reads : ℕ
  pub returns : call ≡ some reads
  pub from : k ≤ suc reads
  pub passed : ticks ≤ progress (suc reads)
  pub in_time : progress (suc reads) ≤ ticks + longest
  pub not_earlier : (j : ℕ) → k ≤ j → j ≤ reads → progress j < ticks

module _ (tick_at progress : ℕ → ℕ) (start longest : ℕ) where
  elapsed_lem :
      (k : ℕ)
      → IsTimer tick_at progress start longest
      → progress k < 2 ^ 32
      → (tick_at k + 2 ^ 32 - tick_at 0) % 2 ^ 32 ≡ progress k
  elapsed_lem k t h = omega (arith, t.shows k, t.shows 0, t.zero_first)

  awake :
      (k ticks : ℕ)
      → 1 ≤ k
      → progress k ≤ ticks + longest
      → ticks ≤ progress k
      → Wakes progress longest k ticks (some (k - 1))
  awake k ticks first near over =
      let here : suc (k - 1) ≡ k = omega arith in
      record {
        reads = k - 1;
        returns = refl;
        from = omega arith;
        passed = rw here over;
        in_time = rw here near;
        not_earlier = λ j lo hi. absurd (omega arith);
      }

  sleep_from-Wakes :
      (left k ticks : ℕ)
      → IsTimer tick_at progress start longest
      → ticks + longest < 2 ^ 32
      → 1 ≤ k
      → progress k ≤ ticks + longest
      → ticks ≤ progress (k + left)
      → Wakes progress longest k ticks (sleep_from tick_at (suc left) k (tick_at 0) ticks)
  unfolding sleep_from
  sleep_from-Wakes zero k ticks t small first near enough =
      let here : ticks ≤ progress k =
        subst (λ (j : ℕ). ticks ≤ progress j) {x = k + 0} {y = k} (omega arith) enough in
      rw (elapsed_lem k t (omega (arith, near, small)), le→ltb_false (progress k) ticks here)
        (awake k ticks first near here)
  sleep_from-Wakes (suc left) k ticks t small first near enough =
      elim (Bool-cases (ltb (progress k) ticks)) [
        | inr over ↦
            rw (elapsed_lem k t (omega (arith, near, small)), over)
              (awake k ticks first near (ground arith))
        | inl short ↦
            let later =
              sleep_from-Wakes left (suc k) ticks t small (omega arith) (ground (arith, t.often k))
                (subst (λ (j : ℕ). ticks ≤ progress j) {x = k + suc left} {y = suc k + left}
                  (omega arith) enough) in
            rw (elapsed_lem k t (omega (arith, near, small)), short)
              (record {
                reads = later.reads;
                returns = later.returns;
                from = omega (arith, later.from);
                passed = later.passed;
                in_time = later.in_time;
                not_earlier = λ j lo hi. elim (Bool-cases (j == k)) [
                  | inl here ↦
                      subst (λ (i : ℕ). progress i < ticks) {x = k} {y = j} (ground arith)
                        (ground arith)
                  | inr there ↦ later.not_earlier j (ground arith) hi
                ];
              })
      ]

-- A sleep of `ticks` ticks ends, on a counter of 32 bits that may wrap in between, if `ticks` and the
-- most ticks between two reads of the counter are together less than 2 ^ 32, and the ticks have gone
-- by at the read `n + 1`: at the first read after which they have gone by, and so not earlier, and not
-- more than the ticks between two reads too late. The result is the number of
-- reads between the first one and that one, after each of which `schedule` is called.
pub sys_sleep_ends :
    (tick_at progress : ℕ → ℕ) (start longest n ticks : ℕ)
    → IsTimer tick_at progress start longest
    → ticks + longest < 2 ^ 32
    → ticks ≤ progress (suc n)
    → Wakes progress longest 1 ticks (sys_sleep tick_at (suc n) ticks)
unfolding sys_sleep
sys_sleep_ends tick_at progress start longest n ticks t small enough =
    sleep_from-Wakes tick_at progress start longest n 1 ticks t small (omega arith)
      (omega (arith, t.often 0, t.zero_first))
      (subst (λ (j : ℕ). ticks ≤ progress j) {x = suc n} {y = 1 + n} (omega arith) enough)
