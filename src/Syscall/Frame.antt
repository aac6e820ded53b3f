-- ===== src/Syscall/Frame.antt =====
-- What a system call does to the registers.
use larch.Prelude.{ℕ, ◌-◌, ◌^◌, ◌≡◌, ◌≢◌, refl, arith}
use larch.Syscall.{Externs, InterruptFrame, syscall_int80_handler}

-- The system calls that are served, and all other numbers.
pub data Request : Type 0 where
  exit : Request
  write : (s len : ℕ) → Request
  alloc : (size : ℕ) → Request
  free : (ptr size : ℕ) → Request
  unknown : (number : ℕ) → Request

-- The registers hold a request.
pub data Asks (f : InterruptFrame) : Request → Type 0 where
  asks_exit : f.eax ≡ 1 → Asks f exit
  asks_write : f.eax ≡ 3 → Asks f (write f.ebx f.ecx)
  asks_alloc : f.eax ≡ 6 → Asks f (alloc f.ebx)
  asks_free : f.eax ≡ 7 → Asks f (free f.ebx f.ecx)
  asks_unknown : f.eax ≢ 1 → f.eax ≢ 3 → f.eax ≢ 6 → f.eax ≢ 7 → Asks f (unknown f.eax)

module _ (W : Type 0) (externs : Externs W) where
  -- The answer to a request, and the effect on the world.
  abbrev pub answer : Request → W → ℕ × W
  answer exit w = (0, w)
  answer (write s len) w = (len, externs.terminal_write s len w)
  answer (alloc size) w = externs.sys_alloc size w
  answer (free ptr size) w = (0, externs.sys_free ptr size w)
  answer (unknown number) w = (2 ^ 32 - 1, w)

  -- For every request in the registers the handler of interrupt 0x80 has the effect of that request on
  -- the world and returns its answer in `eax`, -1 for a number that is not served, and every other
  -- register is as it was.
  pub syscall_int80_handler_lem :
      (f : InterruptFrame) (r : Request) (w : W)
      → Asks f r
      → syscall_int80_handler W externs f w ≡ (record f { eax = (answer r w).0 }, (answer r w).1)
  unfolding syscall_int80_handler
  syscall_int80_handler_lem f _ w (asks_exit e) = rw e refl
  syscall_int80_handler_lem f _ w (asks_write e) = rw e refl
  syscall_int80_handler_lem f _ w (asks_alloc e) = rw e refl
  syscall_int80_handler_lem f _ w (asks_free e) = rw e refl
  syscall_int80_handler_lem f _ w (asks_unknown h1 h3 h6 h7) = ground arith
