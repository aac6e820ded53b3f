-- ===== src/Userspace/Exec.antt =====
-- Starting a program, where the interrupt of `exec_user_program` reaches the handler of the system calls.
-- The start of the kernel sets no gate for that interrupt, so this is an assumption about code that is
-- not among the sources.
mod Tests
use larch.Prelude.{ℕ, ◌-◌, ◌^◌, ◌≡◌, ◌≢◌, refl, ap, some, Option, arith, ◌==◌, ne→==, ◌>>=◌}
use larch.Ram.{Ram, IsRam}
use larch.Syscall.{Externs, InterruptFrame, syscall_int80_handler}
use larch.Syscall.Frame
use larch.Syscall.Frame.{Request, syscall_int80_handler_lem, asks_unknown}
use larch.Userspace.Elf.{PageSource, header_at, elf_load, exec_user_program}
use larch.Userspace.Elf.Load.{IsPaged}
use larch.Userspace.Elf.Layout.{Layout}
use larch.Userspace.Elf.Returns.{IsExecutable}
use larch.Userspace.Elf.Whole
use larch.Userspace.Elf.Whole.{LoadsFile, IsLoadedFile, StopsAt, elf_load-LoadsFile}

module _ (W : Type 0) (ram : Ram W) (pages : PageSource W) (externs : Externs W)
    (registers : InterruptFrame) where
  -- The interrupt with the entry point in `eax`, and the other registers as they happen to be.
  pub enter_kernel : ℕ → W → ℕ × W
  enter_kernel entry w =
      let (after, w') = syscall_int80_handler W externs (record registers { eax = entry }) w in
      (after.eax, w')

  -- A program that was loaded is not started: its entry point is taken for the number of a system call.
  -- Unless it is one of the four numbers that the handler knows, the answer is -1, and the memory is as
  -- the loader left it.
  exec_user_program-refused :
      (elf entry : ℕ) (w loaded : W)
      → elf_load ram pages elf w ≡ some (entry, loaded)
      → entry ≢ 0
      → entry ≢ 1
      → entry ≢ 3
      → entry ≢ 6
      → entry ≢ 7
      → exec_user_program ram pages enter_kernel elf w ≡ some (2 ^ 32 - 1, loaded)
  unfolding exec_user_program enter_kernel
  exec_user_program-refused elf entry w loaded e h0 h1 h3 h6 h7 =
      let answer =
        syscall_int80_handler_lem W externs (record registers { eax = entry })
          (Request.unknown entry) loaded (asks_unknown h1 h3 h6 h7) in
      rw (e, ◌>>=◌, ne→== entry 0 h0) (ap (λ r. some (r.0.eax, r.1)) answer)

  module _ (laws : IsRam ram) (paged : IsPaged ram pages) (elf : ℕ) (w : W) where
    -- The answers of the starting of a program: -1 with the file in place, or null where the allocator
    -- refused a page of a segment that this loading had come to.
    pub data StartsFile : Option (ℕ × W) → Type 0 where
      not_started :
          (now : W)
          → IsLoadedFile ram pages elf w laws paged now
          → StartsFile (some (2 ^ 32 - 1, now))
      no_memory :
          (now : W) (i : ℕ) → StopsAt ram pages elf w laws paged i now → StartsFile (some (0, now))

    started :
        (result : Option (ℕ × W))
        → (let entry = (header_at ram pages w elf).entry in
            (entry ≢ 0) × (entry ≢ 1) × (entry ≢ 3) × (entry ≢ 6) × (entry ≢ 7))
        → elf_load ram pages elf w ≡ result
        → LoadsFile ram pages elf w laws paged result
        → StartsFile (exec_user_program ram pages enter_kernel elf w)
    unfolding exec_user_program
    started result (h0, h1, h3, h6, h7) e (LoadsFile.loaded now file) =
        rw (exec_user_program-refused elf _ w now e h0 h1 h3 h6 h7) (not_started now file)
    started result h e (LoadsFile.no_memory now i stops) = rw (e, ◌>>=◌) (no_memory now i stops)

    -- If the interrupt 0x80 reaches the kernel's handler of the system calls, for which a gate has to be
    -- set that the sources nowhere set, an executable whose segments have pages of their own, away from
    -- the file, is put in place, but not started, where its entry point is not null and none of the four numbers of system calls that the
    -- kernel's handler knows: the handler takes the entry point for such a number, and its answer for an
    -- unknown one, -1, is what the starting returns, with the memory as the loading left it. If the
    -- allocator refused a page of a segment that the loading had come to, after the segments before it
    -- were put in place, it returns null.
    pub exec_user_program-StartsFile :
        Layout ram pages elf w
        → IsExecutable ram pages laws (header_at ram pages w elf)
        → (let entry = (header_at ram pages w elf).entry in
            (entry ≢ 0) × (entry ≢ 1) × (entry ≢ 3) × (entry ≢ 6) × (entry ≢ 7))
        → StartsFile (exec_user_program ram pages enter_kernel elf w)
    exec_user_program-StartsFile h x entry =
        started _ entry refl (elf_load-LoadsFile ram pages elf w laws paged h x)
