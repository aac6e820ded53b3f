-- ===== src/Userspace/Exec/Tests.antt =====
-- The executable of the loader's tests, whose entry point is 0x5000.
use larch.Prelude.{◌≢◌, arith}
use larch.Ram.{load32, load16, load8}
use larch.Syscall.{Externs, InterruptFrame}
use larch.Userspace.Elf.{header_at, exec_user_program}
use larch.Userspace.Elf.Example.{
  Cells, cells, cells-IsRam, zero_pages, zero_pages-IsPaged, memory, file-Layout, file-IsExecutable,
}
use larch.Userspace.Exec.{enter_kernel, StartsFile, exec_user_program-StartsFile}

abbrev no_externs : Externs Cells
no_externs = record {
  terminal_write = λ s len w. w;
  sys_alloc = λ size w. (0, w);
  sys_free = λ ptr size w. w;
}

abbrev frame : InterruptFrame
frame = record {
  ds = 0x10;
  edi = 0;
  esi = 0;
  ebp = 0;
  esp = 0x9000;
  ebx = 0;
  edx = 0;
  ecx = 0;
  eax = 0;
  int_no = 0x80;
  err_code = 0;
  eip = 0x1000;
  cs = 8;
  eflags = 2;
  useresp = 0;
  ss = 0x10;
}

entry-known :
    let entry = (header_at cells zero_pages memory 0).entry in
    (entry ≢ 0) × (entry ≢ 1) × (entry ≢ 3) × (entry ≢ 6) × (entry ≢ 7)
unfolding header_at load32 load16 load8
entry-known = (omega arith, omega arith, omega arith, omega arith, omega arith)

exec_user_program-StartsFile_example :
    StartsFile Cells cells zero_pages no_externs frame cells-IsRam zero_pages-IsPaged 0 memory (
      exec_user_program cells zero_pages
        (enter_kernel Cells cells zero_pages no_externs frame)
        0
        memory)
exec_user_program-StartsFile_example =
    exec_user_program-StartsFile Cells cells zero_pages no_externs frame cells-IsRam
      zero_pages-IsPaged 0 memory file-Layout file-IsExecutable entry-known
