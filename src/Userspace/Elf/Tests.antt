-- ===== src/Userspace/Elf/Tests.antt =====
-- The loading of the executable of two segments.
use larch.Userspace.Elf.{elf_load}
use larch.Userspace.Elf.Example.{
  cells, cells-IsRam, zero_pages, zero_pages-IsPaged, file-Layout, file-IsExecutable, memory,
}
use larch.Userspace.Elf.Whole.{LoadsFile, elf_load-LoadsFile}
use larch.Userspace.Elf.Returns.{Loads, elf_load-Loads}

elf_load-Loads_example : Loads cells zero_pages cells-IsRam 0 memory
elf_load-Loads_example = elf_load-Loads cells zero_pages cells-IsRam 0 memory

elf_load-LoadsFile_example :
    LoadsFile cells zero_pages 0 memory cells-IsRam zero_pages-IsPaged
      (elf_load cells zero_pages 0 memory)
elf_load-LoadsFile_example =
    elf_load-LoadsFile cells zero_pages 0 memory cells-IsRam zero_pages-IsPaged file-Layout
      file-IsExecutable
