-- ===== src/Boot/Main/Tests.antt =====
-- A start on a machine whose memory is zero, with a terminal that writes into the first cell.
use larch.Prelude.{ℕ, false, List, [], ◌++◌, replicate, set}
use larch.Ram.{Ram}
use larch.Cpu.Gdt
use larch.Cpu.Idt
use larch.Boot.Multiboot.{initial_sizes}
use larch.Boot.Main.{Externs, Addresses, Kernel}

abbrev Log : Type 0
Log = List ℕ

abbrev zero_memory : Ram Log
zero_memory = record { load = λ w a. 0; store = λ a v w. w }

-- Each text goes into a log, and its arrival is shown in the first cell.
abbrev write_log : List ℕ → Kernel Log → Kernel Log
write_log text k = record k {
  world = k.world ++ text;
  screen = record k.screen { buffer = set k.screen.buffer 0 0x0741 };
}

abbrev logging : Externs Log
logging = record {
  terminal_writestring = write_log;
  pmm_init = λ lower upper bitmap k. k;
  initramfs_init = λ k. k;
  keyboard_init = λ k. record k { interrupts = false };
  scheduler_init = λ k. k;
}

abbrev addresses : Addresses
addresses = record { gdt = 0x100000; tss = 0x101000; idt = 0x102000 }

abbrev powered_on : Kernel Log
powered_on = record {
  screen = record {
    buffer = replicate 2000 0x0720;
    cursor_x = 0;
    cursor_y = 0;
    current_color = 0x0F;
    ports = [];
  };
  tables = Gdt.zeroed;
  idt = Idt.zeroed;
  sizes = initial_sizes;
  bus = record { answers = λ port k. 0; count = 0; writes = [] };
  world = [];
  interrupts = false;
}
