-- ===== src/Drivers/Plain/Tests.antt =====
-- A text over the end of the screen.
use larch.Prelude.{codes, replicate, refl, arith}
use larch.Drivers.Plain.{Plain, vga_write}
use larch.Drivers.Plain.Wrap.{Writes, at, written, vga_write-Writes}

abbrev last_cells : Plain
last_cells = record { buffer = replicate 2000 0x0720; cursor_x = 78; cursor_y = 24 }

vga_write-Writes_example :
    Writes
      (written (codes "a\nbcd") 0x0F (last_cells.buffer, at last_cells))
      (vga_write last_cells (codes "a\nbcd") 0x0F)
vga_write-Writes_example =
    vga_write-Writes last_cells (codes "a\nbcd") 0x0F
      (record { cells = refl; column = omega arith; row = omega arith })
