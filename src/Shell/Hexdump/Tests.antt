-- ===== src/Shell/Hexdump/Tests.antt =====
-- `hexdump` on a table of one file.
use larch.Prelude.{◌≡◌, refl, some, ◌∷◌, arith, codes, newline, replicate}
use larch.Console.{put}
use larch.Fs.Initramfs.Service.{initramfs}
use larch.Shell.Cat.Tests.{hello, one_file, one_file-IsValid}
use larch.Shell.Hexdump.{cmd_hexdump}
use larch.Shell.Hexdump.Loop.{dumped}
use larch.Shell.Hexdump.Stored.{cmd_hexdump-stored}

cmd_hexdump-stored_example :
    cmd_hexdump (initramfs one_file) 6 (replicate 16 0) (codes "bin/hello")
    ≡ some (put newline ∷ dumped (codes "hello"))
cmd_hexdump-stored_example =
    cmd_hexdump-stored one_file 0 hello 6 (replicate 16 0) one_file-IsValid (omega arith) refl
      (λ j g lt. absurd (omega arith)) refl (omega arith) refl (omega arith)
