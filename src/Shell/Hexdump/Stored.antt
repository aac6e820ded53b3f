-- ===== src/Shell/Hexdump/Stored.antt =====
-- `hexdump` over the table of kernel/fs/initramfs.c.
use larch.Prelude.{
  ℕ, suc, ◌+◌, ◌<◌, ◌^◌, ◌≡◌, refl, ◌≢◌, some, List, ◌∷◌, length, get_elem?, newline, arith,
}
use larch.Console.{put}
use larch.Fs.Initramfs.{File, Fs}
use larch.Fs.Initramfs.Open.{IsValid, fs_open-first}
use larch.Fs.Initramfs.Service.{initramfs, initramfs-Serves}
use larch.Shell.Hexdump.{cmd_hexdump}
use larch.Shell.Hexdump.Loop.{dumped, cmd_hexdump_lem}

-- On a valid table, `hexdump` of a name that belongs to a file and to no file before it prints a newline
-- and the bytes of that file in lines of sixteen: the columns of two digits in two halves, with blanks
-- behind the last byte, and the printable characters of the line, a dot for each other byte. The size of
-- the file is the length of its data and is small enough for the 32-bit offset, the array has 16 bytes,
-- and the fuel is more than the size.
pub cmd_hexdump-stored :
    (fs : Fs) (i : ℕ) (f : File) (fuel : ℕ) (buf : List ℕ)
    → IsValid fs
    → i < fs.file_count
    → get_elem? fs.files i ≡ some f
    → ((j : ℕ) (g : File) → j < i → get_elem? fs.files j ≡ some g → g.name ≢ f.name)
    → f.size ≡ length f.bytes
    → f.size + 16 < 2 ^ 32
    → length buf ≡ 16
    → f.size < fuel
    → cmd_hexdump (initramfs fs) fuel buf f.name ≡ some (put newline ∷ dumped f.bytes)
cmd_hexdump-stored fs i f fuel buf v counted at first exact small room enough =
    cmd_hexdump_lem (initramfs fs) (suc i) f.bytes
      (initramfs-Serves fs i f counted (omega (arith, v.filled, v.small)) at exact) (omega arith)
      fuel buf f.name (fs_open-first fs f.name i f v counted at refl first) (omega arith) room
      (omega arith)
