-- ===== src/Shell/Cat/Stored.antt =====
-- `cat` over the table of kernel/fs/initramfs.c.
use larch.Prelude.{
  ℕ, suc, ◌+◌, ◌<◌, ◌^◌, ◌≡◌, refl, ◌≢◌, some, List, [], ◌∷◌, ◌++◌, map, length, get_elem?, newline,
  arith,
}
use larch.Console.{put}
use larch.Fs.Initramfs.{File, Fs}
use larch.Fs.Initramfs.Open.{IsValid, fs_open-first}
use larch.Fs.Initramfs.Service.{initramfs, initramfs-Serves}
use larch.Shell.Cat.{cmd_cat}
use larch.Shell.Cat.Output.{cmd_cat_lem}

-- On a valid table, `cat` of a name that belongs to a file and to no file before it prints a newline,
-- the bytes of that file and a newline. The size of the file is the length of its data and is small
-- enough for the 32-bit offset, the array has 256 bytes, and the fuel is more than the size.
pub cmd_cat-stored :
    (fs : Fs) (i : ℕ) (f : File) (fuel : ℕ) (buf : List ℕ)
    → IsValid fs
    → i < fs.file_count
    → get_elem? fs.files i ≡ some f
    → ((j : ℕ) (g : File) → j < i → get_elem? fs.files j ≡ some g → g.name ≢ f.name)
    → f.size ≡ length f.bytes
    → f.size + 256 < 2 ^ 32
    → length buf ≡ 256
    → f.size < fuel
    → cmd_cat (initramfs fs) fuel buf f.name
      ≡ some (put newline ∷ (map put f.bytes ++ (put newline ∷ [])))
cmd_cat-stored fs i f fuel buf v counted at first exact small room enough =
    cmd_cat_lem (initramfs fs) (suc i) f.bytes
      (initramfs-Serves fs i f counted (omega (arith, v.filled, v.small)) at exact) (omega arith)
      fuel buf f.name (fs_open-first fs f.name i f v counted at refl first) (omega arith) room
      (omega arith)
