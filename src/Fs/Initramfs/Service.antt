-- ===== src/Fs/Initramfs/Service.antt =====
-- The table as the file system of the shell's commands.
use larch.Prelude.{
  ℕ, suc, ◌-◌, ◌≤◌, ◌<◌, ◌≡◌, subst, some, length, get_elem?, arith, take, drop, ◌++◌, min,
}
use larch.Fs.Interface.{FileSystem, Serves}
use larch.Fs.Initramfs.{File, Fs, fs_open, fs_read}
use larch.Fs.Initramfs.Read.{fs_read_lem}

abbrev pub initramfs : Fs → FileSystem
initramfs fs = record { fs_open = fs_open fs; fs_read = fs_read fs }

-- A file whose size is the length of its data is served as that data.
pub initramfs-Serves :
    (fs : Fs) (i : ℕ) (f : File)
    → i < fs.file_count
    → fs.file_count ≤ 32
    → get_elem? fs.files i ≡ some f
    → f.size ≡ length f.bytes
    → Serves (initramfs fs) (suc i) f.bytes
initramfs-Serves fs i f counted few at exact = record {
  reads = λ offset len buf room small.
      subst
        (λ (size : ℕ).
          let n = min len (size - offset) in
          fs_read fs (suc i) offset buf len ≡ some (n, take n (drop offset f.bytes) ++ drop n buf))
        exact (fs_read_lem fs i f buf offset len counted few at (omega arith) room small);
}
