-- ===== src/Fs/Initramfs/Tests.antt =====
-- The theorems of the initramfs on a table of two files.
use larch.Prelude.{◌-◌, ◌^◌, ◌≡◌, refl, none, some, [], ◌∷◌, ◌++◌, arith, codes, replicate}
use larch.Fs.Initramfs.{File, Fs, fs_read}
use larch.Fs.Initramfs.Read.{fs_read_lem, fs_read_wraps}

abbrev hello : File
hello = record { name = codes "bin/hello"; size = 5; bytes = codes "hello"; type = 0 }

abbrev motd : File
motd = record { name = codes "etc/motd"; size = 3; bytes = codes "hi\n"; type = 0 }

abbrev two_files : Fs
two_files = record { files = hello ∷ motd ∷ []; file_count = 2 }

fs_read_lem_example :
    fs_read two_files 1 2 (replicate 8 0) 8 ≡ some (3, codes "llo" ++ replicate 5 0)
fs_read_lem_example =
    fs_read_lem two_files 0 hello (replicate 8 0) 2 8 (omega arith) (omega arith) refl (omega arith)
      (omega arith) (omega arith)

fs_read_wraps_example : fs_read two_files 1 1 (replicate 8 0) (2 ^ 32 - 1) ≡ none
fs_read_wraps_example =
    fs_read_wraps two_files 0 hello (replicate 8 0) 1 (2 ^ 32 - 1) (omega arith) (omega arith) refl
      refl (omega arith) (omega arith) (omega arith) (omega arith)
