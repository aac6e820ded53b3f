-- ===== src/Shell/Cat/Tests.antt =====
-- A table of one file.
use larch.Prelude.{
  ℕ, zero, suc, Option, none, subst, ap, ◌≡◌, some, List, [], ◌∷◌, arith, codes, get_elem?, IsText,
}
use larch.Fs.Initramfs.{File, Fs}
use larch.Fs.Initramfs.Open.{IsValid}

abbrev pub hello : File
hello = record { name = codes "bin/hello"; size = 5; bytes = codes "hello"; type = 0 }

abbrev pub one_file : Fs
one_file = record { files = hello ∷ []; file_count = 1 }

abbrev name_of : Option File → List ℕ
name_of none = []
name_of (some f) = f.name

one_file-texts : (i : ℕ) (f : File) → get_elem? one_file.files i ≡ some f → IsText f.name
one_file-texts zero f e = subst IsText (ap name_of e) (ground arith)
one_file-texts (suc i) f e = cc

pub one_file-IsValid : IsValid one_file
one_file-IsValid = record { filled = omega arith; small = omega arith; texts = one_file-texts }
