-- ===== src/Fs/Initramfs/Open.antt =====
-- `fs_open` finds the first file of that name.
use larch.Prelude.{
  ℕ, zero, suc, ◌+◌, ◌≤◌, ◌<◌, ◌≡◌, refl, ◌≢◌, inl, inr, ◌↔◌, true, Option, some, List, [], ◌∷◌,
  arith, length, get_elem?, Bool-cases, get_elem?_exists, ℕ_discrete, IsText, subst, dec_lt,
}
use larch.Fs.Initramfs.{File, Fs, match_from, names_equal, open_from, fs_open}

match_from-suc :
    (fuel x y : ℕ) (s t : List ℕ) (j : ℕ)
    → match_from fuel (x ∷ s) (y ∷ t) (suc j) ≡ suc (match_from fuel s t j)
unfolding match_from
match_from-suc zero x y s t j = refl
match_from-suc (suc fuel) x y s t j = ground (arith, match_from-suc fuel x y s t (suc j))

match_from-cons :
    (fuel x y : ℕ) (s t : List ℕ)
    → x ≢ 0
    → x ≡ y
    → match_from (suc fuel) (x ∷ s) (y ∷ t) 0 ≡ suc (match_from fuel s t 0)
unfolding match_from
match_from-cons fuel x y s t h e = ground (arith, match_from-suc fuel x y s t 0)

names_equal-cons :
    (x y : ℕ) (s t : List ℕ) → x ≢ 0 → x ≡ y → names_equal (x ∷ s) (y ∷ t) ≡ names_equal s t
unfolding names_equal
names_equal-cons x y s t h e = rw (match_from-cons (suc (length s)) x y s t h e)

-- The comparison of `fs_open` is equality of texts.
pub names_equal_iff : (s t : List ℕ) → IsText s → IsText t → (names_equal s t ≡ true) ↔ (s ≡ t)
unfolding names_equal match_from
names_equal_iff [] [] hs ht = ground arith
names_equal_iff [] (y ∷ t) hs ht = ground arith
names_equal_iff (x ∷ s) [] hs ht = ground arith
names_equal_iff (x ∷ s) (y ∷ t) hs ht =
    ground (arith, names_equal-cons x y s t, names_equal_iff s t hs.1 ht.1)

-- The result of `fs_open`: null when no file before `file_count` has the name, or else the handle of
-- the first one that has it.
pub data Found (fs : Fs) (name : List ℕ) : Option ℕ → Type 0 where
  absent :
      ((j : ℕ) (f : File) → j < fs.file_count → get_elem? fs.files j ≡ some f → f.name ≢ name)
      → Found fs name (some 0)
  first :
      (i : ℕ) (f : File)
      → i < fs.file_count
      → get_elem? fs.files i ≡ some f
      → f.name ≡ name
      → ((j : ℕ) (g : File) → j < i → get_elem? fs.files j ≡ some g → g.name ≢ name)
      → Found fs name (some (suc i))

-- The table holds `file_count` files, and their names end.
pub record IsValid (fs : Fs) : Type 0 where
  pub filled : fs.file_count ≤ length fs.files
  pub small : length fs.files ≤ 32
  pub texts : (i : ℕ) (f : File) → get_elem? fs.files i ≡ some f → IsText f.name

module _ (fs : Fs) (name : List ℕ) (v : IsValid fs) (text : IsText name) where
  abbrev NoneBefore : ℕ → Type 0
  NoneBefore i = (j : ℕ) (g : File) → j < i → get_elem? fs.files j ≡ some g → g.name ≢ name

  NoneBefore-suc :
      (i : ℕ) (f : File)
      → NoneBefore i
      → get_elem? fs.files i ≡ some f
      → f.name ≢ name
      → NoneBefore (suc i)
  NoneBefore-suc i f before e ne j g h eg same = elim (ℕ_discrete j i) [
    | yes p ↦ ne (cc)
    | no p ↦ before j g (omega arith) eg same
  ]

  open_from-Found :
      (left i : ℕ)
      → i + left ≡ fs.file_count
      → NoneBefore i
      → Found fs name (open_from fs.files name left i)
  unfolding open_from
  open_from-Found zero i e before = absent (λ j f h. before j f (omega arith))
  open_from-Found (suc left) i e before =
      let (f, ef) = get_elem?_exists fs.files i (omega (arith, v.filled)) in
      elim (Bool-cases (names_equal f.name name)) [
        | inl same ↦
            rw (ef, same)
              (first i f (omega arith) ef
                ((names_equal_iff f.name name (v.texts i f ef) text).0 same) before)
        | inr differ ↦
            rw (ef, differ)
              (open_from-Found left (suc i) (omega arith) (
                NoneBefore-suc i f before ef
                  λ same. cc ((names_equal_iff f.name name (v.texts i f ef) text).1 same)))
      ]

-- On a valid table `fs_open` stays in bounds and returns the handle of the first file among the
-- first `file_count` whose name is the given one, or null exactly when there is none.
pub fs_open-Found :
    (fs : Fs) (name : List ℕ) → IsValid fs → IsText name → Found fs name (fs_open fs name)
unfolding fs_open
fs_open-Found fs name v text =
    open_from-Found fs name v text fs.file_count 0 (omega arith) (λ j g h. absurd (omega arith))

-- There is one first file of a name.
Found-unique :
    (fs : Fs) (name : List ℕ) (r : Option ℕ) (i : ℕ) (f : File)
    → Found fs name r
    → i < fs.file_count
    → get_elem? fs.files i ≡ some f
    → f.name ≡ name
    → ((j : ℕ) (g : File) → j < i → get_elem? fs.files j ≡ some g → g.name ≢ name)
    → r ≡ some (suc i)
Found-unique fs name r i f (absent none_of) counted at same before =
    absurd (none_of i f counted at same)
Found-unique fs name r i f (first k g counted_k at_k same_k before_k) counted at same before =
    elim (ℕ_discrete k i) [
      | yes e ↦ rw e refl
      | no ne ↦ elim (dec_lt k i) [
        | yes lt ↦ absurd (before k g lt at_k same_k)
        | no ge ↦ absurd (before_k i f (omega arith) at same)
      ]
    ]

pub fs_open-first :
    (fs : Fs) (name : List ℕ) (i : ℕ) (f : File)
    → IsValid fs
    → i < fs.file_count
    → get_elem? fs.files i ≡ some f
    → f.name ≡ name
    → ((j : ℕ) (g : File) → j < i → get_elem? fs.files j ≡ some g → g.name ≢ name)
    → fs_open fs name ≡ some (suc i)
fs_open-first fs name i f v counted at same before =
    Found-unique fs name (fs_open fs name) i f
      (fs_open-Found fs name v (subst IsText same (v.texts i f at))) counted at same before
