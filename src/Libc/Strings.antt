-- ===== src/Libc/Strings.antt =====
-- lib/libc/string.c: `strlen` and `strcmp`.
-- A `const char*` is the list of the bytes from the pointer on; the end of the list stands for a NUL.
pub mod Laws
use larch.Prelude.{ℕ, suc, ◌-◌, Bool, List, [], ◌∷◌, ◌==◌, not, ◌&&◌, if◌then◌else◌}
use larch.Prelude.Int.{ℤ, pos, sub_ℕ}

-- The text at a pointer: the bytes up to the first NUL.
unfoldable pub c_text : List ℕ → List ℕ
c_text [] = []
c_text (c ∷ s) = let rest = c ∷ c_text s in if c == 0 then [] else rest

unfoldable pub strlen : List ℕ → ℕ
strlen [] = 0
strlen (c ∷ s) = let rest = suc (strlen s) in if c == 0 then 0 else rest

-- The difference of the first bytes that differ, or of the two NULs.
unfoldable pub strcmp : List ℕ → List ℕ → ℤ
strcmp [] [] = pos 0
strcmp [] (y ∷ t) = sub_ℕ 0 y
strcmp (x ∷ s) [] = sub_ℕ x 0
strcmp (x ∷ s) (y ∷ t) =
    let rest = strcmp s t in if not (x == 0) && (x == y) then rest else sub_ℕ x y
