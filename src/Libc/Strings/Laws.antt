-- ===== src/Libc/Strings/Laws.antt =====
-- `strcmp` decides equality of texts and is antisymmetric; `strlen` counts the text.
use larch.Prelude.{ℕ, ◌≡◌, refl, ◌↔◌, List, [], ◌∷◌, arith, length, IsText}
use larch.Prelude.Int.{pos, pos_part, neg_part}
use larch.Libc.Strings.{c_text, strlen, strcmp}

-- `strlen` is the length of the text.
pub strlen-length : (s : List ℕ) → strlen s ≡ length (c_text s)
unfolding strlen c_text
strlen-length [] = refl
strlen-length (c ∷ s) = ground (arith, strlen-length s)

pub c_text-IsText : (s : List ℕ) → IsText (c_text s)
unfolding c_text
c_text-IsText [] = tt
c_text-IsText (c ∷ s) = ground (arith, c_text-IsText s)

pub c_text_of_IsText : (s : List ℕ) → IsText s → c_text s ≡ s
unfolding c_text
c_text_of_IsText [] h = refl
c_text_of_IsText (c ∷ s) h = ground (arith, c_text_of_IsText s h.1)

-- `strcmp` is zero exactly when the texts up to the first NUL are equal.
pub strcmp-zero_iff : (s t : List ℕ) → (strcmp s t ≡ pos 0) ↔ (c_text s ≡ c_text t)
unfolding strcmp c_text
strcmp-zero_iff [] [] = ground arith
strcmp-zero_iff [] (y ∷ t) = ground arith
strcmp-zero_iff (x ∷ s) [] = ground arith
strcmp-zero_iff (x ∷ s) (y ∷ t) = ground (arith, strcmp-zero_iff s t)

-- Swapping the arguments of `strcmp` negates the result.
pub strcmp_antisymm :
    (s t : List ℕ)
    → (pos_part (strcmp s t) ≡ neg_part (strcmp t s))
      × (neg_part (strcmp s t) ≡ pos_part (strcmp t s))
unfolding strcmp
strcmp_antisymm [] [] = ground arith
strcmp_antisymm [] (y ∷ t) = ground arith
strcmp_antisymm (x ∷ s) [] = ground arith
strcmp_antisymm (x ∷ s) (y ∷ t) = ground (arith, strcmp_antisymm s t)
