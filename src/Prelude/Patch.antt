-- ===== src/Prelude/Patch.antt =====
-- An array with a run of its cells replaced.
use Prim.Native.Nat.{ℕ, zero, suc, ◌+◌, ◌-◌, ◌≤◌, ◌<◌}
use mathlib.Core.Path.{◌≡◌, refl, ap, ◌∙◌}
use mathlib.Core.List.{List, [], ◌∷◌, ◌++◌, append_assoc}
use native.Mathlib.Omega.{arith}
use larch.Prelude.Lists.{
  length, take, drop, set, length-append, length-take, length-drop, take-append-drop, take-set,
  drop-set, drop-drop,
}

module _ {ℓ} {A : Type ℓ} where
  -- `xs` in place of the cells from `k` on.
  unfoldable pub patch : ℕ → List A → List A → List A
  patch k xs buf = take k buf ++ (xs ++ drop (k + length xs) buf)

  pub take-append_eq : (n : ℕ) (xs ys : List A) → n ≡ length xs → take n (xs ++ ys) ≡ xs
  take-append_eq zero [] ys h = refl
  take-append_eq (suc n) [] ys h = absurd (omega arith)
  take-append_eq zero (x ∷ xs) ys h = absurd (omega arith)
  take-append_eq (suc n) (x ∷ xs) ys h = ap (◌∷◌ x) (take-append_eq n xs ys (omega arith))

  drop-append_ge :
      (n : ℕ) (xs ys : List A) → length xs ≤ n → drop n (xs ++ ys) ≡ drop (n - length xs) ys
  drop-append_ge n [] ys h = ap (λ (k : ℕ). drop k ys) (omega arith)
  drop-append_ge zero (x ∷ xs) ys h = absurd (omega arith)
  drop-append_ge (suc n) (x ∷ xs) ys h =
      drop-append_ge n xs ys (omega arith)
      ∙ ap (λ (k : ℕ). drop k ys) {x = n - length xs} {y = suc n - suc (length xs)} (omega arith)

  module _ (k : ℕ) (xs buf : List A) (fits : k + length xs ≤ length buf) where
    pub length-patch : length (patch k xs buf) ≡ length buf
    unfolding patch
    length-patch = omega (
      arith,
      length-append (take k buf) (xs ++ drop (k + length xs) buf),
      length-append xs (drop (k + length xs) buf),
      length-take k buf,
      length-drop (k + length xs) buf,
    )

    pub take-patch : (m : ℕ) → m ≡ k + length xs → take m (patch k xs buf) ≡ take k buf ++ xs
    unfolding patch
    take-patch m e = rw (← append_assoc) (
        take-append_eq m (take k buf ++ xs) _
          (omega (arith, length-append (take k buf) xs, length-take k buf)))

    pub drop-patch : (m : ℕ) → k + length xs ≤ m → drop m (patch k xs buf) ≡ drop m buf
    unfolding patch
    drop-patch m h =
        let size : length (take k buf ++ xs) ≡ k + length xs =
          omega (arith, length-append (take k buf) xs, length-take k buf) in
        let rest : k + length xs + (m - (k + length xs)) ≡ m = omega arith in
        rw
          (
            ← append_assoc,
            drop-append_ge m (take k buf ++ xs) (drop (k + length xs) buf) (omega arith),
            size,
            drop-drop,
            rest,
          )
          refl

    -- Two patches side by side are one.
    pub patch-patch :
        (m : ℕ) (ys : List A)
        → m ≡ k + length xs
        → patch m ys (patch k xs buf) ≡ patch k (xs ++ ys) buf
    patch-patch m ys e =
        let len : k + length (xs ++ ys) ≡ m + length ys = omega (arith, length-append xs ys) in
        unfold_patch m ys
        ∙ rw
            (
              take-patch m e,
              drop-patch (m + length ys) (omega arith),
              ← len,
              append_assoc,
              ← append_assoc xs,
            )
            (refold)
      where
        unfold_patch :
            (m : ℕ) (ys : List A)
            → patch m ys (patch k xs buf)
              ≡ take m (patch k xs buf) ++ (ys ++ drop (m + length ys) (patch k xs buf))
        unfold_patch m ys = unfold patch in refl

        refold :
            take k buf ++ ((xs ++ ys) ++ drop (k + length (xs ++ ys)) buf) ≡ patch k (xs ++ ys) buf
        refold = unfold patch in refl

  pub patch-nil : (k : ℕ) (buf : List A) → patch k [] buf ≡ buf
  unfolding patch
  patch-nil k buf = let e : k + 0 ≡ k = omega arith in rw e (take-append-drop k buf)

  pub patch-set :
      (k : ℕ) (v : A) (xs buf : List A)
      → k < length buf
      → patch (suc k) xs (set buf k v) ≡ patch k (v ∷ xs) buf
  unfolding patch
  patch-set k v xs buf h =
      let e : suc k + length xs ≡ k + suc (length xs) = omega arith in
      rw (take-set buf k v h, drop-set buf k (suc k + length xs) v (omega arith), e, append_assoc)
        refl
