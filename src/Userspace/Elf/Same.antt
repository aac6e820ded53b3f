-- ===== src/Userspace/Elf/Same.antt =====
-- Two memories that agree on the bytes of a header hold the same header.
use larch.Prelude.{ℕ, ◌+◌, ◌≤◌, ◌<◌, ◌≡◌, refl, arith}
use larch.Ram.{Ram, load8, load16, load32}
use larch.Userspace.Elf.{PageSource, header_at, phdr_at}

module _ {ℓ} {W : Type ℓ} (ram : Ram W) (pages : PageSource W) where
  load16-same :
      (w w' : W) (a : ℕ)
      → ((x : ℕ) → a ≤ x → x < a + 2 → load8 ram w' x ≡ load8 ram w x)
      → load16 ram w' a ≡ load16 ram w a
  unfolding load16
  load16-same w w' a h =
      rw (h a (omega arith) (omega arith), h (a + 1) (omega arith) (omega arith)) refl

  pub load32-same :
      (w w' : W) (a : ℕ)
      → ((x : ℕ) → a ≤ x → x < a + 4 → load8 ram w' x ≡ load8 ram w x)
      → load32 ram w' a ≡ load32 ram w a
  unfolding load32 load16
  load32-same w w' a h =
      rw
        (
          h a (omega arith) (omega arith),
          h (a + 1) (omega arith) (omega arith),
          h (a + 2) (omega arith) (omega arith),
          h (a + 2 + 1) (omega arith) (omega arith),
        )
        refl

  pub phdr_at-same :
      (w w' : W) (p : ℕ)
      → ((x : ℕ) → p ≤ x → x < p + 32 → load8 ram w' x ≡ load8 ram w x)
      → phdr_at ram pages w' p ≡ phdr_at ram pages w p
  unfolding phdr_at
  phdr_at-same w w' p h =
      let field : (k : ℕ) → k ≤ 28 → load32 ram w' (p + k) ≡ load32 ram w (p + k) =
        (λ k room. load32-same w w' (p + k) (λ x lo hi. h x (omega arith) (omega arith))) in
      let first = load32-same w w' p (λ x lo hi. h x (omega arith) (omega arith)) in
      rw
        (
          first,
          field 4 (omega arith),
          field 8 (omega arith),
          field 12 (omega arith),
          field 16 (omega arith),
          field 20 (omega arith),
          field 24 (omega arith),
          field 28 (omega arith),
        )
        refl

  pub header_at-same :
      (w w' : W) (elf : ℕ)
      → ((x : ℕ) → elf ≤ x → x < elf + 52 → load8 ram w' x ≡ load8 ram w x)
      → header_at ram pages w' elf ≡ header_at ram pages w elf
  unfolding header_at
  header_at-same w w' elf h =
      let byte : (k : ℕ) → k ≤ 8 → load8 ram w' (elf + k) ≡ load8 ram w (elf + k) =
        (λ k room. h (elf + k) (omega arith) (omega arith)) in
      let half : (k : ℕ) → k ≤ 50 → load16 ram w' (elf + k) ≡ load16 ram w (elf + k) =
        (λ k room. load16-same w w' (elf + k) (λ x lo hi. h x (omega arith) (omega arith))) in
      let word : (k : ℕ) → k ≤ 48 → load32 ram w' (elf + k) ≡ load32 ram w (elf + k) =
        (λ k room. load32-same w w' (elf + k) (λ x lo hi. h x (omega arith) (omega arith))) in
      rw
        (
          h elf (omega arith) (omega arith),
          byte 1 (omega arith),
          byte 2 (omega arith),
          byte 3 (omega arith),
          byte 4 (omega arith),
          byte 5 (omega arith),
          byte 6 (omega arith),
          byte 7 (omega arith),
          byte 8 (omega arith),
          half 16 (omega arith),
          half 18 (omega arith),
          word 20 (omega arith),
          word 24 (omega arith),
          word 28 (omega arith),
          word 32 (omega arith),
          word 36 (omega arith),
          half 40 (omega arith),
          half 42 (omega arith),
          half 44 (omega arith),
          half 46 (omega arith),
          half 48 (omega arith),
          half 50 (omega arith),
        )
        refl
