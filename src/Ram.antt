-- ===== src/Ram.antt =====
-- Memory as the C code sees it through a pointer: a byte at each 32-bit address of a world that the
-- machine keeps, and the little-endian words of several bytes.
use larch.Prelude.{ℕ, ◌+◌, ◌*◌, ◌%◌, ◌^◌, ◌<◌, ◌≡◌, ◌≢◌}

pub record Ram {ℓ} (W : Type ℓ) : Type ℓ where
  pub load : W → ℕ → ℕ
  pub store : ℕ → ℕ → W → W

-- What the code relies on: a cell holds a byte, and a store changes the one cell it names.
pub record IsRam {ℓ} {W : Type ℓ} (ram : Ram W) : Type ℓ where
  pub byte : (w : W) (a : ℕ) → ram.load w a < 256
  pub same : (a v : ℕ) (w : W) → v < 256 → ram.load (ram.store a v w) a ≡ v
  pub other : (a b v : ℕ) (w : W) → b ≢ a → ram.load (ram.store a v w) b ≡ ram.load w b

-- An address computed with the arithmetic of 32-bit pointers.
abbrev pub address : ℕ → ℕ
address a = a % 2 ^ 32

unfoldable pub load8 {ℓ} : {W : Type ℓ} → Ram W → W → ℕ → ℕ
load8 ram w a = ram.load w (address a)

unfoldable pub load16 {ℓ} : {W : Type ℓ} → Ram W → W → ℕ → ℕ
load16 ram w a = load8 ram w a + load8 ram w (a + 1) * 2 ^ 8

unfoldable pub load32 {ℓ} : {W : Type ℓ} → Ram W → W → ℕ → ℕ
load32 ram w a = load16 ram w a + load16 ram w (a + 2) * 2 ^ 16

unfoldable pub load64 {ℓ} : {W : Type ℓ} → Ram W → W → ℕ → ℕ
load64 ram w a = load32 ram w a + load32 ram w (a + 4) * 2 ^ 32
