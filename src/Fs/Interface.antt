-- ===== src/Fs/Interface.antt =====
-- The `extern` declarations of `fs_open` and `fs_read` in kernel/shell, and the contract of a read.
use larch.Prelude.{
  ℕ, ◌+◌, ◌-◌, ◌^◌, ◌≤◌, ◌<◌, min, ◌≡◌, Option, some, List, ◌++◌, length, take, drop,
}

pub record FileSystem : Type 0 where
  pub fs_open : List ℕ → Option ℕ
  pub fs_read : ℕ → ℕ → List ℕ → ℕ → Option (ℕ × List ℕ)

-- Reads through a handle return the slices of `text`.
pub record Serves (sys : FileSystem) (file : ℕ) (text : List ℕ) : Type 0 where
  pub reads :
      (offset len : ℕ) (buf : List ℕ)
      → len ≤ length buf
      → offset + len < 2 ^ 32
      → let n = min len (length text - offset) in
        sys.fs_read file offset buf len ≡ some (n, take n (drop offset text) ++ drop n buf)
