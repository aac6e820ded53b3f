-- ===== src/Shell/Cat.antt =====
-- kernel/shell/cmd_cat.c. `none` is an access outside of an array, or a loop that runs out of fuel.
pub mod Output
pub mod Stored
pub mod Tests
use larch.Prelude.{
  ℕ, zero, suc, ◌+◌, ◌%◌, ◌^◌, true, false, Option, none, some, List, [], ◌∷◌, ◌++◌, ◌==◌, ◌>>=◌,
  codes, newline, get_elem?,
}
use larch.Console.{Event, put, writestring}
use larch.Fs.Interface.{FileSystem}

-- `for (i = 0; i < bytes; i++) vga_putchar(buf[i]);` with `left` rounds left.
unfoldable pub emit_from : ℕ → ℕ → List ℕ → Option (List Event)
emit_from zero i buf = some []
emit_from (suc left) i buf = do
  c ← get_elem? buf i
  out ← emit_from left (suc i) buf
  some (put c ∷ out)

module _ (sys : FileSystem) where
  -- `while ((bytes = fs_read(file, offset, buf, sizeof(buf))) > 0)`
  pub cat_loop : ℕ → ℕ → ℕ → List ℕ → Option (List Event)
  cat_loop zero file offset buf = none
  cat_loop (suc fuel) file offset buf = sys.fs_read file offset buf 256 >>= λ r. elim (r.0 == 0) [
    | true ↦ some []
    | false ↦ emit_from r.0 0 r.1 >>= λ out.
        cat_loop fuel file ((offset + r.0) % 2 ^ 32) r.1 >>= λ rest. some (out ++ rest)
  ]

  -- `buf` is what the stack holds in the uninitialised array.
  pub cmd_cat : ℕ → List ℕ → List ℕ → Option (List Event)
  cmd_cat fuel buf filename = sys.fs_open filename >>= λ file. elim (file == 0) [
    | true ↦ some (
        writestring (codes "File not found: ")
        ++ (writestring filename ++ writestring (newline ∷ [])))
    | false ↦ cat_loop fuel file 0 buf >>= λ out.
        some (writestring (newline ∷ []) ++ (out ++ writestring (newline ∷ [])))
  ]
