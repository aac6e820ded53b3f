-- ===== src/Shell/Cat/Output.antt =====
-- What `cat` prints.
use larch.Prelude.{
  ℕ, zero, suc, ◌+◌, ◌-◌, ◌^◌, ◌≤◌, ◌<◌, min, ◌≡◌, refl, ◌∙◌, some, List, [], ◌∷◌, ◌++◌, map, arith,
  length, take, drop, newline, get_elem?_exists, drop-eq-cons, length-append, length-take,
  length-drop, take-take_append, take-append-drop, drop-drop, drop-all, dec_lt, ◌≢◌,
}
use mathlib.Core.List.{map-append}
use native.Mathlib.Nat.{mod-eq_of_lt}
use larch.Console.{put}
use larch.Fs.Interface.{FileSystem, Serves}
use larch.Shell.Cat.{emit_from, cat_loop, cmd_cat}

pub emit_from_lem :
    (left i : ℕ) (buf : List ℕ)
    → i + left ≤ length buf
    → emit_from left i buf ≡ some (map put (take left (drop i buf)))
unfolding emit_from
emit_from_lem zero i buf h = refl
emit_from_lem (suc left) i buf h =
    let (c, ec) = get_elem?_exists buf i (omega arith) in
    rw (ec, emit_from_lem left (suc i) buf (omega arith), drop-eq-cons buf i ec) refl

-- The buffer after a read of `n` bytes at `offset`.
abbrev filled : List ℕ → List ℕ → ℕ → ℕ → List ℕ
filled text buf offset n = take n (drop offset text) ++ drop n buf

module _ (text buf : List ℕ) (offset n : ℕ) (inside : offset + n ≤ length text) where
  length-filled : n ≤ length buf → length (filled text buf offset n) ≡ length buf
  length-filled h = omega (
    arith,
    length-append (take n (drop offset text)) (drop n buf),
    length-take n (drop offset text),
    length-drop offset text,
    length-drop n buf,
  )

  emit_from-filled :
      n ≤ length buf
      → emit_from n 0 (filled text buf offset n) ≡ some (map put (take n (drop offset text)))
  emit_from-filled h =
      rw
        (
          emit_from_lem n 0 (filled text buf offset n) (omega (arith, length-filled h)),
          take-take_append n (drop offset text) (drop n buf)
              (omega (arith, length-drop offset text)),
        )
        refl

  joined :
      map put (take n (drop offset text)) ++ map put (drop (offset + n) text)
      ≡ map put (drop offset text)
  joined = rw (← map-append, ← drop-drop n offset text, take-append-drop) refl

module _ (sys : FileSystem) (file : ℕ) (text : List ℕ) (s : Serves sys file text)
    (small : length text + 256 < 2 ^ 32) where
  cat_loop-suc :
      (fuel offset n : ℕ) (buf : List ℕ)
      → length buf ≡ 256
      → n ≡ min 256 (length text - offset)
      → offset < length text
      → cat_loop sys fuel file (offset + n) (filled text buf offset n)
        ≡ some (map put (drop (offset + n) text))
      → cat_loop sys (suc fuel) file offset buf ≡ some (map put (drop offset text))
  unfolding cat_loop
  cat_loop-suc fuel offset n buf hb en ho rest = ground (
    arith,
    s.reads offset 256 buf (omega arith) (omega arith),
    emit_from-filled text buf offset n (omega arith) (omega arith),
    mod-eq_of_lt {n = offset + n} {m = 2 ^ 32} (omega arith),
    joined text buf offset n (omega arith),
  )

  -- From any offset the loop prints the rest of the file.
  pub cat_loop_lem :
      (fuel offset : ℕ) (buf : List ℕ)
      → length buf ≡ 256
      → offset ≤ length text
      → length text - offset < fuel
      → cat_loop sys fuel file offset buf ≡ some (map put (drop offset text))
  unfolding cat_loop
  cat_loop_lem zero offset buf hb ho hf = absurd (omega arith)
  cat_loop_lem (suc fuel) offset buf hb ho hf = elim (dec_lt offset (length text)) [
    | no p ↦
        let nothing : min 256 (length text - offset) ≡ 0 = omega arith in
        rw
          (
            s.reads offset 256 buf (omega arith) (omega arith),
            nothing,
            drop-all offset text (omega arith),
          )
          refl
    | yes p ↦
        let n = min 256 (length text - offset) in
        cat_loop-suc fuel offset n buf hb refl p (
          cat_loop_lem fuel (offset + n) _
            (length-filled text buf offset n (omega arith) (omega arith) ∙ hb) (omega arith)
            (omega arith))
  ]

  -- `cat` of a name that `fs_open` finds prints a newline, every byte of the file in order, and a
  -- newline. The file is small enough for the 32-bit offset, `buf` has its 256 bytes, and one round
  -- more than the file has bytes is enough fuel.
  pub cmd_cat_lem :
      (fuel : ℕ) (buf name : List ℕ)
      → sys.fs_open name ≡ some file
      → file ≢ 0
      → length buf ≡ 256
      → length text < fuel
      → cmd_cat sys fuel buf name ≡ some (put newline ∷ (map put text ++ (put newline ∷ [])))
  unfolding cmd_cat
  cmd_cat_lem fuel buf name opened found hb hf =
      ground (arith, cat_loop_lem fuel 0 buf hb (omega arith) (omega arith))
