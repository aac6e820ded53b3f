-- ===== src/Shell/Hexdump/Loop.antt =====
-- The loop of `hexdump` over a file.
use larch.Prelude.{
  ℕ, zero, suc, ◌+◌, ◌-◌, ◌%◌, ◌^◌, ◌≤◌, ◌<◌, min, ◌≡◌, ◌≢◌, refl, sym, ap, ◌∙◌, false, some, List,
  [], ◌∷◌, ◌++◌, arith, length, take, drop, newline, length-append, length-take, length-drop,
  take-take_append, take-all, drop-drop, drop-all, dec_lt, ◌>>=◌, ◌==◌,
}
use larch.Console.{Event, put}
use larch.Fs.Interface.{FileSystem, Serves}
use larch.Shell.Hexdump.{hexdump_loop, cmd_hexdump, dump_line}
use larch.Shell.Hexdump.Output.{line, dump_line_lem}

-- The lines of a text, sixteen bytes each.
unfoldable pub dump : (rounds : ℕ) → List ℕ → List Event
dump zero cs = []
dump (suc rounds) [] = []
dump (suc rounds) (c ∷ cs) = line (take 16 (c ∷ cs)) ++ dump rounds (drop 16 (c ∷ cs))

-- A round for each byte is more than enough.
abbrev pub dumped : List ℕ → List Event
dumped cs = dump (length cs) cs

dump-rounds : (m n : ℕ) (cs : List ℕ) → length cs ≤ m → length cs ≤ n → dump m cs ≡ dump n cs
unfolding dump
dump-rounds zero zero cs h k = refl
dump-rounds zero (suc n) [] h k = refl
dump-rounds zero (suc n) (c ∷ cs) h k = absurd (omega arith)
dump-rounds (suc m) zero [] h k = refl
dump-rounds (suc m) zero (c ∷ cs) h k = absurd (omega arith)
dump-rounds (suc m) (suc n) [] h k = refl
dump-rounds (suc m) (suc n) (c ∷ cs) h k =
    ap (λ o. line (take 16 (c ∷ cs)) ++ o)
      (dump-rounds m n (drop 16 (c ∷ cs)) (omega (arith, length-drop 16 (c ∷ cs)))
        (omega (arith, length-drop 16 (c ∷ cs))))

dump-next : (cs : List ℕ) → 0 < length cs → dumped cs ≡ line (take 16 cs) ++ dumped (drop 16 cs)
unfolding dump
dump-next [] h = absurd (omega arith)
dump-next (c ∷ cs) h =
    ap (λ o. line (take 16 (c ∷ cs)) ++ o)
      (dump-rounds (length cs) (length (drop 16 (c ∷ cs))) (drop 16 (c ∷ cs))
        (omega (arith, length-drop 16 (c ∷ cs))) (omega arith))

-- The buffer after a read of `n` bytes at `offset`.
abbrev filled : List ℕ → List ℕ → ℕ → ℕ → List ℕ
filled text buf offset n = take n (drop offset text) ++ drop n buf

module _ (sys : FileSystem) (file : ℕ) (text : List ℕ) (s : Serves sys file text)
    (small : length text + 16 < 2 ^ 32) where
  length-filled :
      (buf : List ℕ) (offset n : ℕ)
      → offset + n ≤ length text
      → n ≤ length buf
      → length (filled text buf offset n) ≡ length buf
  length-filled buf offset n inside h = omega (
    arith,
    length-append (take n (drop offset text)) (drop n buf),
    length-take n (drop offset text),
    length-drop offset text,
    length-drop n buf,
  )

  taken :
      (offset n : ℕ)
      → n ≡ min 16 (length text - offset)
      → take n (drop offset text) ≡ take 16 (drop offset text)
  taken offset n e = elim (dec_lt (length text - offset) 16) [
    | yes few ↦
        let size = length-drop offset text in
        take-all n (drop offset text) (omega arith)
        ∙ sym (take-all 16 (drop offset text) (omega arith))
    | no many ↦ let full : n ≡ 16 = omega arith in ap (λ m. take m (drop offset text)) full
  ]

  dropped :
      (offset n : ℕ)
      → n ≡ min 16 (length text - offset)
      → drop 16 (drop offset text) ≡ drop (offset + n) text
  dropped offset n e = elim (dec_lt (length text - offset) 16) [
    | yes few ↦
        drop-all 16 (drop offset text) (omega (arith, length-drop offset text))
        ∙ sym (drop-all (offset + n) text (omega arith))
    | no many ↦
        let full : offset + 16 ≡ offset + n = omega arith in
        drop-drop 16 offset text ∙ ap (λ m. drop m text) full
  ]

  dump_line-filled :
      (buf : List ℕ) (offset n : ℕ)
      → length buf ≡ 16
      → n ≡ min 16 (length text - offset)
      → offset < length text
      → dump_line n (filled text buf offset n) ≡ some (line (take 16 (drop offset text)))
  dump_line-filled buf offset n hb e h =
      dump_line_lem n (filled text buf offset n)
        (omega (arith, length-filled buf offset n (omega arith) (omega arith)))
      ∙ ap (λ cs. some (line cs))
          (take-take_append n (drop offset text) (drop n buf)
              (omega (arith, length-drop offset text))
            ∙ taken offset n e)

  hexdump_loop-next :
      (fuel offset n : ℕ) (buf : List ℕ)
      → length buf ≡ 16
      → n ≡ min 16 (length text - offset)
      → offset < length text
      → hexdump_loop sys fuel file (offset + n) (filled text buf offset n)
        ≡ some (dumped (drop (offset + n) text))
      → hexdump_loop sys (suc fuel) file offset buf ≡ some (dumped (drop offset text))
  unfolding hexdump_loop
  hexdump_loop-next fuel offset n buf hb en ho rest =
      let read : sys.fs_read file offset buf 16 ≡ some (n, filled text buf offset n) =
        s.reads offset 16 buf (omega arith) (omega arith)
        ∙ ap (λ m. some (m, filled text buf offset m)) (sym en) in
      let some_bytes : (n == 0) ≡ false = ground arith in
      let no_wrap : (offset + n) % 2 ^ 32 ≡ offset + n = omega arith in
      let behind = dropped offset n en in
      rw
        (
          read,
          ◌>>=◌,
          some_bytes,
          dump_line-filled buf offset n hb en ho,
          no_wrap,
          rest,
          ← behind,
          dump-next (drop offset text) (omega (arith, length-drop offset text)),
        )
        refl

  hexdump_loop_lem :
      (fuel offset : ℕ) (buf : List ℕ)
      → length buf ≡ 16
      → offset ≤ length text
      → length text - offset < fuel
      → hexdump_loop sys fuel file offset buf ≡ some (dumped (drop offset text))
  unfolding hexdump_loop dump
  hexdump_loop_lem zero offset buf hb ho hf = absurd (omega arith)
  hexdump_loop_lem (suc fuel) offset buf hb ho hf = elim (dec_lt offset (length text)) [
    | no p ↦
        let nothing : min 16 (length text - offset) ≡ 0 = omega arith in
        rw
          (
            s.reads offset 16 buf (omega arith) (omega arith),
            nothing,
            drop-all offset text (omega arith),
          )
          refl
    | yes p ↦
        let n = min 16 (length text - offset) in
        hexdump_loop-next fuel offset n buf hb refl p (
          hexdump_loop_lem fuel (offset + n) _
            (length-filled buf offset n (omega arith) (omega arith) ∙ hb) (omega arith)
            (omega arith))
  ]

  -- `hexdump` of a name that `fs_open` finds prints a newline and the lines of the file.
  pub cmd_hexdump_lem :
      (fuel : ℕ) (buf name : List ℕ)
      → sys.fs_open name ≡ some file
      → file ≢ 0
      → length buf ≡ 16
      → length text < fuel
      → cmd_hexdump sys fuel buf name ≡ some (put newline ∷ dumped text)
  unfolding cmd_hexdump
  cmd_hexdump_lem fuel buf name opened found hb hf =
      ground (arith, hexdump_loop_lem fuel 0 buf hb (omega arith) (omega arith))
