-- ===== src/Userspace/Elf/Fill.antt =====
-- What a segment holds once it is filled.
use larch.Prelude.{
  ℕ, zero, suc, ◌+◌, ◌-◌, ◌^◌, ◌≤◌, ◌<◌, ◌≡◌, ◌⊎◌, refl, sym, ap, ◌∙◌, arith, ltb, if◌then◌else◌,
  Bool-cases, inl, inr,
}
use larch.Ram.{Ram, IsRam, address, load8}
use larch.Userspace.Elf.{Elf32Phdr, PageSource, phdr_at, copy_from, clear_from, fill_segment}
use larch.Userspace.Elf.Same.{phdr_at-same}

-- `a` is not among the `left` addresses from `base` on.
abbrev pub Outside : (a base left : ℕ) → Type 0
Outside a base left = (a < base) ⊎ (base + left ≤ a)

module _ {ℓ} {W : Type ℓ} (ram : Ram W) (pages : PageSource W) (laws : IsRam ram) where
  address_small : (a : ℕ) → a < 2 ^ 32 → address a ≡ a
  address_small a h = omega arith

  copy_from-Outside :
      (left dest src : ℕ) (w : W) (a : ℕ)
      → dest + left ≤ 2 ^ 32
      → Outside a dest left
      → ram.load (copy_from ram pages left dest src w) a ≡ ram.load w a
  unfolding copy_from
  copy_from-Outside zero dest src w a room out = refl
  copy_from-Outside (suc left) dest src w a room out =
      copy_from-Outside left (dest + 1) (src + 1) _ a (omega arith) (ground arith)
      ∙ laws.other (address dest) a _ w (ground (arith, address_small dest (omega arith)))

  copy_from-inside :
      (left dest src : ℕ) (w : W) (i : ℕ)
      → dest + left ≤ 2 ^ 32
      → src + left ≤ 2 ^ 32
      → ((src + left ≤ dest) ⊎ (dest + left ≤ src))
      → i < left
      → ram.load (copy_from ram pages left dest src w) (dest + i) ≡ ram.load w (src + i)
  unfolding copy_from
  copy_from-inside zero dest src w i room from apart h = absurd (omega arith)
  copy_from-inside (suc left) dest src w zero room from apart h =
      let w1 = ram.store (address dest) (ram.load w (address src)) w in
      let d = address_small dest (omega arith) in
      let first : dest + 0 ≡ dest = omega arith in
      let source : src + 0 ≡ src = omega arith in
      rw (first, source)
        (copy_from-Outside left (dest + 1) (src + 1) w1 dest (omega arith) (inl (omega arith))
          ∙ ap (ram.load w1) (sym d)
          ∙ laws.same (address dest) _ w (laws.byte w (address src))
          ∙ ap (ram.load w) (address_small src (omega arith)))
  copy_from-inside (suc left) dest src w (suc i) room from apart h =
      let w1 = ram.store (address dest) (ram.load w (address src)) w in
      let here : dest + 1 + i ≡ dest + suc i = omega arith in
      let there : src + 1 + i ≡ src + suc i = omega arith in
      ap (ram.load (copy_from ram pages left (dest + 1) (src + 1) w1)) (sym here)
      ∙ copy_from-inside left (dest + 1) (src + 1) w1 i (omega arith) (omega arith) (ground arith)
          (omega arith)
      ∙ ap (ram.load w1) there
      ∙ laws.other (address dest) (src + suc i) _ w
          (ground (arith, address_small dest (omega arith)))

  clear_from-Outside :
      (left dest : ℕ) (w : W) (a : ℕ)
      → dest + left ≤ 2 ^ 32
      → Outside a dest left
      → ram.load (clear_from ram pages left dest w) a ≡ ram.load w a
  unfolding clear_from
  clear_from-Outside zero dest w a room out = refl
  clear_from-Outside (suc left) dest w a room out =
      clear_from-Outside left (dest + 1) _ a (omega arith) (ground arith)
      ∙ laws.other (address dest) a 0 w (ground (arith, address_small dest (omega arith)))

  clear_from-inside :
      (left dest : ℕ) (w : W) (i : ℕ)
      → dest + left ≤ 2 ^ 32
      → i < left
      → ram.load (clear_from ram pages left dest w) (dest + i) ≡ 0
  unfolding clear_from
  clear_from-inside zero dest w i room h = absurd (omega arith)
  clear_from-inside (suc left) dest w zero room h =
      let first : dest + 0 ≡ dest = omega arith in
      rw first (
        clear_from-Outside left (dest + 1) (ram.store (address dest) 0 w) dest (omega arith)
          (inl (omega arith))
        ∙ ap (ram.load (ram.store (address dest) 0 w)) (sym (address_small dest (omega arith)))
        ∙ laws.same (address dest) 0 w (omega arith))
  clear_from-inside (suc left) dest w (suc i) room h =
      let here : dest + 1 + i ≡ dest + suc i = omega arith in
      ap (ram.load (clear_from ram pages left (dest + 1) (ram.store (address dest) 0 w))) (sym here)
      ∙ clear_from-inside left (dest + 1) _ i (omega arith) (omega arith)

  copy_if :
      (n dest src : ℕ) (w : W)
      → (if ltb 0 n then copy_from ram pages n dest src w else w) ≡ copy_from ram pages n dest src w
  unfolding copy_from
  copy_if zero dest src w = refl
  copy_if (suc n) dest src w = ground arith

  clear_if :
      (file memory dest : ℕ) (w : W)
      → (if ltb file memory then clear_from ram pages (memory - file) dest w else w)
        ≡ clear_from ram pages (memory - file) dest w
  unfolding clear_from
  clear_if file memory dest w = elim (Bool-cases (ltb file memory)) [
    | inl more ↦ rw more refl
    | inr none_left ↦ let nothing : memory - file ≡ 0 = ground arith in rw (none_left, nothing) refl
  ]

  -- The memory after the segment's part of the file was copied.
  abbrev copied : (elf : ℕ) → Elf32Phdr → W → W
  copied elf p w = copy_from ram pages p.filesz p.vaddr (elf + p.offset) w

  fill_segment-steps :
      (elf phdr : ℕ) (w : W) (p : Elf32Phdr)
      → phdr_at ram pages w phdr ≡ p
      → phdr_at ram pages (copied elf p w) phdr ≡ p
      → fill_segment ram pages elf phdr w
        ≡ clear_from ram pages (p.memsz - p.filesz) (p.vaddr + p.filesz) (copied elf p w)
  unfolding fill_segment
  fill_segment-steps elf phdr w p e f =
      let copies : (if ltb 0 p.filesz then copied elf p w else w) ≡ copied elf p w =
        copy_if p.filesz p.vaddr (elf + p.offset) w in
      rw (e, copies, f) (clear_if p.filesz p.memsz (p.vaddr + p.filesz) (copied elf p w))

  -- The segment holds its part of the file and zeros behind it, and nothing else changed.
  pub record IsFilled (elf : ℕ) (p : Elf32Phdr) (w w' : W) : Type ℓ where
    pub file : (i : ℕ) → i < p.filesz → ram.load w' (p.vaddr + i) ≡ ram.load w (elf + p.offset + i)
    pub bss : (i : ℕ) → p.filesz ≤ i → i < p.memsz → ram.load w' (p.vaddr + i) ≡ 0
    pub rest : (a : ℕ) → Outside a p.vaddr p.memsz → ram.load w' a ≡ ram.load w a

  -- The segment lies in the memory and holds its part of the file; the file's part and the program
  -- header, at `phdr`, lie in the memory too, and outside of the segment.
  pub record Fits (elf phdr : ℕ) (p : Elf32Phdr) : Type 0 where
    pub segment : p.vaddr + p.memsz ≤ 2 ^ 32
    pub sizes : p.filesz ≤ p.memsz
    pub file : elf + p.offset + p.filesz ≤ 2 ^ 32
    pub header : phdr + 32 ≤ 2 ^ 32
    pub file_apart : (elf + p.offset + p.filesz ≤ p.vaddr) ⊎ (p.vaddr + p.memsz ≤ elf + p.offset)
    pub header_apart : (phdr + 32 ≤ p.vaddr) ⊎ (p.vaddr + p.memsz ≤ phdr)

  filled :
      (elf phdr : ℕ) (w : W) (p : Elf32Phdr)
      → phdr_at ram pages w phdr ≡ p
      → Fits elf phdr p
      → IsFilled elf p w (fill_segment ram pages elf phdr w)
  unfolding load8
  filled elf phdr w p e f =
      let again : phdr_at ram pages (copied elf p w) phdr ≡ p =
        (phdr_at-same ram pages w (copied elf p w) phdr (λ x lo hi.
          copy_from-Outside p.filesz p.vaddr (elf + p.offset) w (address x)
            (omega (arith, f.segment, f.sizes))
            (ground (
              arith,
              f.header_apart,
              f.header,
              f.sizes,
              address_small x (omega (arith, f.header)),
            ))))
        ∙ e in
      let steps = fill_segment-steps elf phdr w p e again in
      let room : p.vaddr + p.filesz + (p.memsz - p.filesz) ≤ 2 ^ 32 =
        omega (arith, f.segment, f.sizes) in
      let clear = clear_from ram pages (p.memsz - p.filesz) (p.vaddr + p.filesz) (copied elf p w) in
      rw steps (record {
        file = λ i h.
            clear_from-Outside (p.memsz - p.filesz) (p.vaddr + p.filesz) (copied elf p w)
              (p.vaddr + i) room (inl (omega arith))
            ∙ copy_from-inside p.filesz p.vaddr (elf + p.offset) w i
                (omega (arith, f.segment, f.sizes)) f.file (ground (arith, f.file_apart, f.sizes))
                h;
        bss = λ i lo hi.
            (let here : p.vaddr + p.filesz + (i - p.filesz) ≡ p.vaddr + i = omega arith in
              ap (ram.load clear) (sym here)
              ∙ clear_from-inside (p.memsz - p.filesz) (p.vaddr + p.filesz) (copied elf p w)
                  (i - p.filesz) room (omega arith));
        rest = λ a out.
            clear_from-Outside (p.memsz - p.filesz) (p.vaddr + p.filesz) (copied elf p w) a room
              (ground (arith, f.sizes))
            ∙ copy_from-Outside p.filesz p.vaddr (elf + p.offset) w a
                (omega (arith, f.segment, f.sizes)) (ground (arith, f.sizes));
      })

  -- For a segment that fits, the copy and the clearing of the rest leave its part of the file followed
  -- by zeros, and no other byte of the memory changes.
  pub fill_segment-IsFilled :
      (elf phdr : ℕ) (w : W)
      → Fits elf phdr (phdr_at ram pages w phdr)
      → IsFilled elf (phdr_at ram pages w phdr) w (fill_segment ram pages elf phdr w)
  fill_segment-IsFilled elf phdr w f = filled elf phdr w _ refl f
