-- ===== src/Userspace/Elf/Layout.antt =====
-- A file whose segments have pages of their own, and the memory after the first of them were loaded.
use larch.Prelude.{
  ℕ, ◌+◌, ◌%◌, ◌^◌, ◌≤◌, ◌<◌, ◌≡◌, ◌≢◌, ◌⊎◌, refl, sym, ◌∙◌, some, true, arith, ◌==◌, Bool-cases,
  inl, inr, subst,
}
use larch.Ram.{Ram, IsRam, load8}
use larch.Userspace.Elf.{Elf32Phdr, PageSource, header_at, phdr_at, phdr_address, load_segment}
use larch.Userspace.Elf.Same.{header_at-same}
use larch.Userspace.Elf.Load.{
  pages_start, pages_end, Clear, IsLoaded, Placeable, IsPaged, Placed, phdr-kept,
}

module _ {ℓ} {W : Type ℓ} (ram : Ram W) (pages : PageSource W) (elf : ℕ) (w : W) where
  -- The `i`-th program header of the file, as it stands before the loading.
  abbrev pub segment : ℕ → Elf32Phdr
  segment i = phdr_at ram pages w (phdr_address ram pages elf i w)

  abbrev pub phnum : ℕ
  phnum = (header_at ram pages w elf).phnum

  -- One of the segments that are loaded.
  abbrev pub Loadable : ℕ → Type 0
  Loadable i = (i < phnum) × IsLoaded (segment i)

  -- The file and the places of its segments: each segment is placeable, the file's header, its program
  -- headers and the contents of every segment lie outside of all their pages, and no two segments have
  -- a page in common.
  pub record Layout : Type 0 where
    pub room : elf + 52 ≤ 2 ^ 32
    pub phdr_room : (i : ℕ) → i < phnum → phdr_address ram pages elf i w + 32 ≤ 2 ^ 32
    pub placeable :
        (i : ℕ) → Loadable i → Placeable elf (phdr_address ram pages elf i w) (segment i)
    pub header_clear : (i : ℕ) → Loadable i → Clear (segment i) elf 52
    pub phdr_clear :
        (i j : ℕ) → i < phnum → Loadable j → Clear (segment j) (phdr_address ram pages elf i w) 32
    pub file_clear :
        (i j : ℕ)
        → Loadable i
        → Loadable j
        → Clear (segment j) (elf + (segment i).offset) (segment i).filesz
    pub disjoint :
        (i j : ℕ)
        → Loadable i
        → Loadable j
        → i ≢ j
        → (pages_end (segment i) ≤ pages_start (segment j))
          ⊎ (pages_end (segment j) ≤ pages_start (segment i))

  -- The loop over the program headers has loaded the first `i` of them one after the other, from `w`
  -- on, which leaves `now`.
  pub data Passed : (i : ℕ) (now : W) → Type ℓ where
    at_start : Passed 0 w
    after_turn :
        (i : ℕ) (now next : W)
        → Passed i now
        → load_segment ram pages elf (phdr_address ram pages elf i now) now ≡ some (true, next)
        → Passed (i + 1) next

  module _ (laws : IsRam ram) (paged : IsPaged ram pages) where
    -- The segments before the `i`-th were loaded and are in place, and nothing outside of their pages
    -- changed.
    pub record Done (i : ℕ) (now : W) : Type ℓ where
      pub passed : Passed i now
      pub placed : (j : ℕ) → j < i → Loadable j → Placed ram pages laws paged elf (segment j) w now
      pub keeps :
          (a : ℕ)
          → ((j : ℕ) → j < i → Loadable j → Clear (segment j) a 1)
          → ram.load now a ≡ ram.load w a

    pub start-Done : Done 0 w
    start-Done = record {
      passed = at_start;
      placed = λ j h l. absurd (omega arith);
      keeps = λ a h. refl;
    }

    pub header-kept :
        (i : ℕ) (now : W)
        → Layout
        → Done i now
        → header_at ram pages now elf ≡ header_at ram pages w elf
    unfolding load8
    header-kept i now h d = header_at-same ram pages w now elf (λ x lo hi.
        let here : x % 2 ^ 32 ≡ x = omega (arith, h.room) in
        rw (load8, here) (d.keeps x (λ j lt l. ground (arith, h.header_clear j l))))

    pub segment-kept :
        (i : ℕ) (now : W)
        → Layout
        → i < phnum
        → Done i now
        → phdr_at ram pages now (phdr_address ram pages elf i now) ≡ segment i
    unfolding phdr_address
    segment-kept i now h lt d = rw (header-kept i now h d) (
        phdr-kept ram pages laws paged (phdr_address ram pages elf i w) w now (h.phdr_room i lt)
          (λ x lo hi. d.keeps x (λ j lt' l. ground (arith, h.phdr_clear i j lt l))))

    -- The bytes of the file's part of a segment are still those of the file.
    file-kept :
        (i j k : ℕ) (now : W)
        → Layout
        → Done i now
        → Loadable j
        → k < (segment j).filesz
        → ram.load now (elf + (segment j).offset + k) ≡ ram.load w (elf + (segment j).offset + k)
    file-kept i j k now h d l lt =
        d.keeps (elf + (segment j).offset + k) (λ j' lt' l'. ground (arith, h.file_clear j j' l l'))

    -- An address of one segment is outside of the pages of another.
    inside_apart :
        (i j k : ℕ)
        → Layout
        → Loadable i
        → Loadable j
        → j ≢ i
        → k < (segment j).memsz
        → Clear (segment i) ((segment j).vaddr + k) 1
    inside_apart i j k h li lj ne lt = ground (arith, h.disjoint i j li lj (λ e. ne (sym e)))

    next-Placed :
        (i j : ℕ) (now next : W)
        → Layout
        → Done i now
        → Loadable i
        → Loadable j
        → j < i
        → ((a : ℕ) → Clear (segment i) a 1 → ram.load next a ≡ ram.load now a)
        → Placed ram pages laws paged elf (segment j) w next
    next-Placed i j now next h d li lj lt keeps =
        let before = d.placed j lt lj in
        let sizes = (h.placeable j lj).sizes in
        record {
          file = λ k small.
              keeps _ (inside_apart i j k h li lj (omega arith) (omega (arith, sizes)))
              ∙ before.file k small;
          bss =
              λ k lo hi. keeps _ (inside_apart i j k h li lj (omega arith) hi) ∙ before.bss k lo hi;
        }

    pub next-Done :
        (i : ℕ) (now next : W)
        → Layout
        → Done i now
        → Loadable i
        → load_segment ram pages elf (phdr_address ram pages elf i now) now ≡ some (true, next)
        → Placed ram pages laws paged elf (segment i) now next
        → ((a : ℕ) → Clear (segment i) a 1 → ram.load next a ≡ ram.load now a)
        → Done (i + 1) next
    next-Done i now next h d l e p keeps = record {
      passed = after_turn i now next d.passed e;
      placed = λ j lt lj. elim (Bool-cases (j == i)) [
        | inl here ↦
            let same : i ≡ j = ground arith in
            subst (λ n. Placed ram pages laws paged elf (segment n) w next) same
              (record {
                file = λ k small. p.file k small ∙ file-kept i i k now h d l small;
                bss = p.bss;
              })
        | inr there ↦ next-Placed i j now next h d l lj (ground arith) keeps
      ];
      keeps = λ a out. keeps a (out i (omega arith) l) ∙ d.keeps a (λ j lt. out j (omega arith));
    }

    pub skip-Done :
        (i : ℕ) (now : W)
        → Done i now
        → load_segment ram pages elf (phdr_address ram pages elf i now) now ≡ some (true, now)
        → ¬ IsLoaded (segment i)
        → Done (i + 1) now
    skip-Done i now d e no_load = record {
      passed = after_turn i now now d.passed e;
      placed = λ j lt l. elim (Bool-cases (j == i)) [
        | inl here ↦
            let same : j ≡ i = ground arith in
            absurd (no_load (subst (λ n. IsLoaded (segment n)) same l.1))
        | inr there ↦ d.placed j (ground arith) l
      ];
      keeps = λ a out. d.keeps a (λ j lt. out j (omega arith));
    }
