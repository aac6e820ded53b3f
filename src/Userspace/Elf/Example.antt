-- ===== src/Userspace/Elf/Example.antt =====
-- An executable of two segments in a memory that is a function on the addresses.
use larch.Prelude.{
  ℕ, zero, suc, ◌+◌, ◌*◌, ◌%◌, ◌<◌, ◌≡◌, refl, arith, List, [], ◌∷◌, ◌==◌, leb, ltb, ◌&&◌, get_or,
  if◌then◌else◌, inl,
}
use larch.Ram.{Ram, IsRam, load32, load16, load8}
use larch.Userspace.Elf.{Elf32Phdr, PageSource, header_at, phdr_at, phdr_address}
use larch.Userspace.Elf.Load.{IsPaged, Placeable}
use larch.Userspace.Elf.Layout.{segment, phnum, Layout}
use larch.Userspace.Elf.Returns.{IsExecutable}

abbrev pub Cells : Type 0
Cells = ℕ → ℕ

abbrev pub cells : Ram Cells
cells = record { load = λ w a. w a % 256; store = λ a v w b. if b == a then v else w b }

pub cells-IsRam : IsRam cells
cells-IsRam = record {
  byte = λ w a. omega arith;
  same = λ a v w h. ground arith;
  other = λ a b v w h. ground arith;
}

-- An allocator that has always the page at 0x700000; a page is mapped with zeros in it.
abbrev pub zero_pages : PageSource Cells
zero_pages = record {
  sys_alloc_page = λ w. (0x700000, w);
  sys_map_page = λ virt phys flags w b. if leb virt b && ltb b (virt + 4096) then 0 else w b;
}

pub zero_pages-IsPaged : IsPaged cells zero_pages
zero_pages-IsPaged = record {
  alloc_keeps = λ w a. refl;
  map_keeps = λ virt phys flags w a h out. ground arith;
}

abbrev file : List ℕ
file =
    127 ∷ 69 ∷ 76 ∷ 70 ∷ 1 ∷ 1 ∷ 1 ∷ 0 ∷ 0 ∷ 0 ∷ 0 ∷ 0 ∷ 0 ∷ 0 ∷ 0 ∷ 0 ∷ 2 ∷ 0 ∷ 3 ∷ 0 ∷ 1 ∷ 0 ∷ 0
    ∷ 0 ∷ 0 ∷ 80 ∷ 0 ∷ 0 ∷ 52 ∷ 0 ∷ 0 ∷ 0 ∷ 0 ∷ 0 ∷ 0 ∷ 0 ∷ 0 ∷ 0 ∷ 0 ∷ 0 ∷ 52 ∷ 0 ∷ 32 ∷ 0 ∷ 2 ∷ 0
    ∷ 0 ∷ 0 ∷ 0 ∷ 0 ∷ 0 ∷ 0 ∷ 1 ∷ 0 ∷ 0 ∷ 0 ∷ 116 ∷ 0 ∷ 0 ∷ 0 ∷ 0 ∷ 80 ∷ 0 ∷ 0 ∷ 0 ∷ 0 ∷ 0 ∷ 0 ∷ 2
    ∷ 0 ∷ 0 ∷ 0 ∷ 3 ∷ 0 ∷ 0 ∷ 0 ∷ 5 ∷ 0 ∷ 0 ∷ 0 ∷ 0 ∷ 16 ∷ 0 ∷ 0 ∷ 1 ∷ 0 ∷ 0 ∷ 0 ∷ 118 ∷ 0 ∷ 0 ∷ 0
    ∷ 0 ∷ 112 ∷ 0 ∷ 0 ∷ 0 ∷ 0 ∷ 0 ∷ 0 ∷ 2 ∷ 0 ∷ 0 ∷ 0 ∷ 3 ∷ 0 ∷ 0 ∷ 0 ∷ 5 ∷ 0 ∷ 0 ∷ 0 ∷ 0 ∷ 16 ∷ 0
    ∷ 0 ∷ 170 ∷ 187 ∷ 204 ∷ 221 ∷ []

abbrev pub memory : Cells
memory = λ a. get_or file a 99

-- The segments are at 0x5000 and 0x7000, of three bytes each, two of them in the file.
abbrev described : ℕ → Elf32Phdr
described i = record {
  type = 1;
  offset = 116 + 2 * i;
  vaddr = 0x5000 + 0x2000 * i;
  paddr = 0;
  filesz = 2;
  memsz = 3;
  flags = 5;
  align = 4096;
}

file-two : phnum cells zero_pages 0 memory ≡ 2
unfolding header_at load16 load8
file-two = refl

file-phdr_address : (i : ℕ) → i < 2 → phdr_address cells zero_pages 0 i memory ≡ 52 + 32 * i
unfolding phdr_address header_at load32 load16 load8
file-phdr_address zero h = refl
file-phdr_address (suc zero) h = refl
file-phdr_address (suc (suc i)) h = absurd (omega arith)

file-segment : (i : ℕ) → i < 2 → segment cells zero_pages 0 memory i ≡ described i
unfolding phdr_address header_at phdr_at load32 load16 load8
file-segment zero h = refl
file-segment (suc zero) h = refl
file-segment (suc (suc i)) h = absurd (omega arith)

pub file-IsExecutable :
    IsExecutable cells zero_pages cells-IsRam (header_at cells zero_pages memory 0)
unfolding header_at load16 load8
file-IsExecutable = record { magic = refl; type = refl }

below_two : (i : ℕ) → i < phnum cells zero_pages 0 memory → i < 2
below_two i h = omega (arith, file-two)

described-Placeable : (i : ℕ) → i < 2 → Placeable 0 (52 + 32 * i) (described i)
described-Placeable i h = record {
  low = omega arith;
  high = omega arith;
  sizes = omega arith;
  file = omega arith;
  header = omega arith;
  file_clear = inl (omega arith);
  header_clear = inl (omega arith);
}

pub file-Layout : Layout cells zero_pages 0 memory
file-Layout = record {
  room = omega arith;
  phdr_room = λ i h. (let lt = below_two i h in rw (file-phdr_address i lt) (omega arith));
  placeable = λ i l.
      (let lt = below_two i l.0 in
        rw (file-segment i lt, file-phdr_address i lt) (described-Placeable i lt));
  header_clear = λ i l. rw (file-segment i (below_two i l.0)) (inl (omega arith));
  phdr_clear = λ i j h l.
      (let lt = below_two i h in
        rw (file-segment j (below_two j l.0), file-phdr_address i lt) (inl (omega arith)));
  file_clear = λ i j li lj.
      (let lt = below_two i li.0 in
        rw (file-segment i lt, file-segment j (below_two j lj.0)) (inl (omega arith)));
  disjoint = λ i j li lj ne.
      (let lti = below_two i li.0 in
        let ltj = below_two j lj.0 in rw (file-segment i lti, file-segment j ltj) (ground arith));
}
