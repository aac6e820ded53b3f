-- ===== src/Userspace/Elf/Load.antt =====
-- What the loading of one segment leaves in the memory.
use larch.Prelude.{
  ℕ, ◌+◌, ◌*◌, ◌/◌, ◌%◌, ◌^◌, ◌≤◌, ◌<◌, ◌≡◌, ◌⊎◌, refl, ◌∙◌, Bool, true, false, ◌&&◌, some, arith,
  ltb, ◌==◌, ◌>>=◌, if◌then◌else◌, Bool-cases, inl, inr, subst,
}
use larch.Ram.{Ram, IsRam, load8}
use larch.Userspace.Elf.{
  Elf32Phdr, PageSource, pt_load, page_fuel, start_page, end_page, phdr_at, map_pages, fill_segment,
  load_segment,
}
use larch.Userspace.Elf.Same.{phdr_at-same}
use larch.Userspace.Elf.Pages.{Maps, finished, refused, mapped, map_pages-MapsSegment}
use larch.Userspace.Elf.Fill.{Outside, Fits, IsFilled, fill_segment-IsFilled}

-- The first address of the pages of a segment, and the first one behind them.
abbrev pub pages_start : Elf32Phdr → ℕ
pages_start p = p.vaddr / 4096 * 4096

abbrev pub pages_end : Elf32Phdr → ℕ
pages_end p = (p.vaddr + p.memsz + 4095) / 4096 * 4096

-- The `left` addresses from `base` on are not in the pages of the segment.
abbrev pub Clear : (p : Elf32Phdr) (base left : ℕ) → Type 0
Clear p base left = (base + left ≤ pages_start p) ⊎ (pages_end p ≤ base)

-- A segment that the loader loads.
abbrev pub IsLoaded : Elf32Phdr → Type 0
IsLoaded p = (p.type ≡ pt_load) × (0 < p.memsz)

-- The segment lies in the memory, not in the first page, and is as large as its part of the file at
-- least; that part and the program header, at `phdr`, lie outside of the segment's pages.
pub record Placeable (elf phdr : ℕ) (p : Elf32Phdr) : Type 0 where
  pub low : 4096 ≤ p.vaddr
  pub high : p.vaddr + p.memsz + 4095 < 2 ^ 32
  pub sizes : p.filesz ≤ p.memsz
  pub file : elf + p.offset + p.filesz ≤ 2 ^ 32
  pub header : phdr + 32 ≤ 2 ^ 32
  pub file_clear : Clear p (elf + p.offset) p.filesz
  pub header_clear : Clear p phdr 32

module _ {ℓ} {W : Type ℓ} (ram : Ram W) (pages : PageSource W) where
  -- What the loader relies on: to take a page changes no byte that is mapped, and to map a page changes
  -- what is at its own addresses only.
  pub record IsPaged : Type ℓ where
    pub alloc_keeps : (w : W) (a : ℕ) → ram.load (pages.sys_alloc_page w).1 a ≡ ram.load w a
    pub map_keeps :
        (virt phys flags : ℕ) (w : W) (a : ℕ)
        → virt % 4096 ≡ 0
        → Outside a virt 4096
        → ram.load (pages.sys_map_page virt phys flags w) a ≡ ram.load w a

  -- From `w` on the pages of the segment are mapped one after the other, until the allocator has none
  -- for the next one of them, which leaves `next`.
  pub record Refused (p : Elf32Phdr) (w next : W) : Type ℓ where
    pub count : ℕ
    pub last : pages_start p + count * 4096 ≡ pages_end p
    pub maps : Maps ram pages w (pages_start p) count false next

  module _ (laws : IsRam ram) (paged : IsPaged) where
    Maps-keeps :
        {w w' : W} {page left : ℕ} {ok : Bool} (a : ℕ)
        → Maps ram pages w page left ok w'
        → page % 4096 ≡ 0
        → Outside a page (left * 4096)
        → ram.load w' a ≡ ram.load w a
    Maps-keeps a (finished w page) h out = refl
    Maps-keeps a (refused w page left none_left) h out = paged.alloc_keeps w a
    Maps-keeps a (mapped w page left ok w' got rest) h out =
        Maps-keeps a rest (omega arith) (ground arith)
        ∙ paged.map_keeps page _ 7 _ a h (ground arith)
        ∙ paged.alloc_keeps w a

    -- The segment's addresses hold its part of the file, and zeros behind it.
    pub record Placed (elf : ℕ) (p : Elf32Phdr) (w w' : W) : Type ℓ where
      pub file :
          (i : ℕ) → i < p.filesz → ram.load w' (p.vaddr + i) ≡ ram.load w (elf + p.offset + i)
      pub bss : (i : ℕ) → p.filesz ≤ i → i < p.memsz → ram.load w' (p.vaddr + i) ≡ 0

    -- The loading of a segment: it is placed, or the allocator refused one of its pages; and what is not in its
    -- pages is as it was.
    pub record LoadsSegment (elf phdr : ℕ) (p : Elf32Phdr) (w : W) : Type ℓ where
      pub ok : Bool
      pub world : W
      pub returns : load_segment ram pages elf phdr w ≡ some (ok, world)
      pub placed : ok ≡ true → Placed elf p w world
      pub keeps : (a : ℕ) → Clear p a 1 → ram.load world a ≡ ram.load w a
      pub refused : ok ≡ false → Refused p w world

    Placeable-Fits :
        (elf phdr : ℕ) (p : Elf32Phdr) → Placeable elf phdr p → Fits ram pages laws elf phdr p
    Placeable-Fits elf phdr p h = record {
      segment = omega (arith, h.high);
      sizes = h.sizes;
      file = h.file;
      header = h.header;
      file_apart = ground (arith, h.file_clear, h.sizes);
      header_apart = ground (arith, h.header_clear);
    }

    pub phdr-kept :
        (phdr : ℕ) (w w' : W)
        → phdr + 32 ≤ 2 ^ 32
        → ((x : ℕ) → phdr ≤ x → x < phdr + 32 → ram.load w' x ≡ ram.load w x)
        → phdr_at ram pages w' phdr ≡ phdr_at ram pages w phdr
    unfolding load8
    phdr-kept phdr w w' room h =
        phdr_at-same ram pages w w' phdr
          (λ x lo hi. let here : x % 2 ^ 32 ≡ x = omega arith in rw (load8, here) (h x lo hi))

    -- The pages of the segment are mapped, and nothing outside of them changed.
    map_pages-keeps :
        (p : Elf32Phdr) (w : W)
        → 4096 ≤ p.vaddr
        → p.vaddr + p.memsz + 4095 < 2 ^ 32
        → (ok : Bool) × (w' : W) × (map_pages ram pages page_fuel (start_page p) (end_page p) w
            ≡ some (ok, w'))
          × (ok ≡ false → Refused p w w')
          × ((a : ℕ) → Clear p a 1 → ram.load w' a ≡ ram.load w a)
    map_pages-keeps p w low high =
        let m = map_pages-MapsSegment ram pages p w low high in
        (
          m.run.ok,
          m.run.world,
          rw m.start m.run.returns,
          λ stops. record {
            count = m.count;
            last = omega (arith, m.aligned, m.below, m.tight, m.covers, m.least);
            maps =
                subst (λ first. Maps ram pages w first m.count false m.run.world)
                  (omega (arith, m.aligned, m.below, m.tight))
                  (subst (λ ok. Maps ram pages w m.first m.count ok m.run.world) stops m.run.maps);
          },
          λ a out.
              Maps-keeps a m.run.maps m.aligned
                (ground (arith, m.covers, m.least, m.below, m.tight, m.aligned)),
        )

    load_segment-loads :
        (elf phdr : ℕ) (w : W) (p : Elf32Phdr)
        → phdr_at ram pages w phdr ≡ p
        → IsLoaded p
        → load_segment ram pages elf phdr w ≡ (
            map_pages ram pages page_fuel (start_page p) (end_page p) w
            >>= (λ r. some (if r.0 then (true, fill_segment ram pages elf phdr r.1) else r)))
    unfolding load_segment
    load_segment-loads elf phdr w p e (t, m) =
        let loads : ((p.type == pt_load) && ltb 0 p.memsz) ≡ true = ground (arith, t, m) in
        rw (e, loads) refl

    -- The filling of mapped pages places the segment as the file was before them.
    fill_segment-Placed :
        (elf phdr : ℕ) (w w1 : W) (p : Elf32Phdr)
        → Placeable elf phdr p
        → phdr_at ram pages w phdr ≡ p
        → ((a : ℕ) → Clear p a 1 → ram.load w1 a ≡ ram.load w a)
        → Placed elf p w (fill_segment ram pages elf phdr w1)
          × ((a : ℕ) → Clear p a 1 → ram.load (fill_segment ram pages elf phdr w1) a ≡ ram.load w a)
    fill_segment-Placed elf phdr w w1 p h e same =
        let again : phdr_at ram pages w1 phdr ≡ p =
          phdr-kept phdr w w1 h.header (λ x lo hi. same x (ground (arith, h.header_clear))) ∙ e in
        let filled : IsFilled ram pages laws elf p w1 (fill_segment ram pages elf phdr w1) =
          subst (λ q. IsFilled ram pages laws elf q w1 (fill_segment ram pages elf phdr w1)) again
            (fill_segment-IsFilled ram pages laws elf phdr w1
              (rw again (Placeable-Fits elf phdr p h))) in
        (
          record {
            file =
                λ i lt. filled.file i lt ∙ same (elf + p.offset + i) (ground (arith, h.file_clear));
            bss = filled.bss;
          },
          λ a out. filled.rest a (ground arith) ∙ same a out,
        )

    pub load_segment-LoadsSegment :
        (elf phdr : ℕ) (w : W) (p : Elf32Phdr)
        → phdr_at ram pages w phdr ≡ p
        → IsLoaded p
        → Placeable elf phdr p
        → LoadsSegment elf phdr p w
    load_segment-LoadsSegment elf phdr w p e l h =
        let (ok, w1, returns, refuses, same) = map_pages-keeps p w h.low h.high in
        let steps = load_segment-loads elf phdr w p e l in
        let (placed, kept) = fill_segment-Placed elf phdr w w1 p h e same in
        elim (Bool-cases ok) [
          | inl granted ↦ record {
            ok = true;
            world = fill_segment ram pages elf phdr w1;
            returns = steps ∙ rw (returns, ◌>>=◌, granted) refl;
            placed = λ _. placed;
            keeps = kept;
            refused = λ f. absurd (ground (arith, f));
          }
          | inr stopped ↦ record {
            ok = false;
            world = w1;
            returns = steps ∙ rw (returns, ◌>>=◌, stopped) refl;
            placed = λ e. absurd (ground (arith, e));
            keeps = same;
            refused = λ _. refuses stopped;
          }
        ]
