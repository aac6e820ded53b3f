-- ===== src/Userspace/Elf/Pages.antt =====
-- The pages that are mapped for a segment.
use larch.Prelude.{
  ℕ, zero, suc, ◌+◌, ◌-◌, ◌*◌, ◌/◌, ◌%◌, ◌^◌, ◌≤◌, ◌<◌, ◌≡◌, ◌≢◌, sym, ap, ◌∙◌, Bool, true, false,
  some, arith, ◌==◌, Bool-cases, inl, inr, subst,
}
use larch.Prelude.Bits.{bit_and_mask, bit_and_shift}
use larch.Ram.{Ram}
use larch.Userspace.Elf.{
  Elf32Phdr, PageSource, page_of, page_fuel, alloc_page_at, map_pages, start_page, end_page,
}

pub page_of_lem : (a : ℕ) → a < 2 ^ 32 → page_of a ≡ a / 4096 * 4096
unfolding page_of
page_of_lem a h =
    let shift = bit_and_shift 12 a (2 ^ 20 - 1) in
    let mask = bit_and_mask 20 (a / 2 ^ 12) in shift ∙ ap (λ q. q * 2 ^ 12) mask ∙ omega arith

module _ {ℓ} {W : Type ℓ} (ram : Ram W) (pages : PageSource W) where
  -- The pages from `page` on, as many as are left, are taken from the allocator and mapped one after
  -- the other, until it has none: then the answer is `false`.
  pub data Maps : (w : W) (page left : ℕ) → Bool → W → Type ℓ where
    finished : (w : W) (page : ℕ) → Maps w page 0 true w
    refused :
        (w : W) (page left : ℕ)
        → (pages.sys_alloc_page w).0 ≡ 0
        → Maps w page (suc left) false (pages.sys_alloc_page w).1
    mapped :
        (w : W) (page left : ℕ) (ok : Bool) (w' : W)
        → (pages.sys_alloc_page w).0 ≢ 0
        → Maps
            (pages.sys_map_page page (pages.sys_alloc_page w).0 7 (pages.sys_alloc_page w).1)
            (page + 4096)
            left
            ok
            w'
        → Maps w page (suc left) ok w'

  -- The loop ends, and it mapped so.
  pub record Runs (fuel page left end_page : ℕ) (w : W) : Type ℓ where
    pub ok : Bool
    pub world : W
    pub returns : map_pages ram pages fuel page end_page w ≡ some (ok, world)
    pub maps : Maps w page left ok world

  abbrev next_world : ℕ → W → W
  next_world page w =
      pages.sys_map_page page (pages.sys_alloc_page w).0 7 (pages.sys_alloc_page w).1

  map_pages-done :
      (fuel page end_page : ℕ) (w : W)
      → end_page ≤ page
      → map_pages ram pages (suc fuel) page end_page w ≡ some (true, w)
  unfolding map_pages
  map_pages-done fuel page end_page w h = ground arith

  map_pages-refused :
      (fuel page end_page : ℕ) (w : W)
      → page < end_page
      → (pages.sys_alloc_page w).0 ≡ 0
      → map_pages ram pages (suc fuel) page end_page w ≡ some (false, (pages.sys_alloc_page w).1)
  unfolding map_pages alloc_page_at
  map_pages-refused fuel page end_page w h e = ground arith

  map_pages-next :
      (fuel page end_page : ℕ) (w : W)
      → page < end_page
      → page ≢ 0
      → page + 4096 < 2 ^ 32
      → (pages.sys_alloc_page w).0 ≢ 0
      → map_pages ram pages (suc fuel) page end_page w
        ≡ map_pages ram pages fuel (page + 4096) end_page (next_world page w)
  unfolding map_pages alloc_page_at
  map_pages-next fuel page end_page w h ne small e =
      let here : (page + 4096) % 2 ^ 32 ≡ page + 4096 = omega arith in ground (arith, here)

  map_pages-Runs :
      (fuel page left : ℕ) (w : W)
      → page ≢ 0
      → page + left * 4096 < 2 ^ 32
      → left < fuel
      → Runs fuel page left (page + left * 4096) w
  map_pages-Runs zero page left w ne small h = absurd (omega arith)
  map_pages-Runs (suc fuel) page zero w ne small h = record {
    ok = true;
    world = w;
    returns = map_pages-done fuel page (page + 0 * 4096) w (omega arith);
    maps = finished w page;
  }
  map_pages-Runs (suc fuel) page (suc left) w ne small h =
      let last : page + 4096 + left * 4096 ≡ page + suc left * 4096 = omega arith in
      elim (Bool-cases ((pages.sys_alloc_page w).0 == 0)) [
        | inl none_left ↦ record {
          ok = false;
          world = (pages.sys_alloc_page w).1;
          returns = map_pages-refused fuel page _ w (omega arith) (ground arith);
          maps = refused w page left (ground arith);
        }
        | inr got ↦
            let rest =
              map_pages-Runs fuel (page + 4096) left (next_world page w) (omega arith) (omega arith)
                (omega arith) in
            record {
              ok = rest.ok;
              world = rest.world;
              returns =
                  map_pages-next fuel page (page + suc left * 4096) w (omega arith) ne (omega arith)
                    (ground arith)
                  ∙ ap (λ e. map_pages ram pages fuel (page + 4096) e (next_world page w))
                      (sym last)
                  ∙ rest.returns;
              maps = mapped w page left rest.ok rest.world (ground arith) rest.maps;
            }
      ]

  -- The number of pages from the one of the first byte to the one of the last.
  pub page_count : Elf32Phdr → ℕ
  page_count p = (p.vaddr + p.memsz + 4095) / 4096 - p.vaddr / 4096

  -- The loop of a segment, and how its pages lie around the segment.
  pub record MapsSegment (p : Elf32Phdr) (w : W) : Type ℓ where
    pub first : ℕ
    pub count : ℕ
    pub run : Runs page_fuel first count (end_page p) w
    pub start : start_page p ≡ first
    pub aligned : first % 4096 ≡ 0
    pub below : first ≤ p.vaddr
    pub tight : p.vaddr < first + 4096
    pub covers : p.vaddr + p.memsz ≤ first + count * 4096
    pub least : first + count * 4096 < p.vaddr + p.memsz + 4096

  -- For a segment outside the first page whose end, rounded up, is a 32-bit address, the loop ends. It
  -- takes the pages from the one of the first byte on from the allocator and maps them, exactly as many
  -- as cover the segment, unless the allocator refuses one, which the answer tells.
  pub map_pages-MapsSegment :
      (p : Elf32Phdr) (w : W) → 4096 ≤ p.vaddr → p.vaddr + p.memsz + 4095 < 2 ^ 32 → MapsSegment p w
  unfolding start_page end_page page_count
  map_pages-MapsSegment p w low high =
      let first = p.vaddr / 4096 * 4096 in
      let count = page_count p in
      let up = page_of_lem (p.vaddr + p.memsz + 4095) high in
      let no_wrap : (p.vaddr + p.memsz + 4095) % 2 ^ 32 ≡ p.vaddr + p.memsz + 4095 = omega arith in
      let last : first + count * 4096 ≡ end_page p =
        (let sum : first + count * 4096 ≡ (p.vaddr + p.memsz + 4095) / 4096 * 4096 = omega arith in
          sum ∙ sym up ∙ sym (ap page_of no_wrap)) in
      record {
        first = first;
        count = count;
        run =
            subst (λ e. Runs page_fuel first count e w) last
              (map_pages-Runs page_fuel first count w (omega arith) (omega arith) (omega arith));
        start = page_of_lem p.vaddr (omega arith);
        aligned = omega arith;
        below = omega arith;
        tight = omega arith;
        covers = omega arith;
        least = omega arith;
      }
