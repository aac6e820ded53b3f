-- ===== src/Boot/Multiboot.antt =====
-- kernel/larch/multiboot.c and multiboot.h: the memory sizes from the boot information, which lies in
-- the memory.
pub mod Tags
mod Tests
use larch.Prelude.{
  ℕ, zero, suc, ◌+◌, ◌-◌, ◌*◌, ◌/◌, ◌%◌, ◌^◌, Bool, true, false, not, ◌&&◌, Option, none, some,
  ◌==◌, ltb, if◌then◌else◌, bit_and,
}
use larch.Ram.{Ram, address, load32, load64}

-- The fields of `struct multiboot2_tag_mmap` but its entries; the first two are those of every tag.
pub record TagMmap : Type 0 where
  pub type : ℕ
  pub size : ℕ
  pub entry_size : ℕ
  pub entry_version : ℕ

pub record MmapEntry : Type 0 where
  pub addr : ℕ
  pub len : ℕ
  pub type : ℕ
  pub reserved : ℕ

abbrev pub tag_type_mmap : ℕ
tag_type_mmap = 6

-- `multiboot2_memory_lower` and `multiboot2_memory_upper`.
pub record Sizes : Type 0 where
  pub memory_lower : ℕ
  pub memory_upper : ℕ

abbrev pub initial_sizes : Sizes
initial_sizes = record { memory_lower = 0; memory_upper = 0 }

-- `sizeof(struct multiboot2_tag_mmap)` and `sizeof(struct multiboot2_mmap_entry)`, which is packed.
abbrev pub header_size : ℕ
header_size = 16

abbrev pub entry_stride : ℕ
entry_stride = 24

-- The assignments to the two variables, for an entry.
pub use_entry : MmapEntry → Sizes → Sizes
use_entry entry sizes =
    let len = entry.len % 2 ^ 32 in
    if entry.type == 1
    then (if entry.addr == 0
        then record sizes { memory_lower = len }
        else (if entry.addr == 0x100000 then record sizes { memory_upper = len } else sizes))
    else sizes

module _ {ℓ} {W : Type ℓ} (ram : Ram W) (w : W) where
  unfoldable pub tag_at : ℕ → TagMmap
  tag_at a = record {
    type = load32 ram w a;
    size = load32 ram w (a + 4);
    entry_size = load32 ram w (a + 8);
    entry_version = load32 ram w (a + 12);
  }

  -- `mmap->entries[i]`
  unfoldable pub entry_at : (mmap i : ℕ) → MmapEntry
  entry_at mmap i =
      let a = mmap + header_size + i * entry_stride in
      record {
        addr = load64 ram w a;
        len = load64 ram w (a + 8);
        type = load32 ram w (a + 16);
        reserved = load32 ram w (a + 20);
      }

  -- The bound of the `for` loop, in the arithmetic of `size_t`.
  unfoldable pub entry_count : TagMmap → ℕ
  entry_count mmap = (mmap.size + 2 ^ 32 - header_size) % 2 ^ 32 / mmap.entry_size

  -- `for (i = ...; i < count; i++)` with `left` entries to go.
  unfoldable pub use_entries : (left mmap i : ℕ) → Sizes → Sizes
  use_entries zero mmap i sizes = sizes
  use_entries (suc left) mmap i sizes =
      use_entries left mmap (i + 1) (use_entry (entry_at mmap i) sizes)

  -- The division by an `entry_size` of 0 is undefined.
  unfoldable pub use_tag : ℕ → Sizes → Option Sizes
  use_tag a sizes =
      let tag = tag_at a in
      let used = use_entries (entry_count tag) a 0 sizes in
      if tag.type == tag_type_mmap
      then (if tag.entry_size == 0 then none else some used)
      else some sizes

  -- `(uint8_t*)tag + ((tag->size + 7) & ~7)`
  unfoldable pub next_tag : ℕ → ℕ
  next_tag a = (a + bit_and ((load32 ram w (a + 4) + 7) % 2 ^ 32) 0xFFFFFFF8) % 2 ^ 32

  -- The loop over the tags; out of fuel it is `none`.
  pub parse_tags : (fuel a : ℕ) → Sizes → Option Sizes
  parse_tags zero a sizes = none
  parse_tags (suc fuel) a sizes =
      let tag = tag_at a in
      let next = parse_tags fuel (next_tag a) in
      if not (tag.type == 0) && not (tag.size == 0)
      then elim (use_tag a sizes) [ none ↦ none | some used ↦ next used ]
      else some sizes

  pub parse_multiboot2 : (fuel magic addr : ℕ) → Sizes → Option Sizes
  parse_multiboot2 fuel magic addr sizes =
      let parsed = parse_tags fuel addr sizes in if magic == 0x36D76289 then parsed else some sizes
