-- ===== src/Boot/Multiboot/Tags.antt =====
-- The walk over the tags.
use larch.Prelude.{
  ℕ, zero, suc, ◌+◌, ◌-◌, ◌*◌, ◌/◌, ◌%◌, ◌^◌, ◌<◌, ◌≡◌, ap, subst, ◌∙◌, ◌&&◌, some, arith, ◌==◌,
  if◌then◌else◌, bit_and, Bool-cases, inl, inr,
}
use larch.Prelude.Bits.{bit_and_mask, bit_and_shift}
use larch.Ram.{Ram, load32}
use larch.Boot.Multiboot.{
  Sizes, MmapEntry, use_entry, tag_at, entry_at, use_entries, next_tag, parse_tags,
  parse_multiboot2,
}

module _ {ℓ} {W : Type ℓ} (ram : Ram W) (w : W) where
  -- An entry of usable memory that starts at `base`.
  abbrev pub Starts : ℕ → MmapEntry → Type 0
  Starts base entry = (entry.type ≡ 1) × (entry.addr ≡ base)

  -- The size that the entries from `i` on, `left` of them, give for `base`: the low word of the length
  -- of the last one that starts there, or `before` if there is none.
  pub data LastAt (mmap base : ℕ) : (before left i : ℕ) → ℕ → Type ℓ where
    nothing : (before i : ℕ) → LastAt mmap base before 0 i before
    later :
        (before left i size : ℕ)
        → ¬ Starts base (entry_at ram w mmap i)
        → LastAt mmap base before left (i + 1) size
        → LastAt mmap base before (suc left) i size
    here :
        (before left i size : ℕ)
        → Starts base (entry_at ram w mmap i)
        → LastAt mmap base ((entry_at ram w mmap i).len % 2 ^ 32) left (i + 1) size
        → LastAt mmap base before (suc left) i size

  -- The two sizes of a usable entry and of any other.
  use_entry_lem :
      (mmap base before left i size : ℕ)
      → LastAt mmap base
          (if (entry_at ram w mmap i).type == 1 && (entry_at ram w mmap i).addr == base
            then (entry_at ram w mmap i).len % 2 ^ 32
            else before)
          left
          (i + 1)
          size
      → LastAt mmap base before (suc left) i size
  use_entry_lem mmap base before left i size last =
      let entry = entry_at ram w mmap i in
      elim (Bool-cases (entry.type == 1 && entry.addr == base)) [
        | inl starts ↦ here before left i size (ground arith) (rw starts at last)
        | inr other ↦
            later before left i size (λ s. absurd (ground (arith, s.0, s.1))) (rw other at last)
      ]

  use_entry-lower :
      (entry : MmapEntry) (s : Sizes)
      → (use_entry entry s).memory_lower
        ≡ (if entry.type == 1 && entry.addr == 0 then entry.len % 2 ^ 32 else s.memory_lower)
  unfolding use_entry
  use_entry-lower entry s = ground arith

  use_entry-upper :
      (entry : MmapEntry) (s : Sizes)
      → (use_entry entry s).memory_upper
        ≡ (if entry.type == 1 && entry.addr == 0x100000 then entry.len % 2 ^ 32 else s.memory_upper)
  unfolding use_entry
  use_entry-upper entry s = ground arith

  -- Both sizes.
  pub record LastSizes (left mmap i : ℕ) (before after : Sizes) : Type ℓ where
    pub lower : LastAt mmap 0 before.memory_lower left i after.memory_lower
    pub upper : LastAt mmap 0x100000 before.memory_upper left i after.memory_upper

  -- The loop over the entries of a memory map sets each of the two sizes to that of the last usable
  -- entry at its address, 0 or 0x100000, and leaves it where there is none.
  pub use_entries-LastSizes :
      (left mmap i : ℕ) (before : Sizes)
      → LastSizes left mmap i before (use_entries ram w left mmap i before)
  unfolding use_entries
  use_entries-LastSizes zero mmap i before = record {
    lower = nothing before.memory_lower i;
    upper = nothing before.memory_upper i;
  }
  use_entries-LastSizes (suc left) mmap i before =
      let entry = entry_at ram w mmap i in
      let rest = use_entries-LastSizes left mmap (i + 1) (use_entry entry before) in
      record {
        lower = use_entry_lem mmap 0 before.memory_lower left i _ (
            subst
              (λ b.
                LastAt mmap 0 b left (i + 1)
                  (use_entries ram w left mmap (i + 1) (use_entry entry before)).memory_lower)
              (use_entry-lower entry before) rest.lower);
        upper = use_entry_lem mmap 0x100000 before.memory_upper left i _ (
            subst
              (λ b.
                LastAt mmap 0x100000 b left (i + 1)
                  (use_entries ram w left mmap (i + 1) (use_entry entry before)).memory_upper)
              (use_entry-upper entry before) rest.upper);
      }

  -- The next tag lies behind this one, at the next multiple of 8 of its size.
  pub next_tag_lem :
      (a : ℕ)
      → load32 ram w (a + 4) + 7 < 2 ^ 32
      → a + load32 ram w (a + 4) + 7 < 2 ^ 32
      → next_tag ram w a ≡ a + (load32 ram w (a + 4) + 7) / 8 * 8
  unfolding next_tag
  next_tag_lem a small room =
      let size = load32 ram w (a + 4) in
      let shift = bit_and_shift 3 (size + 7) (2 ^ 29 - 1) in
      let mask = bit_and_mask 29 ((size + 7) / 2 ^ 3) in
      let sum : (size + 7) % 2 ^ 32 ≡ size + 7 = omega arith in
      let rounded : bit_and (size + 7) 0xFFFFFFF8 ≡ (size + 7) / 8 * 8 =
        (shift ∙ ap (λ q. q * 2 ^ 3) mask ∙ omega arith) in
      rw (sum, rounded) (omega arith)

  -- The information that a Multiboot2 loader passes starts with its total size and a reserved word that
  -- is zero. The walk takes these two words for a tag of size zero: it ends at once, and whatever tags
  -- follow, both sizes stay as they were.
  pub parse_multiboot2-reserved :
      (fuel magic addr : ℕ) (sizes : Sizes)
      → load32 ram w (addr + 4) ≡ 0
      → parse_multiboot2 ram w (suc fuel) magic addr sizes ≡ some sizes
  unfolding parse_multiboot2 parse_tags tag_at
  parse_multiboot2-reserved fuel magic addr sizes reserved = ground (arith, reserved)
