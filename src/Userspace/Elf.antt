-- ===== src/Userspace/Elf.antt =====
-- The loader of 32-bit ELF programs, kernel/userspace/elf_loader.c. The program file lies in the memory
-- that is loaded into, so every field is read from the memory at the time the code reads it. The page
-- allocator is not among the sources in C: it is a parameter.
pub mod Same
pub mod Pages
pub mod Fill
pub mod Load
pub mod Layout
pub mod Whole
pub mod Returns
pub mod Example
mod Tests
use larch.Prelude.{
  ℕ, zero, suc, ◌+◌, ◌-◌, ◌*◌, ◌%◌, ◌^◌, Bool, true, false, not, ◌&&◌, ◌||◌, Option, none, some,
  ◌==◌, ltb, if◌then◌else◌, ◌>>=◌, bit_and,
}
use larch.Ram.{Ram, address, load8, load16, load32}

pub record Elf32Header : Type 0 where
  pub magic : ℕ × ℕ × ℕ × ℕ
  pub bits : ℕ
  pub endian : ℕ
  pub version : ℕ
  pub osabi : ℕ
  pub abiversion : ℕ
  pub type : ℕ
  pub machine : ℕ
  pub version2 : ℕ
  pub entry : ℕ
  pub phoff : ℕ
  pub shoff : ℕ
  pub flags : ℕ
  pub ehsize : ℕ
  pub phentsize : ℕ
  pub phnum : ℕ
  pub shentsize : ℕ
  pub shnum : ℕ
  pub shstrndx : ℕ

pub record Elf32Phdr : Type 0 where
  pub type : ℕ
  pub offset : ℕ
  pub vaddr : ℕ
  pub paddr : ℕ
  pub filesz : ℕ
  pub memsz : ℕ
  pub flags : ℕ
  pub align : ℕ

abbrev pub pt_load : ℕ
pt_load = 1

-- `sys_alloc_page` and `sys_map_page`.
pub record PageSource {ℓ} (W : Type ℓ) : Type ℓ where
  pub sys_alloc_page : W → ℕ × W
  pub sys_map_page : (virt phys flags : ℕ) → W → W

-- The rounding `& ~0xFFF` of a 32-bit address.
unfoldable pub page_of : ℕ → ℕ
page_of a = bit_and a 0xFFFFF000

pub start_page : Elf32Phdr → ℕ
start_page p = page_of p.vaddr

pub end_page : Elf32Phdr → ℕ
end_page p = page_of ((p.vaddr + p.memsz + 0xFFF) % 2 ^ 32)

-- No loop over the pages takes more steps than there are pages.
abbrev pub page_fuel : ℕ
page_fuel = 2 ^ 20

-- The loop counts to a number of 16 bits.
abbrev pub segment_fuel : ℕ
segment_fuel = 2 ^ 16

module _ {ℓ} {W : Type ℓ} (ram : Ram W) (pages : PageSource W) where
  unfoldable pub header_at : W → ℕ → Elf32Header
  header_at w elf = record {
    magic = (load8 ram w elf, load8 ram w (elf + 1), load8 ram w (elf + 2), load8 ram w (elf + 3));
    bits = load8 ram w (elf + 4);
    endian = load8 ram w (elf + 5);
    version = load8 ram w (elf + 6);
    osabi = load8 ram w (elf + 7);
    abiversion = load8 ram w (elf + 8);
    type = load16 ram w (elf + 16);
    machine = load16 ram w (elf + 18);
    version2 = load32 ram w (elf + 20);
    entry = load32 ram w (elf + 24);
    phoff = load32 ram w (elf + 28);
    shoff = load32 ram w (elf + 32);
    flags = load32 ram w (elf + 36);
    ehsize = load16 ram w (elf + 40);
    phentsize = load16 ram w (elf + 42);
    phnum = load16 ram w (elf + 44);
    shentsize = load16 ram w (elf + 46);
    shnum = load16 ram w (elf + 48);
    shstrndx = load16 ram w (elf + 50);
  }

  unfoldable pub phdr_at : W → ℕ → Elf32Phdr
  phdr_at w p = record {
    type = load32 ram w p;
    offset = load32 ram w (p + 4);
    vaddr = load32 ram w (p + 8);
    paddr = load32 ram w (p + 12);
    filesz = load32 ram w (p + 16);
    memsz = load32 ram w (p + 20);
    flags = load32 ram w (p + 24);
    align = load32 ram w (p + 28);
  }

  -- The address, or the null pointer.
  pub alloc_page_at : ℕ → W → ℕ × W
  alloc_page_at vaddr w =
      let (phys, w1) = pages.sys_alloc_page w in
      if phys == 0 then (0, w1) else (vaddr, pages.sys_map_page vaddr phys 7 w1)

  -- `for (page = ...; page < end_page; page += 4096)`. `false` is the `return 0`.
  pub map_pages : (fuel page end_page : ℕ) → W → Option (Bool × W)
  map_pages zero page end_page w = none
  map_pages (suc fuel) page end_page w =
      let (mapped, w1) = alloc_page_at page w in
      let next = map_pages fuel ((page + 4096) % 2 ^ 32) end_page w1 in
      if ltb page end_page then (if mapped == 0 then some (false, w1) else next) else some (true, w)

  -- `memcpy`, one byte after the other.
  pub copy_from : (left dest src : ℕ) → W → W
  copy_from zero dest src w = w
  copy_from (suc left) dest src w =
      copy_from left (dest + 1) (src + 1) (ram.store (address dest) (ram.load w (address src)) w)

  -- `for (j = 0; j < bss_size; j++) bss_start[j] = 0;`
  pub clear_from : (left dest : ℕ) → W → W
  clear_from zero dest w = w
  clear_from (suc left) dest w = clear_from left (dest + 1) (ram.store (address dest) 0 w)

  pub fill_segment : (elf phdr : ℕ) → W → W
  fill_segment elf phdr w =
      let p = phdr_at w phdr in
      let w1 = if ltb 0 p.filesz then copy_from p.filesz p.vaddr (elf + p.offset) w else w in
      let q = phdr_at w1 phdr in
      if ltb q.filesz q.memsz then clear_from (q.memsz - q.filesz) (q.vaddr + q.filesz) w1 else w1

  -- The body of the loop over the program headers.
  pub load_segment : (elf phdr : ℕ) → W → Option (Bool × W)
  load_segment elf phdr w =
      let p = phdr_at w phdr in
      let mapped = map_pages page_fuel (start_page p) (end_page p) w in
      if (p.type == pt_load) && ltb 0 p.memsz
      then (mapped >>= (λ r. some (if r.0 then (true, fill_segment elf phdr r.1) else r)))
      else some (true, w)

  -- The address of the `i`-th program header.
  pub phdr_address : (elf i : ℕ) → W → ℕ
  phdr_address elf i w =
      let header = header_at w elf in (elf + header.phoff + i * header.phentsize % 2 ^ 32) % 2 ^ 32

  pub load_segments : (fuel i elf : ℕ) → W → Option (Bool × W)
  load_segments zero i elf w = none
  load_segments (suc fuel) i elf w =
      let loaded = load_segment elf (phdr_address elf i w) w in
      if ltb i (header_at w elf).phnum
      then (loaded >>= (λ r. if r.0 then load_segments fuel (i + 1) elf r.1 else some r))
      else some (true, w)

  -- The entry point, or the null pointer.
  pub elf_load : ℕ → W → Option (ℕ × W)
  elf_load elf w =
      let header = header_at w elf in
      let (m0, m1, m2, m3) = header.magic in
      let magic_ok = (m0 == 0x7F) && ((m1 == b'E') && ((m2 == b'L') && (m3 == b'F'))) in
      let loaded = load_segments segment_fuel 0 elf w in
      if not magic_ok
      then some (0, w)
      else (if not (header.type == 2)
          then some (0, w)
          else (loaded
              >>= (λ r. some (if r.0 then ((header_at r.1 elf).entry, r.1) else (0, r.1)))))

  -- The software interrupt that starts the program is the argument `interrupt`.
  unfoldable pub exec_user_program : (interrupt : ℕ → W → ℕ × W) (elf : ℕ) → W → Option (ℕ × W)
  exec_user_program interrupt elf w =
      elf_load elf w >>= (λ r. some (if r.0 == 0 then (0, r.1) else interrupt r.0 r.1))
