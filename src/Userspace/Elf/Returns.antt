-- ===== src/Userspace/Elf/Returns.antt =====
-- The loader ends on every file.
use larch.Prelude.{
  ℕ, zero, suc, ◌+◌, ◌-◌, ◌*◌, ◌/◌, ◌%◌, ◌^◌, ◌≤◌, ◌<◌, ◌≡◌, refl, Bool, true, false, ◌&&◌, Option,
  some, arith, ◌==◌, ltb, if◌then◌else◌, ◌>>=◌, Bool-cases, inl, inr,
}
use larch.Ram.{Ram, IsRam, address, load8, load16, load32}
use larch.Userspace.Elf.{
  Elf32Header, Elf32Phdr, PageSource, pt_load, page_fuel, start_page, end_page, header_at, phdr_at,
  alloc_page_at, map_pages, fill_segment, load_segment, phdr_address, load_segments, segment_fuel,
  elf_load,
}
use larch.Userspace.Elf.Pages.{page_of_lem}

module _ {ℓ} {W : Type ℓ} (ram : Ram W) (pages : PageSource W) (laws : IsRam ram) where
  -- The call returns.
  pub record Ends {κ} {A : Type κ} (call : Option (A × W)) : Type (ℓ ⊔ κ) where
    pub answer : A
    pub world : W
    pub returns : call ≡ some (answer, world)

  load16-small : (w : W) (a : ℕ) → load16 ram w a < 2 ^ 16
  unfolding load16 load8
  load16-small w a = omega (arith, laws.byte w (address a), laws.byte w (address (a + 1)))

  load32-small : (w : W) (a : ℕ) → load32 ram w a < 2 ^ 32
  unfolding load32
  load32-small w a = omega (arith, load16-small w a, load16-small w (a + 2))

  vaddr-small : (w : W) (phdr : ℕ) → (phdr_at ram pages w phdr).vaddr < 2 ^ 32
  unfolding phdr_at
  vaddr-small w phdr = load32-small w (phdr + 8)

  pub phnum-small : (w : W) (elf : ℕ) → (header_at ram pages w elf).phnum < 2 ^ 16
  unfolding header_at
  phnum-small w elf = load16-small w (elf + 44)

  map_pages-step :
      (fuel page end_page : ℕ) (w : W)
      → ((ltb page end_page ≡ true)
          → Ends (
              map_pages ram pages fuel
                ((page + 4096) % 2 ^ 32)
                end_page
                (alloc_page_at ram pages page w).1))
      → Ends (map_pages ram pages (suc fuel) page end_page w)
  unfolding map_pages
  map_pages-step fuel page end_page w next = elim (Bool-cases (ltb page end_page)) [
    | inl more ↦ elim (Bool-cases ((alloc_page_at ram pages page w).0 == 0)) [
      | inl stop ↦ rw (more, stop) (record { answer = false; world = _; returns = refl })
      | inr goes ↦ rw (more, goes) (next more)
    ]
    | inr done ↦ rw done (record { answer = true; world = w; returns = refl })
  ]

  map_pages-Ends :
      (fuel page last : ℕ) (w : W)
      → page % 4096 ≡ 0
      → last % 4096 ≡ 0
      → last < 2 ^ 32
      → last ≤ page + fuel * 4096
      → page < 2 ^ 32
      → Ends (map_pages ram pages (suc fuel) page last w)
  map_pages-Ends zero page last w p q small enough low =
      map_pages-step 0 page last w (λ more. absurd (ground arith))
  map_pages-Ends (suc fuel) page last w p q small enough low =
      map_pages-step (suc fuel) page last w (λ more.
        let below : page < last = ground arith in
        let here : page + 4096 ≤ last = omega arith in
        let small_next : (page + 4096) % 2 ^ 32 ≡ page + 4096 = omega arith in
        rw small_next (
          map_pages-Ends fuel (page + 4096) last _ (omega arith) q small (omega arith)
            (omega arith)))

  segment_pages-Ends :
      (p : Elf32Phdr) (w : W)
      → p.vaddr < 2 ^ 32
      → Ends (map_pages ram pages page_fuel (start_page p) (end_page p) w)
  unfolding start_page end_page
  segment_pages-Ends p w h =
      let sum = (p.vaddr + p.memsz + 4095) % 2 ^ 32 in
      let first = page_of_lem p.vaddr h in
      let last = page_of_lem sum (omega arith) in
      rw (first, last)
        (map_pages-Ends (2 ^ 20 - 1) (p.vaddr / 4096 * 4096) (sum / 4096 * 4096) w (omega arith)
          (omega arith) (omega arith) (omega arith) (omega arith))

  filled_if :
      (elf phdr : ℕ) (call : Option (Bool × W))
      → Ends call
      → Ends (call >>= (λ r. some (if r.0 then (true, fill_segment ram pages elf phdr r.1) else r)))
  filled_if elf phdr call e = elim (Bool-cases e.answer) [
    | inl ok ↦
        rw (e.returns, ◌>>=◌, ok)
          (record {
            answer = true;
            world = fill_segment ram pages elf phdr e.world;
            returns = refl;
          })
    | inr stop ↦
        rw (e.returns, ◌>>=◌, stop) (record { answer = false; world = e.world; returns = refl })
  ]

  load_segment-Ends : (elf phdr : ℕ) (w : W) → Ends (load_segment ram pages elf phdr w)
  unfolding load_segment
  load_segment-Ends elf phdr w =
      let p = phdr_at ram pages w phdr in
      let pages_end = segment_pages-Ends p w (vaddr-small w phdr) in
      elim (Bool-cases ((p.type == pt_load) && ltb 0 p.memsz)) [
        | inl load ↦ rw load (filled_if elf phdr _ pages_end)
        | inr skip ↦ rw skip (record { answer = true; world = w; returns = refl })
      ]

  load_segments-Ends :
      (fuel i elf : ℕ) (w : W)
      → i < 2 ^ 16
      → 2 ^ 16 ≤ i + fuel
      → Ends (load_segments ram pages fuel i elf w)
  unfolding load_segments
  load_segments-Ends zero i elf w low enough = absurd (omega arith)
  load_segments-Ends (suc fuel) i elf w low enough =
      let bound = phnum-small w elf in
      elim (Bool-cases (ltb i (header_at ram pages w elf).phnum)) [
        | inl more ↦
            let s = load_segment-Ends elf (phdr_address ram pages elf i w) w in
            elim (Bool-cases s.answer) [
              | inl ok ↦
                  rw (more, s.returns, ◌>>=◌, ok)
                    (load_segments-Ends fuel (i + 1) elf s.world (ground arith) (omega arith))
              | inr stop ↦
                  rw (more, s.returns, ◌>>=◌, stop)
                    (record { answer = _; world = _; returns = refl })
            ]
        | inr done ↦ rw done (record { answer = true; world = w; returns = refl })
      ]

  -- The first bytes are those of an ELF file, of the type of an executable.
  pub record IsExecutable (header : Elf32Header) : Type 0 where
    pub magic : header.magic ≡ (0x7F, b'E', b'L', b'F')
    pub type : header.type ≡ 2

  -- The call returns; for a file that is no executable it returns null and changes nothing.
  pub record Loads (elf : ℕ) (w : W) : Type ℓ where
    pub entry : ℕ
    pub world : W
    pub returns : elf_load ram pages elf w ≡ some (entry, world)
    pub rejects : ¬ IsExecutable (header_at ram pages w elf) → (entry ≡ 0) × (world ≡ w)

  abbrev magic_ok : Elf32Header → Bool
  magic_ok header =
      let (m0, m1, m2, m3) = header.magic in
      (m0 == 0x7F) && ((m1 == b'E') && ((m2 == b'L') && (m3 == b'F')))

  accepted :
      (header : Elf32Header)
      → magic_ok header ≡ true
      → (header.type == 2) ≡ true
      → IsExecutable header
  accepted header m t =
      let (m0, m1, m2, m3) = header.magic in record { magic = ground arith; type = ground arith }

  -- From every memory of bytes, and for every file in it, the loader ends and returns: neither the loop over
  -- the program headers nor those over pages run for ever, whatever the fields say, and whatever the
  -- loading itself overwrites. A file that is not an ELF executable is answered with null, and
  -- nothing was changed.
  pub elf_load-Loads : (elf : ℕ) (w : W) → Loads elf w
  unfolding elf_load
  elf_load-Loads elf w =
      let header = header_at ram pages w elf in
      let s = load_segments-Ends segment_fuel 0 elf w (omega arith) (omega arith) in
      elim (Bool-cases (magic_ok header)) [
        | inr bad ↦ record {
          entry = 0;
          world = w;
          returns = rw bad refl;
          rejects = λ h. (refl, refl);
        }
        | inl good ↦ elim (Bool-cases (header.type == 2)) [
          | inr other ↦ record {
            entry = 0;
            world = w;
            returns = rw (good, other) refl;
            rejects = λ h. (refl, refl);
          }
          | inl executable ↦ elim (Bool-cases s.answer) [
            | inl ok ↦ record {
              entry = (header_at ram pages s.world elf).entry;
              world = s.world;
              returns = rw (good, executable, s.returns, ◌>>=◌, ok) refl;
              rejects = λ h. absurd (h (accepted header good executable));
            }
            | inr stop ↦ record {
              entry = 0;
              world = s.world;
              returns = rw (good, executable, s.returns, ◌>>=◌, stop) refl;
              rejects = λ h. absurd (h (accepted header good executable));
            }
          ]
        ]
      ]
