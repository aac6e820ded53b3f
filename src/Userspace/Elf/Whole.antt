-- ===== src/Userspace/Elf/Whole.antt =====
-- What the loading of a whole file leaves in the memory.
use larch.Prelude.{
  ℕ, zero, suc, ◌+◌, ◌^◌, ◌≤◌, ◌<◌, ◌≡◌, refl, ap, ◌∙◌, Bool, true, false, ◌&&◌, Option, some,
  arith, ltb, ◌==◌, ◌>>=◌, if◌then◌else◌, Bool-cases, inl, inr, subst,
}
use larch.Ram.{Ram, IsRam}
use larch.Userspace.Elf.{
  Elf32Phdr, PageSource, pt_load, header_at, phdr_at, load_segment, phdr_address, load_segments,
  segment_fuel, elf_load,
}
use larch.Userspace.Elf.Load.{Clear, IsPaged, Refused, Placed, load_segment-LoadsSegment}
use larch.Userspace.Elf.Layout.{
  Layout, segment, phnum, Loadable, Done, header-kept, segment-kept, start-Done, next-Done,
  skip-Done,
}
use larch.Userspace.Elf.Returns.{IsExecutable, phnum-small}

module _ {ℓ} {W : Type ℓ} (ram : Ram W) (pages : PageSource W) (elf : ℕ) (w : W) where
  module _ (laws : IsRam ram) (paged : IsPaged ram pages) where
    -- This loading came as far as the `i`-th segment, and the allocator refused one of its pages, which
    -- left `now`.
    pub record StopsAt (i : ℕ) (now : W) : Type ℓ where
      pub loadable : Loadable ram pages elf w i
      pub before : W
      pub done : Done ram pages elf w laws paged i before
      pub refused : Refused ram pages (segment ram pages elf w i) before now

    -- The answers of the loop over the program headers.
    data Loop : Option (Bool × W) → Type ℓ where
      done :
          (now : W)
          → Done ram pages elf w laws paged (phnum ram pages elf w) now
          → Loop (some (true, now))
      stopped : (now : W) (i : ℕ) → StopsAt i now → Loop (some (false, now))

    load_segment-skip :
        (phdr : ℕ) (now : W) (p : Elf32Phdr)
        → phdr_at ram pages now phdr ≡ p
        → ((p.type == pt_load) && ltb 0 p.memsz) ≡ false
        → load_segment ram pages elf phdr now ≡ some (true, now)
    unfolding load_segment
    load_segment-skip phdr now p e skip = rw (e, skip) refl

    load_segments-done :
        (fuel i : ℕ) (now : W)
        → (header_at ram pages now elf).phnum ≤ i
        → load_segments ram pages (suc fuel) i elf now ≡ some (true, now)
    unfolding load_segments
    load_segments-done fuel i now h =
        let end : ltb i (header_at ram pages now elf).phnum ≡ false = ground arith in rw end refl

    load_segments-more :
        (fuel i : ℕ) (now next : W) (ok : Bool)
        → i < (header_at ram pages now elf).phnum
        → load_segment ram pages elf (phdr_address ram pages elf i now) now ≡ some (ok, next)
        → load_segments ram pages (suc fuel) i elf now
          ≡ (if ok then load_segments ram pages fuel (i + 1) elf next else some (ok, next))
    unfolding load_segments
    load_segments-more fuel i now next ok h e =
        let more : ltb i (header_at ram pages now elf).phnum ≡ true = ground arith in
        rw (more, e, ◌>>=◌) refl

    -- The `i`-th turn: a segment is loaded, or there is none to load, or the allocator refuses.
    data Turn (i : ℕ) (now : W) : Type ℓ where
      goes :
          (next : W)
          → load_segment ram pages elf (phdr_address ram pages elf i now) now ≡ some (true, next)
          → Done ram pages elf w laws paged (i + 1) next
          → Turn i now
      stops :
          (next : W)
          → load_segment ram pages elf (phdr_address ram pages elf i now) now ≡ some (false, next)
          → StopsAt i next
          → Turn i now

    load-Turn :
        (i : ℕ) (now : W)
        → (Layout ram pages elf w)
        → Done ram pages elf w laws paged i now
        → Loadable ram pages elf w i
        → phdr_address ram pages elf i now ≡ phdr_address ram pages elf i w
        → Turn i now
    load-Turn i now h d l same =
        let s =
          load_segment-LoadsSegment ram pages laws paged elf (phdr_address ram pages elf i now) now
            (segment ram pages elf w i) (segment-kept ram pages elf w laws paged i now h l.0 d) l.1
            (rw same (h.placeable i l)) in
        elim (Bool-cases s.ok) [
          | inl ok ↦ goes s.world (s.returns ∙ ap (λ b. some (b, s.world)) ok) (
              next-Done ram pages elf w laws paged i now s.world h d l
                (s.returns ∙ ap (λ b. some (b, s.world)) ok) (s.placed ok) s.keeps)
          | inr no_page ↦
              stops s.world (s.returns ∙ ap (λ b. some (b, s.world)) no_page)
                (record { loadable = l; before = now; done = d; refused = s.refused no_page })
        ]

    phdr_address-kept :
        (i : ℕ) (now : W)
        → (Layout ram pages elf w)
        → Done ram pages elf w laws paged i now
        → phdr_address ram pages elf i now ≡ phdr_address ram pages elf i w
    unfolding phdr_address
    phdr_address-kept i now h d = rw (header-kept ram pages elf w laws paged i now h d) refl

    segment-Turn :
        (i : ℕ) (now : W)
        → (Layout ram pages elf w)
        → Done ram pages elf w laws paged i now
        → i < (phnum ram pages elf w)
        → Turn i now
    segment-Turn i now h d lt =
        elim (Bool-cases (
          ((segment ram pages elf w i).type == pt_load)
          && ltb 0 (segment ram pages elf w i).memsz)) [
            | inl load ↦
                load-Turn i now h d (lt, (ground arith, ground arith)) (phdr_address-kept i now h d)
            | inr skip ↦
                let step =
                  load_segment-skip _ now (segment ram pages elf w i)
                    (segment-kept ram pages elf w laws paged i now h lt d) skip in
                goes now step (
                  skip-Done ram pages elf w laws paged i now d step
                    (λ l. absurd (ground (arith, l))))
          ]

    load_segments-Loop :
        (fuel i : ℕ) (now : W)
        → (Layout ram pages elf w)
        → Done ram pages elf w laws paged i now
        → i ≤ (phnum ram pages elf w)
        → 2 ^ 16 ≤ i + fuel
        → Loop (load_segments ram pages fuel i elf now)
    load_segments-Loop zero i now h d le enough =
        absurd (omega (arith, phnum-small ram pages laws w elf))
    load_segments-Loop (suc fuel) i now h d le enough =
        let header = header-kept ram pages elf w laws paged i now h d in
        elim (Bool-cases (ltb i (phnum ram pages elf w))) [
          | inr end ↦
              let last : i ≡ (phnum ram pages elf w) = ground arith in
              rw (load_segments-done fuel i now (rw header (ground arith)))
                (done now (subst (λ n. Done ram pages elf w laws paged n now) last d))
          | inl more ↦ elim (segment-Turn i now h d (ground arith)) [
            | goes next e d' ↦
                rw (load_segments-more fuel i now next true (rw header (ground arith)) e)
                  (load_segments-Loop fuel (i + 1) next h d' (ground arith) (omega arith))
            | stops next e refuses ↦
                rw (load_segments-more fuel i now next false (rw header (ground arith)) e)
                  (stopped next i refuses)
          ]
        ]

    -- Every segment of the file is in place, and no byte outside of their pages changed.
    pub record IsLoadedFile (now : W) : Type ℓ where
      pub placed :
          (i : ℕ)
          → Loadable ram pages elf w i
          → Placed ram pages laws paged elf (segment ram pages elf w i) w now
      pub rest :
          (a : ℕ)
          → ((i : ℕ) → Loadable ram pages elf w i → Clear (segment ram pages elf w i) a 1)
          → ram.load now a ≡ ram.load w a

    -- The answers of the loader: the entry point with the file in place, or null where the allocator
    -- refused a page of a segment that this loading had come to.
    pub data LoadsFile : Option (ℕ × W) → Type ℓ where
      loaded :
          (now : W) → IsLoadedFile now → LoadsFile (some ((header_at ram pages w elf).entry, now))
      no_memory : (now : W) (i : ℕ) → StopsAt i now → LoadsFile (some (0, now))

    elf_load-loop :
        (now : W) (ok : Bool)
        → IsExecutable ram pages laws (header_at ram pages w elf)
        → load_segments ram pages segment_fuel 0 elf w ≡ some (ok, now)
        → elf_load ram pages elf w
          ≡ some (if ok then ((header_at ram pages now elf).entry, now) else (0, now))
    unfolding elf_load
    elf_load-loop now ok x e = rw (x.magic, x.type, e, ◌>>=◌) refl

    loop_answer :
        (result : Option (Bool × W))
        → (Layout ram pages elf w)
        → IsExecutable ram pages laws (header_at ram pages w elf)
        → load_segments ram pages segment_fuel 0 elf w ≡ result
        → Loop result
        → LoadsFile (elf_load ram pages elf w)
    loop_answer result h x e (done now d) =
        rw
          (
            elf_load-loop now true x e,
            header-kept ram pages elf w laws paged (phnum ram pages elf w) now h d,
          )
          (loaded now (record {
            placed = λ i l. d.placed i l.0 l;
            rest = λ a out. d.keeps a (λ j lt l. out j l);
          }))
    loop_answer result h x e (stopped now i refuses) =
        rw (elf_load-loop now false x e) (no_memory now i refuses)

    -- The loading of an executable whose segments have pages of their own, away from the file: the loader
    -- returns, and either the answer is the entry point, every loadable segment holds its part of the
    -- file and zeros behind it, and no byte outside of the segments' pages changed; or the answer is
    -- null, and there is a loadable segment such that this loading had put all segments before it in
    -- place and had changed nothing else, and then, while the pages of that segment were mapped one after
    -- the other, the allocator had none for the next, where the loading stopped.
    pub elf_load-LoadsFile :
        (Layout ram pages elf w)
        → IsExecutable ram pages laws (header_at ram pages w elf)
        → LoadsFile (elf_load ram pages elf w)
    elf_load-LoadsFile h x = loop_answer _ h x refl (
        load_segments-Loop segment_fuel 0 w h (start-Done ram pages elf w laws paged) (omega arith)
          (omega arith))
