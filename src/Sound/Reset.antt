-- ===== src/Sound/Reset.antt =====
-- Which registers the initialisation of the sound card reads and writes.
use larch.Prelude.{
  ℕ, zero, suc, ◌+◌, ◌-◌, ◌*◌, ◌/◌, ◌%◌, ◌^◌, ◌<◌, ◌≡◌, refl, ap, ◌∙◌, arith, ◌==◌, bit_and, bit_or,
  Bool, false, Bool-cases, inl, inr, List, [], ◌∷◌, ◌++◌, append-nil, append_assoc, sym, ◌||◌,
}
use larch.Prelude.Bits.{bit_and_mask, bit_and_shift, bit_or_fields}
use larch.Sound.{Mmio, hda, gcap, gctl, hda_gctl, wait_running, hda_init}

with_bit : (a : ℕ) → a < 2 ^ 32 → bit_or (bit_and a (2 ^ 32 - 2)) 1 ≡ a / 2 * 2 + 1
with_bit a h =
    let shift = bit_and_shift 1 a (2 ^ 31 - 1) in
    let mask = bit_and_mask 31 (a / 2 ^ 1) in
    ap (λ n. bit_or n 1) (shift ∙ ap (λ q. q * 2 ^ 1) mask)
    ∙ bit_or_fields 1 (a / 2 ^ 1 % 2 ^ 31) 1 (omega arith)
    ∙ omega arith

-- An access to a register, with the word that was read or written.
pub data Access : Type 0 where
  reads : (a value : ℕ) → Access
  writes : (a value : ℕ) → Access

unfoldable pub touches : ℕ → List Access → Bool
touches a [] = false
touches a (reads b value ∷ log) = (b == a) || touches a log
touches a (writes b value ∷ log) = (b == a) || touches a log

-- The reads of the control word until its lowest bit is set, `left` ones at the most.
pub data Polls : (left : ℕ) → List Access → Type 0 where
  given_up : Polls zero []
  running : (left value : ℕ) → value % 2 ≡ 1 → Polls (suc left) (reads (hda + gctl) value ∷ [])
  waits :
      (left value : ℕ) (log : List Access)
      → value % 2 ≡ 0
      → Polls left log
      → Polls (suc left) (reads (hda + gctl) value ∷ log)

Polls-touches :
    {left : ℕ} {log : List Access} → Polls left log → touches (hda + hda_gctl) log ≡ false
unfolding touches
Polls-touches given_up = refl
Polls-touches (running left value odd) = refl
Polls-touches (waits left value log even rest) = Polls-touches rest

module _ (D : Type 0) (mmio : Mmio D) where
  -- The device with a log of the accesses, the latest one last.
  abbrev pub logged : Mmio (D × List Access)
  logged = record {
    read = λ a s. let (value, d) = mmio.read a s.0 in (value, (d, s.1 ++ (reads a value ∷ [])));
    write = λ a value s. (mmio.write a value s.0, s.1 ++ (writes a value ∷ []));
  }

  -- The accesses of a run that starts with `log`, and the same device as without the log.
  record Waits (left : ℕ) (d : D) (log : List Access) : Type 0 where
    polls : List Access
    polled : Polls left polls
    returns :
        wait_running (D × List Access) logged left (d, log)
        ≡ (wait_running D mmio left d, log ++ polls)

  wait_running-Waits : (left : ℕ) (d : D) (log : List Access) → Waits left d log
  unfolding wait_running
  wait_running-Waits zero d log = record {
    polls = [];
    polled = given_up;
    returns = ap (λ l. (d, l)) (sym (append-nil log));
  }
  wait_running-Waits (suc left) d log =
      let value = (mmio.read (hda + gctl) d).0 in
      let d1 = (mmio.read (hda + gctl) d).1 in
      let rest = wait_running-Waits left d1 (log ++ (reads (hda + gctl) value ∷ [])) in
      let bit : bit_and value 1 ≡ value % 2 = bit_and_mask 1 value in
      elim (Bool-cases (bit_and value 1 == 0)) [
        | inl again ↦ record {
          polls = reads (hda + gctl) value ∷ rest.polls;
          polled = waits left value rest.polls (ground (arith, bit)) rest.polled;
          returns = rw again (
              rest.returns
              ∙ ap (λ l. (wait_running D mmio left d1, l))
                  (append_assoc log (reads (hda + gctl) value ∷ []) rest.polls));
        }
        | inr on ↦ record {
          polls = reads (hda + gctl) value ∷ [];
          polled = running left value (ground (arith, bit));
          returns = rw on refl;
        }
      ]

  -- The accesses of the initialisation, and what it does to the device.
  pub record Starts (d : D) : Type 0 where
    pub capabilities : ℕ
    pub control : ℕ
    pub polls : List Access
    pub log : List Access
    pub read_control : (mmio.read (hda + gctl) (mmio.read (hda + gcap) d).1).0 ≡ control
    pub logs :
        log
        ≡ reads (hda + gcap) capabilities
          ∷ reads (hda + gctl) control
          ∷ writes (hda + gctl) (control / 2 * 2 + 1)
          ∷ polls
    pub polled : Polls 10000 polls
    pub untouched : touches (hda + hda_gctl) log ≡ false
    pub returns : hda_init (D × List Access) logged (d, []) ≡ (hda_init D mmio d, log)

  -- On any device whose registers are words of 32 bits the initialisation reads the word at offset 0,
  -- reads the one at offset 4 and writes it back with its lowest bit set and the other bits as they
  -- were read, and then reads it again until that bit is set, 10000 times at the most. So it never
  -- reads or writes the word at offset 8, which the file itself names as that of the global control.
  pub hda_init-Starts : ((a : ℕ) (d : D) → (mmio.read a d).0 < 2 ^ 32) → (d : D) → Starts d
  unfolding hda_init touches
  hda_init-Starts word d =
      let capabilities = (mmio.read (hda + gcap) d).0 in
      let d1 = (mmio.read (hda + gcap) d).1 in
      let control = (mmio.read (hda + gctl) d1).0 in
      let d2 = (mmio.read (hda + gctl) d1).1 in
      let value = bit_or (bit_and control (2 ^ 32 - 2)) 1 in
      let set = with_bit control (word (hda + gctl) d1) in
      let before : List Access =
        reads (hda + gcap) capabilities
        ∷ reads (hda + gctl) control
        ∷ writes (hda + gctl) value
        ∷ [] in
      let wait = wait_running-Waits 10000 (mmio.write (hda + gctl) value d2) before in
      record {
        capabilities = capabilities;
        control = control;
        polls = wait.polls;
        log = before ++ wait.polls;
        read_control = refl;
        logs =
            ap
              (λ v.
                reads (hda + gcap) capabilities
                ∷ reads (hda + gctl) control
                ∷ writes (hda + gctl) v
                ∷ wait.polls)
              set;
        polled = wait.polled;
        untouched = Polls-touches wait.polled;
        returns = wait.returns;
      }
