-- ===== src/Sound/Streams.antt =====
-- What the registers of the streams hold after any calls of the driver.
use larch.Prelude.{
  ℕ, ◌+◌, ◌/◌, ◌^◌, ◌<◌, ◌≡◌, ◌≢◌, ◌⊎◌, subst, sym, ◌∙◌, List, [], ◌∷◌, arith, ◌==◌, if◌then◌else◌,
  Bool-cases, inl, inr,
}
use larch.Sound.{Mmio, stream, hda_play_sample, hda_stop_stream}

-- The calls of the driver on the streams.
pub data StreamCall : Type 0 where
  play : (buffer length stream_id : ℕ) → StreamCall
  stop : (stream_id : ℕ) → StreamCall

-- The stream that a call is about.
abbrev pub stream_of : StreamCall → ℕ
stream_of (play buffer length stream_id) = stream_id
stream_of (stop stream_id) = stream_id

-- A stream, abstractly: whether it runs, and the buffer and the number of words it was given.
pub record Stream : Type 0 where
  pub running : ℕ
  pub buffer : ℕ
  pub words : ℕ

-- What a call does to the stream it is about.
abbrev pub heard : StreamCall → Stream → Stream
heard (play buffer length stream_id) s = record { running = 1; buffer = buffer; words = length / 4 }
heard (stop stream_id) s = record s { running = 0 }

-- A stream after the calls that are about it.
unfoldable pub hear : (stream_id : ℕ) → List StreamCall → Stream → Stream
hear n [] s = s
hear n (c ∷ cs) s = hear n cs (if stream_of c == n then heard c s else s)

module _ (D : Type 0) (mmio : Mmio D) where
  unfoldable pub call : StreamCall → D → D
  call (play buffer length stream_id) d = hda_play_sample D mmio buffer length stream_id d
  call (stop stream_id) d = hda_stop_stream D mmio stream_id d

  unfoldable pub calls : List StreamCall → D → D
  calls [] d = d
  calls (c ∷ cs) d = calls cs (call c d)

  -- What the registers of streams are: a register reads as the word last written to it, and a write
  -- changes no other.
  pub record IsRegisters : Type 0 where
    pub same : (a v : ℕ) (d : D) → v < 2 ^ 32 → (mmio.read a (mmio.write a v d)).0 ≡ v
    pub other : (a b v : ℕ) (d : D) → b ≢ a → (mmio.read b (mmio.write a v d)).0 ≡ (mmio.read b d).0

  -- The registers of a stream hold it.
  pub record Holds (n : ℕ) (d : D) (s : Stream) : Type 0 where
    pub control : (mmio.read (stream D mmio n 0) d).0 ≡ 0x80000000 + s.running
    pub buffer : (mmio.read (stream D mmio n 2) d).0 ≡ s.buffer
    pub words : (mmio.read (stream D mmio n 3) d).0 ≡ s.words

  -- The stream is one of those whose registers lie at the end of the addresses, and the values are words.
  abbrev pub Fits : StreamCall → Type 0
  Fits (play buffer length stream_id) = (buffer < 2 ^ 32) × (length < 2 ^ 32) × (stream_id < 2 ^ 16)
  Fits (stop stream_id) = stream_id < 2 ^ 16

  abbrev pub AllFit : List StreamCall → Type 0
  AllFit [] = Unit {0}
  AllFit (c ∷ cs) = Fits c × AllFit cs

  abbrev at : (n i : ℕ) → ℕ
  at n i = stream D mmio n i

  apart :
      (m n i j : ℕ) → m < 2 ^ 16 → n < 2 ^ 16 → i < 4 → j < 4 → m ≢ n ⊎ (i ≢ j) → at n j ≢ at m i
  apart m n i j hm hn hi hj ne = ground arith

  module _ (laws : IsRegisters) where
    -- Words of one stream are changed by no write to another word of a stream.
    kept :
        (m n i j v : ℕ) (d : D)
        → m < 2 ^ 16
        → n < 2 ^ 16
        → i < 4
        → j < 4
        → m ≢ n ⊎ (i ≢ j)
        → (mmio.read (at n j) (mmio.write (at m i) v d)).0 ≡ (mmio.read (at n j) d).0
    kept m n i j v d hm hn hi hj ne =
        laws.other (at m i) (at n j) v d (apart m n i j hm hn hi hj ne)

    call-other :
        (c : StreamCall) (n j : ℕ) (d : D)
        → Fits c
        → n < 2 ^ 16
        → j < 4
        → stream_of c ≢ n
        → (mmio.read (at n j) (call c d)).0 ≡ (mmio.read (at n j) d).0
    unfolding call hda_play_sample hda_stop_stream
    call-other (play buffer length m) n j d (b, l, hm) hn hj ne =
        kept m n 0 j _ _ hm hn (omega arith) hj (inl ne)
        ∙ kept m n 3 j _ _ hm hn (omega arith) hj (inl ne)
        ∙ kept m n 2 j _ _ hm hn (omega arith) hj (inl ne)
        ∙ kept m n 0 j _ _ hm hn (omega arith) hj (inl ne)
    call-other (stop m) n j d hm hn hj ne = kept m n 0 j _ _ hm hn (omega arith) hj (inl ne)

    call-heard :
        (c : StreamCall) (d : D) (s : Stream)
        → Fits c
        → Holds (stream_of c) d s
        → Holds (stream_of c) (call c d) (heard c s)
    unfolding call hda_play_sample hda_stop_stream
    call-heard (play buffer length m) d s (b, l, hm) h = record {
      control = laws.same (at m 0) 0x80000001 _ (omega arith);
      buffer =
          kept m m 0 2 _ _ hm hm (omega arith) (omega arith) (inr (omega arith))
          ∙ kept m m 3 2 _ _ hm hm (omega arith) (omega arith) (inr (omega arith))
          ∙ laws.same (at m 2) buffer _ b;
      words =
          kept m m 0 3 _ _ hm hm (omega arith) (omega arith) (inr (omega arith))
          ∙ laws.same (at m 3) (length / 4) _ (omega arith);
    }
    call-heard (stop m) d s hm h = record {
      control = laws.same (at m 0) 0x80000000 d (omega arith);
      buffer = kept m m 0 2 _ d hm hm (omega arith) (omega arith) (inr (omega arith)) ∙ h.buffer;
      words = kept m m 0 3 _ d hm hm (omega arith) (omega arith) (inr (omega arith)) ∙ h.words;
    }

    call-Holds :
        (c : StreamCall) (n : ℕ) (d : D) (s : Stream)
        → Fits c
        → n < 2 ^ 16
        → Holds n d s
        → Holds n (call c d) (if stream_of c == n then heard c s else s)
    call-Holds c n d s fits hn h = elim (Bool-cases (stream_of c == n)) [
      | inl here ↦
          let same : stream_of c ≡ n = ground arith in
          rw here (
            subst (λ m. Holds m (call c d) (heard c s)) same
              (call-heard c d s fits (subst (λ m. Holds m d s) (sym same) h)))
      | inr there ↦
          let ne : stream_of c ≢ n = ground arith in
          rw there (record {
            control = call-other c n 0 d fits hn (omega arith) ne ∙ h.control;
            buffer = call-other c n 2 d fits hn (omega arith) ne ∙ h.buffer;
            words = call-other c n 3 d fits hn (omega arith) ne ∙ h.words;
          })
    ]

    -- After any calls of the driver on streams the registers of each stream hold what the calls on that
    -- stream alone make of it: it runs exactly after a play that no stop followed, and it has the buffer
    -- and the number of words of the last play. Calls on other streams do not change it. The registers
    -- keep the last word written to them.
    pub calls-Holds :
        (cs : List StreamCall) (n : ℕ) (d : D) (s : Stream)
        → AllFit cs
        → n < 2 ^ 16
        → Holds n d s
        → Holds n (calls cs d) (hear n cs s)
    unfolding calls hear
    calls-Holds [] n d s fits hn h = h
    calls-Holds (c ∷ cs) n d s fits hn h =
        calls-Holds cs n (call c d) _ fits.1 hn (call-Holds c n d s fits.0 hn h)
