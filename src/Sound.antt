-- ===== src/Sound.antt =====
-- sound/drivers/hdaudio.c: the registers of a sound card, as words at fixed addresses. A read may change
-- the device, so each access goes through it. Numbers of streams are at least 0.
pub mod Streams
pub mod Reset
mod Tests
use larch.Prelude.{ℕ, zero, suc, ◌+◌, ◌-◌, ◌*◌, ◌/◌, ◌%◌, ◌^◌, ◌==◌, if◌then◌else◌, bit_and, bit_or}

-- The words that the device shows at addresses of memory.
pub record Mmio (D : Type 0) : Type 0 where
  pub read : ℕ → D → ℕ × D
  pub write : (a value : ℕ) → D → D

-- The offsets that the file names, and those of the fields of `hda_regs_t`.
abbrev pub hda_gctl : ℕ
hda_gctl = 0x08

abbrev pub gcap : ℕ
gcap = 0

abbrev pub gctl : ℕ
gctl = 4

abbrev pub hda : ℕ
hda = 0xFEBF0000

module _ (D : Type 0) (mmio : Mmio D) where
  -- `for (i = 0; i < 10000; i++)`, with `left` rounds left.
  pub wait_running : (left : ℕ) → D → D
  wait_running zero d = d
  wait_running (suc left) d =
      let (value, d1) = mmio.read (hda + gctl) d in
      let rest = wait_running left d1 in if bit_and value 1 == 0 then rest else d1

  pub hda_init : D → D
  hda_init d =
      let (capabilities, d1) = mmio.read (hda + gcap) d in
      let (control, d2) = mmio.read (hda + gctl) d1 in
      let d3 = mmio.write (hda + gctl) (bit_or (bit_and control (2 ^ 32 - 2)) 1) d2 in
      if hda == 0 then d else wait_running 10000 d3

  -- The address of the word `i` of a stream.
  abbrev pub stream : (stream_id i : ℕ) → ℕ
  stream stream_id i = (0xFEBF1000 + stream_id * 0x80 + 4 * i) % 2 ^ 32

  pub hda_play_sample : (buffer length stream_id : ℕ) → D → D
  hda_play_sample buffer length stream_id d =
      let d1 = mmio.write (stream stream_id 0) 0x80000000 d in
      let d2 = mmio.write (stream stream_id 2) buffer d1 in
      let d3 = mmio.write (stream stream_id 3) (length / 4) d2 in
      mmio.write (stream stream_id 0) 0x80000001 d3

  pub hda_stop_stream : (stream_id : ℕ) → D → D
  hda_stop_stream stream_id d = mmio.write (stream stream_id 0) 0x80000000 d
