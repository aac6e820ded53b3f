-- ===== src/Drivers/Mouse/Packets.antt =====
-- What any sequence of interrupts does to the position of the mouse.
use larch.Prelude.{
  ℕ, ◌*◌, ◌/◌, min, ◌%◌, ◌<◌, ◌≡◌, ◌≢◌, refl, List, [], ◌∷◌, arith, bit_and, length, length-set,
  set, get_or, ne→==,
}
use larch.Prelude.Bits.{bit_and_mask}
use larch.Prelude.Int.{ℤ, pos, negsuc, pos_part, sub_ℕ, ◌≤ℤ◌, ◌+ℤ◌, ◌-ℤ◌}
use larch.Drivers.Bus.{Bus, inb}
use larch.Drivers.Mouse.{Mouse, initial, int8, clamp, accept, mouse_handler, mouse_read}

-- A coordinate between 0 and `top`, both included.
abbrev pub Within : ℤ → ℕ → Type 0
Within v top = (pos 0 ≤ℤ v) × (v ≤ℤ pos top)

pub record IsValid (m : Mouse) : Type 0 where
  pub x : Within m.mouse_x 1024
  pub y : Within m.mouse_y 768
  pub buttons : m.mouse_buttons < 8
  pub cycle : m.mouse_cycle < 3
  pub packet : length m.mouse_packet ≡ 3

clamp-Within : (v : ℤ) (top : ℕ) → Within (clamp v top) top
unfolding clamp
clamp-Within v top = ground arith

accept-IsValid : (byte : ℕ) (m : Mouse) → IsValid m → IsValid (accept byte m)
unfolding accept
accept-IsValid byte m v = ground (
  arith,
  length-set m.mouse_packet m.mouse_cycle byte,
  length-set m.mouse_packet 2 byte,
  clamp-Within (m.mouse_x +ℤ int8 (get_or (set m.mouse_packet 2 byte) 1 0)) 1024,
  clamp-Within (m.mouse_y -ℤ int8 (get_or (set m.mouse_packet 2 byte) 2 0)) 768,
  bit_and_mask 3 (get_or (set m.mouse_packet 2 byte) 0 0),
)

handler-IsValid : (m : Mouse) (bus : Bus) → IsValid m → IsValid (mouse_handler m bus).0
unfolding mouse_handler
handler-IsValid m bus v = ground (arith, accept-IsValid (mouse_read (inb 0x64 bus).1).0 m v)

-- One interrupt, whatever the ports answer.
pub data Interrupt (m m' : Mouse) : Type 0 where
  interrupt : (bus : Bus) → m' ≡ (mouse_handler m bus).0 → Interrupt m m'

pub data Reachable : Mouse → Type 0 where
  start : Reachable initial
  next : {m m' : Mouse} → Reachable m → Interrupt m m' → Reachable m'

initial-IsValid : IsValid initial
unfolding initial
initial-IsValid = ground arith

-- Whatever the ports answer and however many interrupts came, the position is between 0 and 1024 and
-- between 0 and 768, both included, so that it can stand one column or row behind the last one of a
-- screen of 1024 by 768; the buttons are three bits, and the handler stores into one of the three bytes
-- of the packet.
pub Reachable-IsValid : {m : Mouse} → Reachable m → IsValid m
Reachable-IsValid start = initial-IsValid
Reachable-IsValid (next {m = m} r (interrupt bus e)) =
    rw e (handler-IsValid m bus (Reachable-IsValid r))

three_bytes :
    (p : List ℕ) (a b c : ℕ) → length p ≡ 3 → set (set (set p 0 a) 1 b) 2 c ≡ a ∷ b ∷ c ∷ []
three_bytes [] a b c h = absurd (omega arith)
three_bytes (x ∷ []) a b c h = absurd (omega arith)
three_bytes (x ∷ y ∷ []) a b c h = absurd (omega arith)
three_bytes (x ∷ y ∷ z ∷ []) a b c h = refl
three_bytes (x ∷ y ∷ z ∷ w ∷ p) a b c h = absurd (omega arith)

accept-first :
    (byte : ℕ) (m : Mouse)
    → m.mouse_cycle ≡ 0
    → bit_and byte 0x08 ≢ 0
    → accept byte m ≡ record m { mouse_packet = set m.mouse_packet 0 byte; mouse_cycle = 1 }
unfolding accept
accept-first byte m e sync = rw (e, ne→== (bit_and byte 0x08) 0 sync) refl

accept-second :
    (byte : ℕ) (m : Mouse)
    → m.mouse_cycle ≡ 1
    → accept byte m ≡ record m { mouse_packet = set m.mouse_packet 1 byte; mouse_cycle = 2 }
unfolding accept
accept-second byte m e = rw e refl

accept-third :
    (byte : ℕ) (m : Mouse)
    → m.mouse_cycle ≡ 2
    → accept byte m ≡ (
        let last = set m.mouse_packet 2 byte in
        record {
          mouse_packet = last;
          mouse_cycle = 0;
          mouse_buttons = bit_and (get_or last 0 0) 0x07;
          mouse_x = clamp (m.mouse_x +ℤ int8 (get_or last 1 0)) 1024;
          mouse_y = clamp (m.mouse_y -ℤ int8 (get_or last 2 0)) 768;
        })
unfolding accept
accept-third byte m e = rw e refl

-- The value of a byte in two's complement: 256 less from 128 on.
unfoldable pub signed : ℕ → ℤ
signed b = sub_ℕ b (256 * (b / 128))

-- The nearest number between 0 and `top`.
unfoldable pub nearest : ℤ → ℕ → ℤ
nearest v top = pos (min (pos_part v) top)

int8-signed : (b : ℕ) → b < 256 → int8 b ≡ signed b
unfolding int8 signed
int8-signed b h = ground arith

clamp-nearest : (v : ℤ) (top : ℕ) → clamp v top ≡ nearest v top
unfolding clamp nearest
clamp-nearest (pos n) top = ground arith
clamp-nearest (negsuc n) top = ground arith

-- The bytes of a packet move the mouse from where it is.
abbrev pub moved : Mouse → (a b c : ℕ) → Mouse
moved m a b c = record {
  mouse_x = nearest (m.mouse_x +ℤ signed b) 1024;
  mouse_y = nearest (m.mouse_y -ℤ signed c) 768;
  mouse_buttons = a % 8;
  mouse_cycle = 0;
  mouse_packet = a ∷ b ∷ c ∷ [];
}

accept_packet :
    (m : Mouse) (a b c : ℕ)
    → length m.mouse_packet ≡ 3
    → m.mouse_cycle ≡ 0
    → bit_and a 0x08 ≢ 0
    → b < 256
    → c < 256
    → accept c (accept b (accept a m)) ≡ moved m a b c
accept_packet m a b c size e sync small small' =
    let m1 : Mouse = record m { mouse_packet = set m.mouse_packet 0 a; mouse_cycle = 1 } in
    let m2 : Mouse = record m {
      mouse_packet = set (set m.mouse_packet 0 a) 1 b;
      mouse_cycle = 2;
    } in
    rw
      (
        accept-first a m e sync,
        accept-second b m1 refl,
        accept-third c m2 refl,
        three_bytes m.mouse_packet a b c size,
        bit_and_mask 3 a,
        int8-signed b small,
        int8-signed c small',
        clamp-nearest (m.mouse_x +ℤ signed b) 1024,
        clamp-nearest (m.mouse_y -ℤ signed c) 768,
      )
      refl

-- An interrupt at which the mouse has the byte: bit 5 of the status is set, and the read returns it.
pub record Delivers (bus : Bus) (byte : ℕ) : Type 0 where
  pub small : byte < 256
  pub from_mouse : bit_and (inb 0x64 bus).0 0x20 ≢ 0
  pub value : (mouse_read (inb 0x64 bus).1).0 ≡ byte

handler-Delivers :
    (m : Mouse) (bus : Bus) (byte : ℕ) → Delivers bus byte → (mouse_handler m bus).0 ≡ accept byte m
unfolding mouse_handler
handler-Delivers m bus byte d =
    rw (ne→== (bit_and (inb 0x64 bus).0 0x20) 0 d.from_mouse, d.value) refl

-- Between packets, the three interrupts that deliver a packet, whose first byte has bit 3 set, move the
-- mouse by the second byte in two's complement to the right and by the third one upwards, each
-- coordinate to the nearest number up to 1024 and up to 768, set the buttons from the low three bits, and are between packets again.
pub mouse_handler-packet :
    (m : Mouse) (p q r : Bus) (a b c : ℕ)
    → IsValid m
    → m.mouse_cycle ≡ 0
    → bit_and a 0x08 ≢ 0
    → Delivers p a
    → Delivers q b
    → Delivers r c
    → (mouse_handler (mouse_handler (mouse_handler m p).0 q).0 r).0 ≡ moved m a b c
mouse_handler-packet m p q r a b c v e sync first second third =
    rw
      (
        handler-Delivers m p a first,
        handler-Delivers (accept a m) q b second,
        handler-Delivers (accept b (accept a m)) r c third,
      )
      (accept_packet m a b c v.packet e sync second.small third.small)
