-- ===== src/Drivers/Serial/Sent.antt =====
-- What reaches the serial port.
use larch.Prelude.{
  ℕ, zero, suc, ◌+◌, ◌<◌, ◌≡◌, ◌≢◌, refl, sym, ap, ◌∙◌, false, Option, some, List, [], ◌∷◌, ◌++◌,
  map, arith, bit_and, ◌==◌, ◌>>=◌, append-nil, append_assoc, inl, inr, Bool-cases, ne→==, subst,
}
use larch.Drivers.Bus.{Bus, outb}
use larch.Drivers.Serial.{com1, is_transmit_empty, write_serial, serial_write_string}

-- The port gets ready again: among any `wait` successive reads of its status, one says that it is empty.
abbrev pub Drains : (wait : ℕ) → (ℕ → ℕ → ℕ) → Type 0
Drains wait answers =
    (k : ℕ) → (d : ℕ) × (d < wait) × (bit_and (answers (com1 + 5) (k + d)) 0x20 ≢ 0)

-- The call returns, the device is the same, and these bytes were sent.
pub record Sends (str : List ℕ) (bus : Bus) (call : Option Bus) : Type 0 where
  pub after : Bus
  pub returns : call ≡ some after
  pub device : after.answers ≡ bus.answers
  pub sent : after.writes ≡ bus.writes ++ map (λ c. (com1, c)) str

write_within :
    (fuel a d : ℕ) (bus : Bus)
    → d < fuel
    → bit_and (bus.answers (com1 + 5) (bus.count + d)) 0x20 ≢ 0
    → Sends (a ∷ []) bus (write_serial fuel a bus)
unfolding write_serial is_transmit_empty
write_within zero a d bus h ready = absurd (omega arith)
write_within (suc fuel) a zero bus h ready =
    let now : bus.count + 0 ≡ bus.count = omega arith in
    let ready_now = rw now at ready in
    let empty : (bit_and (bus.answers (com1 + 5) bus.count) 0x20 == 0) ≡ false =
      ne→== _ 0 ready_now in
    rw empty (record {
      after = outb com1 a (record bus { count = bus.count + 1 });
      returns = refl;
      device = refl;
      sent = refl;
    })
write_within (suc fuel) a (suc d) bus h ready =
    let polled = record bus { count = bus.count + 1 } in
    elim (Bool-cases (bit_and (bus.answers (com1 + 5) bus.count) 0x20 == 0)) [
      | inr empty ↦
          rw empty
            (record { after = outb com1 a polled; returns = refl; device = refl; sent = refl })
      | inl full ↦
          let here : bus.count + suc d ≡ bus.count + 1 + d = omega arith in
          let later = write_within fuel a d polled (omega arith) (rw here at ready) in
          rw full (record {
            after = later.after;
            returns = later.returns;
            device = later.device;
            sent = later.sent;
          })
    ]

-- On a port that is always ready again within `wait` reads of its status, a text of any length is sent:
-- the loops end, and exactly its bytes are written to the port, in order.
pub serial_write_string-Sends :
    (wait : ℕ) (str : List ℕ) (bus : Bus)
    → Drains wait bus.answers
    → Sends str bus (serial_write_string wait str bus)
unfolding serial_write_string
serial_write_string-Sends wait [] bus drains = record {
  after = bus;
  returns = refl;
  device = refl;
  sent = sym (append-nil bus.writes);
}
serial_write_string-Sends wait (c ∷ str) bus drains =
    let ready = drains bus.count in
    let one = write_within wait c ready.0 bus ready.1 ready.2 in
    let rest =
      serial_write_string-Sends wait str one.after (subst (Drains wait) (sym one.device) drains) in
    rw (one.returns, ◌>>=◌)
      (record {
        after = rest.after;
        returns = rest.returns;
        device = rest.device ∙ one.device;
        sent =
            rest.sent
            ∙ ap (λ l. l ++ map (λ c. (com1, c)) str) one.sent
            ∙ append_assoc bus.writes ((com1, c) ∷ []) _;
      })
