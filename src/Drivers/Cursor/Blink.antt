-- ===== src/Drivers/Cursor/Blink.antt =====
-- The cursor after a number of ticks.
use larch.Prelude.{
  ℕ, zero, suc, ◌+◌, ◌*◌, ◌/◌, ◌%◌, ◌<◌, ◌≡◌, refl, ◌∙◌, not, [], ◌∷◌, ◌++◌, arith, ◌==◌, leb,
  if◌then◌else◌, append_assoc,
}
use larch.Prelude.Bits.{bit_and_mask, bit_or_fields}
use larch.Drivers.Bus.{Bus}
use larch.Drivers.Cursor.{
  Cursor, update_cursor_blink, init_cursor_blink, get_cursor_position, set_cursor_position,
}

-- `n` updates, one after the other.
unfoldable pub updates : ℕ → Cursor → Bus → Cursor × Bus
updates zero c bus = (c, bus)
updates (suc n) c bus = let (c', bus') = updates n c bus in update_cursor_blink c' bus'

-- The blink depends on no port.
update_cursor_lem :
    (c : Cursor) (bus : Bus)
    → (update_cursor_blink c bus).0 ≡ (
        if leb c.blink_rate (c.blink_counter + 1)
        then record c { blink_counter = 0; cursor_visible = not c.cursor_visible }
        else record c { blink_counter = c.blink_counter + 1 })
unfolding update_cursor_blink
update_cursor_lem c bus = ground arith

-- After any number of updates from the start the counter is what is left of the last ten, and the
-- cursor is visible exactly when the number of whole tens is even: it blinks for ever.
pub updates-blink :
    (n : ℕ) (bus : Bus)
    → (updates n init_cursor_blink bus).0
      ≡ record { cursor_visible = n / 10 % 2 == 0; blink_counter = n % 10; blink_rate = 10 }
unfolding updates init_cursor_blink
updates-blink zero bus = refl
updates-blink (suc n) bus =
    update_cursor_lem (updates n init_cursor_blink bus).0 (updates n init_cursor_blink bus).1
    ∙ rw (updates-blink n bus) (ground arith)

-- Showing the cursor again writes back the position that the hardware reported.
pub position_kept :
    (bus : Bus) (low high : ℕ)
    → low < 256
    → high < 256
    → bus.answers 0x3D5 bus.count ≡ low
    → bus.answers 0x3D5 (bus.count + 1) ≡ high
    → let (position, bus') = get_cursor_position bus in
      (position ≡ high * 256 + low)
      × ((set_cursor_position position bus').writes
          ≡ bus'.writes ++ (0x3D4, 0x0F) ∷ (0x3D5, low) ∷ (0x3D4, 0x0E) ∷ (0x3D5, high) ∷ [])
unfolding get_cursor_position set_cursor_position
position_kept bus low high hl hh el eh =
    let low_byte : (high * 256 + low) % 256 ≡ low = omega arith in
    let high_byte : (high * 256 + low) / 256 % 256 ≡ high = omega arith in
    let joined = bit_or_fields 8 high low hl in
    (
      rw (el, eh) joined,
      rw
          (
            el,
            eh,
            joined,
            bit_and_mask 8 (high * 256 + low),
            bit_and_mask 8 ((high * 256 + low) / 256),
            low_byte,
            high_byte,
          )
          (simp append_assoc),
    )
