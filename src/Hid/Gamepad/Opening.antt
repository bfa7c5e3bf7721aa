-- ===== src/Hid/Gamepad/Opening.antt =====
-- Opening and closing gamepads in hid_gamepad.c.
use cicy_agent_adr.Prelude.{
  ℕ, ◌+◌, ◌<◌, ◌≡◌, ◌≢◌, refl, sym, ap, ◌∙◌, false, Option, none, some, arith, ◌==◌, if◌then◌else◌,
}
use cicy_agent_adr.Prelude.Memory.{store, store_ne, store_self}
use cicy_agent_adr.Hid.{HidOpen}
use cicy_agent_adr.Hid.Gamepad.{
  Slot, Gamepads, Answer, made, refused, asserted, max_gamepads, gamepad_first, invalid_id,
  slot_init, slot_find, open_at, generate_open, close_at, generate_close, gamepad_report_desc,
  slot_get_id, set_id, axis_rescale,
}
use cicy_agent_adr.Hid.Gamepad.Slots.{find_some, find_stored}
use mathlib.Core.Option.{none-ne-some}
use native.Mathlib.Decide.{ℕ_discrete}

-- A gamepad at rest: sticks in the middle of 0 .. 65535, nothing pressed.
abbrev pub at_rest : ℕ → Slot
at_rest id = record {
  gamepad_id = id;
  buttons = 0;
  axis_left_x = 0x8000;
  axis_left_y = 0x8000;
  axis_right_x = 0x8000;
  axis_right_y = 0x8000;
  axis_left_trigger = 0;
  axis_right_trigger = 0;
}

-- Either there is no free slot, and nothing changes, or a slot that was free holds the gamepad at
-- rest, is the one found for its id, and gives the device its number.
abbrev pub Opened : Gamepads → ℕ → Gamepads × Answer HidOpen → Type 0
Opened hid id (hid', asserted) = ⊥
Opened hid id (hid', refused) = (slot_find hid invalid_id ≡ none) × (hid' ≡ hid)
Opened hid id (hid', made opened) =
    (i : ℕ) × (i < max_gamepads)
    × ((hid i).gamepad_id ≡ invalid_id)
    × (slot_find hid' id ≡ some i)
    × (opened.hid_id ≡ gamepad_first + i)
    × (opened.report_desc ≡ gamepad_report_desc)
    × ((j : ℕ) → hid' j ≡ (if j == i then at_rest id else hid j))

abbrev gamepad_id_of : Slot → ℕ
gamepad_id_of slot = slot.gamepad_id

module _ (hid : Gamepads) (id : ℕ) where
  slot_init_lem : (slot : Slot) → slot_init slot id ≡ at_rest id
  unfolding slot_init axis_rescale
  slot_init_lem slot = refl

  -- The slot that a search finds, with the whole array as its range.
  pub found : (k : ℕ) → slot_find hid id ≡ some k → (k < 8) × (id ≡ (hid k).gamepad_id)
  unfolding slot_find
  found k e = let (p, q, r) = find_some hid id 0 8 k e in (omega arith, r)

  pub found_stored :
      (k : ℕ) (slot : Slot)
      → slot.gamepad_id ≡ id
      → slot_find hid id ≡ none
      → k < 8
      → slot_find (store hid k slot) id ≡ some k
  unfolding slot_find
  found_stored k slot s e q = find_stored hid id 0 8 k slot s e (omega arith) q

open_valid :
    (hid : Gamepads) (id : ℕ)
    → id ≢ invalid_id
    → generate_open hid id ≡ open_at hid id (slot_find hid invalid_id)
unfolding generate_open
open_valid hid id ne = let e : (id == invalid_id) ≡ false = ground (arith, ne) in rw e

close_valid :
    (hid : Gamepads) (id : ℕ)
    → id ≢ invalid_id
    → generate_close hid id ≡ close_at hid (slot_find hid id)
unfolding generate_close
close_valid hid id ne = let e : (id == invalid_id) ≡ false = ground (arith, ne) in rw e

-- When a gamepad is in no slot and slot `i` is the first free one, closing the gamepad after it
-- was opened succeeds: the device is closed by the number of slot `i`, and every slot has the id
-- it had before.
pub open-close :
    (hid : Gamepads) (id i : ℕ)
    → slot_find hid id ≡ none
    → slot_find hid invalid_id ≡ some i
    → (closed : Gamepads) × (generate_close ((generate_open hid id).0) id
        ≡ (closed, made (record { hid_id = gamepad_first + i })))
      × ((j : ℕ) → (closed j).gamepad_id ≡ (hid j).gamepad_id)
unfolding open_at close_at slot_init
open-close hid id i absent free =
    let (p, r) = found hid invalid_id i free in
    let hid' = store hid i (slot_init (hid i) id) in
    let ne : id ≢ invalid_id = λ e. none-ne-some i (sym absent ∙ ap (slot_find hid) e ∙ free) in
    let opened = ap (λ r. r.0) (open_valid hid id ne) ∙ ap (λ o. (open_at hid id o).0) free in
    let again = found_stored hid id i (slot_init (hid i) id) refl absent p in
    let number : slot_get_id i ≡ gamepad_first + i = ground arith in
    (
      set_id hid' i invalid_id,
      ap (λ h. generate_close h id) opened
          ∙ close_valid hid' id ne
          ∙ ap (close_at hid') again
          ∙ ap (λ n. (set_id hid' i invalid_id, made (record { hid_id = n }))) number,
      λ j. elim (ℕ_discrete j i) [
        | yes same ↦
            ap (λ t. (set_id hid' i invalid_id t).gamepad_id) same
            ∙ ap gamepad_id_of (store_self hid' i (record (hid' i) { gamepad_id = invalid_id }))
            ∙ r
            ∙ ap (λ t. (hid t).gamepad_id) (sym same)
        | no other ↦ ap gamepad_id_of (
            store_ne hid' i j (record (hid' i) { gamepad_id = invalid_id }) other
            ∙ store_ne hid i j (slot_init (hid i) id) other)
      ],
    )
