-- ===== src/Hid/Gamepad.antt =====
-- The HID gamepads, scrcpy/app/src/hid/hid_gamepad.c and hid_gamepad.h.
pub mod Handlers
pub mod Changes
pub mod Slots
pub mod Opening
pub mod Others
pub mod Report
pub mod Ranges
use cicy_agent_adr.Prelude.{
  ℕ, zero, suc, ◌+◌, ◌-◌, ◌%◌, ◌^◌, Bool, true, false, ◌||◌, Option, none, some, List, [], ◌∷◌,
  bit_and, bit_or, ltb, ◌==◌, if◌then◌else◌,
}
use cicy_agent_adr.Prelude.Int.{ℤ, pos, negsuc}
use cicy_agent_adr.Prelude.Memory.{Memory, Buffer, store}
use cicy_agent_adr.Binary.{u8, write16le}
use cicy_agent_adr.Hid.{HidInput, HidOpen, HidClose, has_bits}

-- SC_MAX_GAMEPADS, SC_HID_ID_GAMEPAD_FIRST, SC_HID_GAMEPAD_EVENT_SIZE
abbrev pub max_gamepads : ℕ
max_gamepads = 8

abbrev pub gamepad_first : ℕ
gamepad_first = 3

abbrev pub gamepad_event_size : ℕ
gamepad_event_size = 15

-- SC_GAMEPAD_ID_INVALID
abbrev pub invalid_id : ℕ
invalid_id = 0xFFFFFFFF

-- The values of SDL_GameControllerButton and SDL_GameControllerAxis that input_events.h takes.
pub record Sdl : Type 0 where
  pub south : ℕ
  pub east : ℕ
  pub west : ℕ
  pub north : ℕ
  pub back : ℕ
  pub guide : ℕ
  pub start : ℕ
  pub left_stick : ℕ
  pub right_stick : ℕ
  pub left_shoulder : ℕ
  pub right_shoulder : ℕ
  pub dpad_up : ℕ
  pub dpad_down : ℕ
  pub dpad_left : ℕ
  pub dpad_right : ℕ
  pub axis_leftx : ℕ
  pub axis_lefty : ℕ
  pub axis_rightx : ℕ
  pub axis_righty : ℕ
  pub axis_left_trigger : ℕ
  pub axis_right_trigger : ℕ

-- SC_HID_GAMEPAD_REPORT_DESC
unfoldable pub gamepad_report_desc : List ℕ
gamepad_report_desc =
    0x05 ∷ 0x01 ∷ 0x09 ∷ 0x05 ∷ 0xA1 ∷ 0x01 ∷ 0xA1 ∷ 0x00 ∷ 0x05 ∷ 0x01 ∷ 0x09 ∷ 0x30 ∷ 0x09 ∷ 0x31
    ∷ 0x09 ∷ 0x33 ∷ 0x09 ∷ 0x34 ∷ 0x15 ∷ 0x00 ∷ 0x27 ∷ 0xFF ∷ 0xFF ∷ 0x00 ∷ 0x00 ∷ 0x75 ∷ 0x10
    ∷ 0x95 ∷ 0x04 ∷ 0x81 ∷ 0x02 ∷ 0x05 ∷ 0x01 ∷ 0x09 ∷ 0x32 ∷ 0x09 ∷ 0x35 ∷ 0x15 ∷ 0x00 ∷ 0x26
    ∷ 0xFF ∷ 0x7F ∷ 0x75 ∷ 0x10 ∷ 0x95 ∷ 0x02 ∷ 0x81 ∷ 0x02 ∷ 0x05 ∷ 0x09 ∷ 0x19 ∷ 0x01 ∷ 0x29
    ∷ 0x10 ∷ 0x15 ∷ 0x00 ∷ 0x25 ∷ 0x01 ∷ 0x95 ∷ 0x10 ∷ 0x75 ∷ 0x01 ∷ 0x81 ∷ 0x02 ∷ 0x05 ∷ 0x01
    ∷ 0x09 ∷ 0x39 ∷ 0x15 ∷ 0x01 ∷ 0x25 ∷ 0x08 ∷ 0x75 ∷ 0x04 ∷ 0x95 ∷ 0x01 ∷ 0x81 ∷ 0x42 ∷ 0xC0
    ∷ 0xC0 ∷ []

-- `struct sc_hid_gamepad_slot`
pub record Slot : Type 0 where
  pub gamepad_id : ℕ
  pub buttons : ℕ
  pub axis_left_x : ℕ
  pub axis_left_y : ℕ
  pub axis_right_x : ℕ
  pub axis_right_y : ℕ
  pub axis_left_trigger : ℕ
  pub axis_right_trigger : ℕ

-- `struct sc_hid_gamepad`
abbrev pub Gamepads : Type 0
Gamepads = Memory Slot

-- AXIS_RESCALE: the sum of an int32_t, converted to uint16_t
unfoldable pub axis_rescale : ℤ → ℕ
axis_rescale (pos n) = (n + 0x8000) % 2 ^ 16
axis_rescale (negsuc n) = (2 ^ 32 + 0x8000 - (n + 1)) % 2 ^ 16

-- `MAX(0, value)`
abbrev pub max_zero : ℤ → ℕ
max_zero (pos n) = n
max_zero (negsuc n) = 0

-- `sc_hid_gamepad_slot_init`; its assertion on the id is also its only caller's, which stands first.
unfoldable pub slot_init : Slot → ℕ → Slot
unfolding axis_rescale
slot_init slot id = record slot {
  gamepad_id = id;
  buttons = 0;
  axis_left_x = axis_rescale (pos 0);
  axis_left_y = axis_rescale (pos 0);
  axis_right_x = axis_rescale (pos 0);
  axis_right_y = axis_rescale (pos 0);
  axis_left_trigger = 0;
  axis_right_trigger = 0;
}

-- The loop of `sc_hid_gamepad_slot_find` at `i`, with `n` slots left; `none` is the result -1.
unfoldable pub slot_find_from : Gamepads → ℕ → ℕ → ℕ → Option ℕ
slot_find_from hid id i zero = none
slot_find_from hid id i (suc n) =
    let rest = slot_find_from hid id (i + 1) n in if id == (hid i).gamepad_id then some i else rest

-- `sc_hid_gamepad_slot_find`
unfoldable pub slot_find : Gamepads → ℕ → Option ℕ
unfolding slot_find_from
slot_find hid id = slot_find_from hid id 0 max_gamepads

-- `hid->slots[i].gamepad_id = id`
abbrev pub set_id : Gamepads → ℕ → ℕ → Gamepads
set_id hid i id = store hid i (record (hid i) { gamepad_id = id })

-- The loop of `sc_hid_gamepad_init` at `i`, with `n` slots left.
init_from : Gamepads → ℕ → ℕ → Gamepads
init_from hid i zero = hid
init_from hid i (suc n) = init_from (set_id hid i invalid_id) (i + 1) n

-- `sc_hid_gamepad_init`
unfoldable pub gamepad_init : Gamepads → Gamepads
unfolding init_from
gamepad_init hid = init_from hid 0 max_gamepads

-- `sc_hid_gamepad_slot_get_id`
abbrev pub slot_get_id : ℕ → ℕ
slot_get_id i = (gamepad_first + i) % 2 ^ 16

-- How opening or closing ends: with a message, with `false`, or with the failed assertion that the
-- id is not SC_GAMEPAD_ID_INVALID.
pub data Answer (A : Type 0) : Type 0 where
  made : A → Answer A
  refused : Answer A
  asserted : Answer A

-- `sc_hid_gamepad_generate_open`, for the slot that was found
unfoldable pub open_at : Gamepads → ℕ → Option ℕ → Gamepads × Answer HidOpen
unfolding slot_init gamepad_report_desc
open_at hid id none = (hid, refused)
open_at hid id (some i) = (
  store hid i (slot_init (hid i) id),
  made (record { hid_id = slot_get_id i; report_desc = gamepad_report_desc }),
)

unfoldable pub generate_open : Gamepads → ℕ → Gamepads × Answer HidOpen
unfolding open_at slot_find
generate_open hid id =
    if id == invalid_id then (hid, asserted) else open_at hid id (slot_find hid invalid_id)

-- `sc_hid_gamepad_generate_close`, for the slot that was found
unfoldable pub close_at : Gamepads → Option ℕ → Gamepads × Answer HidClose
close_at hid none = (hid, refused)
close_at hid (some i) = (set_id hid i invalid_id, made (record { hid_id = slot_get_id i }))

unfoldable pub generate_close : Gamepads → ℕ → Gamepads × Answer HidClose
unfolding close_at slot_find
generate_close hid id =
    if id == invalid_id then (hid, asserted) else close_at hid (slot_find hid id)

-- SC_GAMEPAD_BUTTONS_BIT_DPAD_UP and its like
abbrev pub bit_up : ℕ
bit_up = 0x10000

abbrev pub bit_down : ℕ
bit_down = 0x20000

abbrev pub bit_left : ℕ
bit_left = 0x40000

abbrev pub bit_right : ℕ
bit_right = 0x80000

-- `sc_hid_gamepad_get_dpad_value`
unfoldable pub get_dpad_value : ℕ → ℕ
get_dpad_value buttons =
    let left = has_bits buttons bit_left in
    let right = has_bits buttons bit_right in
    if has_bits buttons bit_up
    then (if left then 8 else if right then 2 else 1)
    else if has_bits buttons bit_down
    then (if left then 6 else if right then 4 else 5)
    else if left
    then 7
    else if right
    then 3
    else 0

-- `sc_hid_gamepad_event_from_slot`
unfoldable pub event_from_slot : ℕ → Slot → HidInput → HidInput
unfolding write16le get_dpad_value
event_from_slot id slot hid_input =
    let buf = write16le hid_input.data_bytes 0 slot.axis_left_x in
    let buf = write16le buf 2 slot.axis_left_y in
    let buf = write16le buf 4 slot.axis_right_x in
    let buf = write16le buf 6 slot.axis_right_y in
    let buf = write16le buf 8 slot.axis_left_trigger in
    let buf = write16le buf 10 slot.axis_right_trigger in
    let buf = write16le buf 12 (bit_and slot.buttons 0xFFFF) in
    record {
      hid_id = id;
      size = gamepad_event_size;
      data_bytes = store buf 14 (get_dpad_value slot.buttons);
    }
