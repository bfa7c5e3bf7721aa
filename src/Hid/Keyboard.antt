-- ===== src/Hid/Keyboard.antt =====
-- The HID keyboard, scrcpy/app/src/hid/hid_keyboard.c.
pub mod Fill
pub mod Report
use cicy_agent_adr.Prelude.{
  ℕ, zero, suc, ◌+◌, ◌-◌, Bool, true, false, not, ◌&&◌, ◌||◌, Option, none, some, List, [], ◌∷◌,
  bit_or, leb, ltb, if◌then◌else◌,
}
use cicy_agent_adr.Prelude.Memory.{Memory, Buffer, store, memset}
use cicy_agent_adr.Binary.{u8}
use cicy_agent_adr.Hid.{HidInput, HidOpen, HidClose, has_bits}

-- The values of SDL that input_events.h passes on: masks of modifiers, and scancodes.
pub record Sdl : Type 0 where
  pub lctrl : ℕ
  pub lshift : ℕ
  pub lalt : ℕ
  pub lgui : ℕ
  pub rctrl : ℕ
  pub rshift : ℕ
  pub ralt : ℕ
  pub rgui : ℕ
  pub caps : ℕ
  pub num : ℕ
  pub scancode_lctrl : ℕ
  pub scancode_rgui : ℕ
  pub scancode_capslock : ℕ
  pub scancode_numlock : ℕ

-- SC_HID_KEYBOARD_KEYS, SC_HID_KEYBOARD_MAX_KEYS, SC_HID_KEYBOARD_INPUT_SIZE
abbrev pub keyboard_keys : ℕ
keyboard_keys = 0x66

abbrev pub max_keys : ℕ
max_keys = 6

abbrev pub keyboard_input_size : ℕ
keyboard_input_size = 2 + max_keys

-- SC_HID_ID_KEYBOARD
abbrev pub keyboard_id : ℕ
keyboard_id = 1

-- SC_HID_KEYBOARD_REPORT_DESC
unfoldable pub keyboard_report_desc : List ℕ
keyboard_report_desc =
    0x05
    ∷ 0x01
    ∷ 0x09
    ∷ 0x06
    ∷ 0xA1
    ∷ 0x01
    ∷ 0x05
    ∷ 0x07
    ∷ 0x19
    ∷ 0xE0
    ∷ 0x29
    ∷ 0xE7
    ∷ 0x15
    ∷ 0x00
    ∷ 0x25
    ∷ 0x01
    ∷ 0x75
    ∷ 0x01
    ∷ 0x95
    ∷ 0x08
    ∷ 0x81
    ∷ 0x02
    ∷ 0x75
    ∷ 0x08
    ∷ 0x95
    ∷ 0x01
    ∷ 0x81
    ∷ 0x01
    ∷ 0x05
    ∷ 0x08
    ∷ 0x19
    ∷ 0x01
    ∷ 0x29
    ∷ 0x05
    ∷ 0x75
    ∷ 0x01
    ∷ 0x95
    ∷ 0x05
    ∷ 0x91
    ∷ 0x02
    ∷ 0x75
    ∷ 0x03
    ∷ 0x95
    ∷ 0x01
    ∷ 0x91
    ∷ 0x01
    ∷ 0x05
    ∷ 0x07
    ∷ 0x19
    ∷ 0x00
    ∷ 0x29
    ∷ (keyboard_keys - 1)
    ∷ 0x15
    ∷ 0x00
    ∷ 0x25
    ∷ (keyboard_keys - 1)
    ∷ 0x75
    ∷ 0x08
    ∷ 0x95
    ∷ max_keys
    ∷ 0x81
    ∷ 0x00
    ∷ 0xC0
    ∷ []

-- `struct sc_hid_keyboard`: which keys are pressed.
abbrev pub Keys : Type 0
Keys = Memory Bool

-- `struct sc_key_event`, as far as it is read; `down` is `action == SC_ACTION_DOWN`.
pub record KeyEvent : Type 0 where
  pub down : Bool
  pub scancode : ℕ
  pub mods_state : ℕ

-- `sc_hid_keyboard_input_init`
unfoldable pub keyboard_input_init : HidInput → HidInput
unfolding memset
keyboard_input_init hid_input = record {
  hid_id = keyboard_id;
  data_bytes = memset (store (store hid_input.data_bytes 0 0) 1 0) 2 0 max_keys;
  size = keyboard_input_size;
}

-- `sc_hid_keyboard_init`
unfoldable pub keyboard_init : Keys → Keys
unfolding memset
keyboard_init keys = memset keys 0 false keyboard_keys

-- `mods |= flag` under a condition.
abbrev pub or_if : Bool → ℕ → ℕ → ℕ
or_if b flag mods = if b then bit_or mods flag else mods

module _ (sdl : Sdl) where
  -- `sc_hid_mod_from_sdl_keymod`
  unfoldable pub hid_mod_from_sdl_keymod : ℕ → ℕ
  hid_mod_from_sdl_keymod keymod =
      let mods = or_if (has_bits keymod sdl.lctrl) 0x01 0 in
      let mods = or_if (has_bits keymod sdl.lshift) 0x02 mods in
      let mods = or_if (has_bits keymod sdl.lalt) 0x04 mods in
      let mods = or_if (has_bits keymod sdl.lgui) 0x08 mods in
      let mods = or_if (has_bits keymod sdl.rctrl) 0x10 mods in
      let mods = or_if (has_bits keymod sdl.rshift) 0x20 mods in
      let mods = or_if (has_bits keymod sdl.ralt) 0x40 mods in
      or_if (has_bits keymod sdl.rgui) 0x80 mods

  -- `scancode_is_modifier`
  abbrev pub scancode_is_modifier : ℕ → Bool
  scancode_is_modifier scancode = leb sdl.scancode_lctrl scancode && leb scancode sdl.scancode_rgui

-- The loop over the keys at `i`, with `n` keys left and `count` pressed keys written.
unfoldable pub fill_keys : Keys → ℕ → ℕ → ℕ → Buffer → Buffer
unfolding memset
fill_keys keys zero i count bytes = bytes
fill_keys keys (suc n) i count bytes =
    let full = keys i && leb max_keys count in
    let rest =
      fill_keys keys n (i + 1) (if keys i then count + 1 else count)
        (if keys i then store bytes (2 + count) (u8 i) else bytes) in
    if full then memset bytes 2 0x01 max_keys else rest

-- `hid->keys[scancode] = (event->action == SC_ACTION_DOWN)`, for the scancodes of the table.
unfoldable pub press_key : Keys → KeyEvent → Keys
press_key keys event =
    if ltb event.scancode keyboard_keys then store keys event.scancode event.down else keys

-- The report of the keys and the modifiers.
unfoldable pub keys_report : Keys → ℕ → HidInput → HidInput
unfolding keyboard_input_init fill_keys
keys_report keys mods hid_input =
    let init = keyboard_input_init hid_input in
    record init {
      data_bytes = fill_keys keys keyboard_keys 0 0 (store init.data_bytes 0 (u8 mods));
    }

module _ (sdl : Sdl) where
  -- `sc_hid_keyboard_generate_input_from_key`: the keys afterwards, and the report, if any.
  unfoldable pub generate_input_from_key : Keys → HidInput → KeyEvent → Keys × Option HidInput
  unfolding hid_mod_from_sdl_keymod press_key keys_report
  generate_input_from_key keys hid_input event =
      let mods = hid_mod_from_sdl_keymod sdl event.mods_state in
      let keys' = press_key keys event in
      if leb keyboard_keys event.scancode && not (scancode_is_modifier sdl event.scancode)
      then (keys, none)
      else (keys', some (keys_report keys' mods hid_input))

  -- `sc_hid_keyboard_generate_input_from_mods`
  unfoldable pub generate_input_from_mods : HidInput → ℕ → Option HidInput
  unfolding keyboard_input_init
  generate_input_from_mods hid_input mods_state =
      let capslock = has_bits mods_state sdl.caps in
      let numlock = has_bits mods_state sdl.num in
      let init = keyboard_input_init hid_input in
      let with_caps =
        if capslock then store init.data_bytes 2 (u8 sdl.scancode_capslock) else init.data_bytes in
      let i : ℕ = if capslock then 1 else 0 in
      let with_num =
        if numlock then store with_caps (2 + i) (u8 sdl.scancode_numlock) else with_caps in
      if not capslock && not numlock then none else some (record init { data_bytes = with_num })

-- `sc_hid_keyboard_generate_open`, `sc_hid_keyboard_generate_close`
unfoldable pub keyboard_open : HidOpen
unfolding keyboard_report_desc
keyboard_open = record { hid_id = keyboard_id; report_desc = keyboard_report_desc }

unfoldable pub keyboard_close : HidClose
keyboard_close = record { hid_id = keyboard_id }
