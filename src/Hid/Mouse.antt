-- ===== src/Hid/Mouse.antt =====
-- The HID mouse, scrcpy/app/src/hid/hid_mouse.c.
pub mod Report
use cicy_agent_adr.Prelude.{
  ℕ, ◌+◌, ◌-◌, ◌%◌, Bool, false, ◌&&◌, Option, none, some, List, [], ◌∷◌, bit_or, ◌==◌,
  if◌then◌else◌,
}
use cicy_agent_adr.Prelude.Int.{ℤ, pos, negsuc, ltb_ℤ}
use cicy_agent_adr.Prelude.Memory.{Buffer, store}
use cicy_agent_adr.Hid.{HidInput, HidOpen, HidClose, has_bits}

-- The masks of the buttons, which input_events.h takes from SDL.
pub record Sdl : Type 0 where
  pub left : ℕ
  pub right : ℕ
  pub middle : ℕ
  pub x1 : ℕ
  pub x2 : ℕ

-- SC_HID_MOUSE_INPUT_SIZE
abbrev pub mouse_input_size : ℕ
mouse_input_size = 5

-- SC_HID_ID_MOUSE
abbrev pub mouse_id : ℕ
mouse_id = 2

-- SC_HID_MOUSE_REPORT_DESC
unfoldable pub mouse_report_desc : List ℕ
mouse_report_desc =
    0x05 ∷ 0x01 ∷ 0x09 ∷ 0x02 ∷ 0xA1 ∷ 0x01 ∷ 0x09 ∷ 0x01 ∷ 0xA1 ∷ 0x00 ∷ 0x05 ∷ 0x09 ∷ 0x19 ∷ 0x01
    ∷ 0x29 ∷ 0x05 ∷ 0x15 ∷ 0x00 ∷ 0x25 ∷ 0x01 ∷ 0x95 ∷ 0x05 ∷ 0x75 ∷ 0x01 ∷ 0x81 ∷ 0x02 ∷ 0x95
    ∷ 0x01 ∷ 0x75 ∷ 0x03 ∷ 0x81 ∷ 0x01 ∷ 0x05 ∷ 0x01 ∷ 0x09 ∷ 0x30 ∷ 0x09 ∷ 0x31 ∷ 0x09 ∷ 0x38
    ∷ 0x15 ∷ 0x81 ∷ 0x25 ∷ 0x7F ∷ 0x75 ∷ 0x08 ∷ 0x95 ∷ 0x03 ∷ 0x81 ∷ 0x06 ∷ 0x05 ∷ 0x0C ∷ 0x0A
    ∷ 0x38 ∷ 0x02 ∷ 0x15 ∷ 0x81 ∷ 0x25 ∷ 0x7F ∷ 0x75 ∷ 0x08 ∷ 0x95 ∷ 0x01 ∷ 0x81 ∷ 0x06 ∷ 0xC0
    ∷ 0xC0 ∷ []

-- The events, as far as they are read.
pub record MotionEvent : Type 0 where
  pub xrel : ℤ
  pub yrel : ℤ
  pub buttons_state : ℕ

pub record ClickEvent : Type 0 where
  pub buttons_state : ℕ

pub record ScrollEvent : Type 0 where
  pub hscroll_int : ℤ
  pub vscroll_int : ℤ

-- MIN, MAX and CLAMP of common.h
abbrev pub min_ℤ : ℤ → ℤ → ℤ
min_ℤ x y = if ltb_ℤ x y then x else y

abbrev pub max_ℤ : ℤ → ℤ → ℤ
max_ℤ x y = if ltb_ℤ y x then x else y

unfoldable pub clamp : ℤ → ℤ → ℤ → ℤ
clamp v x y = min_ℤ (max_ℤ v x) y

-- `(uint8_t) v`
unfoldable pub byte_of : ℤ → ℕ
byte_of (pos n) = n % 256
byte_of (negsuc n) = 255 - n % 256

-- The five bytes of a report, and the bytes behind them.
abbrev pub mouse_bytes : Buffer → ℕ → ℕ → ℕ → ℕ → ℕ → Buffer
mouse_bytes buf a b c d e = store (store (store (store (store buf 0 a) 1 b) 2 c) 3 d) 4 e

-- `sc_hid_mouse_input_init`
unfoldable pub mouse_input_init : HidInput → HidInput
mouse_input_init hid_input = record hid_input { hid_id = mouse_id; size = mouse_input_size }

-- `if (state & mask) c |= bit`
abbrev pub button_bit : ℕ → ℕ → ℕ → ℕ → ℕ
button_bit state mask bit c = if has_bits state mask then bit_or c bit else c

-- `CLAMP(v, -127, 127)`, stored in a byte
unfoldable pub motion_byte : ℤ → ℕ
unfolding clamp byte_of
motion_byte v = byte_of (clamp v (negsuc 126) (pos 127))

abbrev pub is_zero : ℤ → Bool
is_zero (pos n) = n == 0
is_zero (negsuc n) = false

module _ (sdl : Sdl) where
  -- `sc_hid_buttons_from_buttons_state`
  unfoldable pub buttons_from_buttons_state : ℕ → ℕ
  buttons_from_buttons_state state =
      let c = button_bit state sdl.left 1 0 in
      let c = button_bit state sdl.right 2 c in
      let c = button_bit state sdl.middle 4 c in
      let c = button_bit state sdl.x1 8 c in button_bit state sdl.x2 16 c

  -- `sc_hid_mouse_generate_input_from_motion`
  unfoldable pub input_from_motion : HidInput → MotionEvent → HidInput
  unfolding mouse_input_init buttons_from_buttons_state motion_byte
  input_from_motion hid_input event =
      let init = mouse_input_init hid_input in
      record init {
        data_bytes =
            mouse_bytes init.data_bytes (buttons_from_buttons_state event.buttons_state)
              (motion_byte event.xrel) (motion_byte event.yrel) 0 0;
      }

  -- `sc_hid_mouse_generate_input_from_click`
  unfoldable pub input_from_click : HidInput → ClickEvent → HidInput
  unfolding mouse_input_init buttons_from_buttons_state
  input_from_click hid_input event =
      let init = mouse_input_init hid_input in
      record init {
        data_bytes =
            mouse_bytes init.data_bytes (buttons_from_buttons_state event.buttons_state) 0 0 0 0;
      }

-- `sc_hid_mouse_generate_input_from_scroll`
unfoldable pub input_from_scroll : HidInput → ScrollEvent → Option HidInput
unfolding mouse_input_init motion_byte
input_from_scroll hid_input event =
    let init = mouse_input_init hid_input in
    if is_zero event.vscroll_int && is_zero event.hscroll_int
    then none
    else some (record init {
      data_bytes =
          mouse_bytes init.data_bytes 0 0 0 (motion_byte event.vscroll_int)
            (motion_byte event.hscroll_int);
    })

-- `sc_hid_mouse_generate_open`, `sc_hid_mouse_generate_close`
unfoldable pub mouse_open : HidOpen
unfolding mouse_report_desc
mouse_open = record { hid_id = mouse_id; report_desc = mouse_report_desc }

unfoldable pub mouse_close : HidClose
mouse_close = record { hid_id = mouse_id }
