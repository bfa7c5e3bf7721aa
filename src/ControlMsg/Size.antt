-- ===== src/ControlMsg/Size.antt =====
-- The size of a serialized message against the buffer of SC_CONTROL_MSG_MAX_SIZE bytes.
use cicy_agent_adr.Prelude.{
  ℕ, ◌^◌, ◌≤◌, ◌<◌, ◌≡◌, Option, none, some, length, arith, length-take, length-append, ◌++◌, ap,
}
use cicy_agent_adr.Prelude.Memory.{Buffer, memcpy_above, slice, length-slice}
use cicy_agent_adr.Binary.{be16}
use cicy_agent_adr.Str.{CString}
use cicy_agent_adr.Str.Utf8.{truncation_index-IsCut}
use cicy_agent_adr.ControlMsg.{
  ControlMsg, inject_keycode, inject_text, inject_touch_event, inject_scroll_event,
  back_or_screen_on, get_clipboard, set_clipboard, set_display_power, uhid_create, uhid_input,
  uhid_destroy, start_app, unknown, inject_text_max_length, clipboard_text_max_length, max_size,
  expand_notification_panel, expand_settings_panel, collapse_panels, rotate_device,
  open_hard_keyboard_settings, reset_video,
}
use cicy_agent_adr.ControlMsg.Serialize.{serialize}
use cicy_agent_adr.ControlMsg.Wire.{cut, wire, IsOptionText, IsSendable}
use cicy_agent_adr.ControlMsg.Exact.{serialize-wire, cut_lem}

-- The sizes held in `uint16_t` fields.
abbrev pub HasWordSizes : ControlMsg → Type 0
HasWordSizes (uhid_create _ _ _ _ report_desc_size _) = report_desc_size < 2 ^ 16
HasWordSizes (uhid_input _ size _) = size < 2 ^ 16
HasWordSizes _ = Unit {0}

length-cut :
    (text : Option CString) (max_len : ℕ) → IsOptionText text → length (cut text max_len) ≤ max_len
length-cut none max_len t = unfold cut in omega arith
length-cut (some s) max_len t =
    let (n, e, c) = truncation_index-IsCut s max_len t in
    omega (arith, ap length (cut_lem s max_len n e), length-take n s, c.short)

wire_size :
    (msg : ControlMsg)
    → IsSendable msg
    → HasWordSizes msg
    → (1 ≤ length (wire msg)) × (length (wire msg) ≤ max_size)
unfolding wire
wire_size (inject_keycode _ _ _ _) h w = omega arith
wire_size (inject_text text) h w = omega (arith, length-cut text inject_text_max_length h)
wire_size (inject_touch_event _ _ _ _ _ _) h w = omega arith
wire_size (inject_scroll_event _ _ _ _) h w = omega arith
wire_size (back_or_screen_on _) h w = omega arith
wire_size (get_clipboard _) h w = omega arith
wire_size (set_clipboard _ text _) h w = omega (arith, length-cut text clipboard_text_max_length h)
wire_size (set_display_power _) h w = omega arith
wire_size (uhid_create _ _ _ name n desc) h w = omega (
  arith,
  length-cut name 127 h,
  length-append (cut name 127) (be16 n ++ slice desc 0 n),
  length-slice desc 0 n,
)
wire_size (uhid_input _ n payload) h w = omega (arith, length-slice payload 0 n)
wire_size (uhid_destroy _) h w = omega arith
wire_size (start_app name) h w = omega (arith, length-cut name 255 h)
wire_size expand_notification_panel h w = omega arith
wire_size expand_settings_panel h w = omega arith
wire_size collapse_panels h w = omega arith
wire_size rotate_device h w = omega arith
wire_size open_hard_keyboard_settings h w = omega arith
wire_size reset_video h w = omega arith
wire_size (unknown _) h w = absurd h

-- On every message of the enum whose text is of bytes and starts at a character, whose sizes are
-- `uint16_t` values, and whose floats can be converted, the serializer returns a size of 1 to
-- SC_CONTROL_MSG_MAX_SIZE bytes, and it has written no byte at or above that size.
pub serialize_bounds :
    (msg : ControlMsg) (buf : Buffer)
    → IsSendable msg
    → HasWordSizes msg
    → (buf' : Buffer) × (n : ℕ) × (serialize msg buf ≡ some (buf', n))
      × (1 ≤ n)
      × (n ≤ max_size)
      × ((j : ℕ) → n ≤ j → buf' j ≡ buf j)
serialize_bounds msg buf h w =
    let (lo, hi) = wire_size msg h w in
    (
      _,
      length (wire msg),
      serialize-wire msg buf h,
      lo,
      hi,
      λ j p. memcpy_above buf 0 (wire msg) j (omega arith),
    )
