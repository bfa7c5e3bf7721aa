-- ===== src/ControlMsg/Wire.antt =====
-- The bytes of a control message, as the protocol describes them: one field after the other.
use cicy_agent_adr.Prelude.{
  ℕ, ◌-◌, ◌*◌, ◌/◌, ◌%◌, ◌^◌, ◌≤◌, ◌<◌, ◌≡◌, ◌≢◌, ◌⊎◌, true, false, min, arith, if◌then◌else◌,
  Option, none, some, List, [], ◌∷◌, ◌++◌, take, length,
}
use cicy_agent_adr.Prelude.Memory.{slice}
use cicy_agent_adr.Binary.{u8, be16, be32, be64}
use cicy_agent_adr.Binary.Fixed.{Float}
use cicy_agent_adr.Str.{CString, utf8_truncation_index}
use cicy_agent_adr.Str.Utf8.{IsText}
use cicy_agent_adr.ControlMsg.{
  Position, ControlMsg, inject_keycode, inject_text, inject_touch_event, inject_scroll_event,
  back_or_screen_on, get_clipboard, set_clipboard, set_display_power, uhid_create, uhid_input,
  uhid_destroy, start_app, unknown, expand_notification_panel, expand_settings_panel,
  collapse_panels, rotate_device, open_hard_keyboard_settings, reset_video, inject_text_max_length,
  clipboard_text_max_length,
}
use cicy_agent_adr.ControlMsg.Serialize.{byte_of_bool}

-- A text cut to at most `max_len` bytes; no text is the empty one.
unfoldable pub cut : Option CString → ℕ → List ℕ
cut none max_len = []
cut (some utf8) max_len = elim (utf8_truncation_index utf8 max_len) [
  | none ↦ []
  | some n ↦ take n utf8
]

abbrev pub position_bytes : Position → List ℕ
position_bytes p = be32 p.x ++ be32 p.y ++ be16 p.width ++ be16 p.height

-- A text behind its length in four bytes, and in one.
abbrev pub long_string : List ℕ → List ℕ
long_string s = be32 (length s) ++ s

abbrev pub short_string : List ℕ → List ℕ
short_string s = u8 (length s) ∷ s

-- A pressure from 0 to 1 in units of 2 ^ -16, at most the greatest of 16 bits.
abbrev pub pressure_value : Float → ℕ
pressure_value f = min (f.mantissa * 2 ^ 16 / 2 ^ f.scale) 0xffff

-- A scroll in units of 2 ^ -11, so that 16 is 2 ^ 15, rounded towards 0, between the least and the
-- greatest of 16 bits, in two's complement.
abbrev pub scroll_value : Float → ℕ
scroll_value f =
    let n = f.mantissa * 2 ^ 11 / 2 ^ f.scale in
    if f.negative then (2 ^ 16 - min n 0x8000) % 2 ^ 16 else min n 0x7fff

-- The whole message: the number of its type, then its fields.
unfoldable pub wire : ControlMsg → List ℕ
unfolding slice
wire (inject_keycode action keycode repeat metastate) =
    0 ∷ (u8 action ∷ (be32 keycode ++ be32 repeat ++ be32 metastate))
wire (inject_text text) = 1 ∷ (long_string (cut text inject_text_max_length))
wire (inject_touch_event action action_button buttons pointer_id position pressure) =
    2
    ∷ (u8 action
        ∷ (be64 pointer_id
            ++ position_bytes position
            ++ be16 (pressure_value pressure)
            ++ be32 action_button
            ++ be32 buttons))
wire (inject_scroll_event position hscroll vscroll buttons) =
    3
    ∷ (position_bytes position
        ++ be16 (scroll_value hscroll)
        ++ be16 (scroll_value vscroll)
        ++ be32 buttons)
wire (back_or_screen_on action) = 4 ∷ (u8 action ∷ [])
wire (get_clipboard copy_key) = 8 ∷ (u8 copy_key ∷ [])
wire (set_clipboard sequence text paste) =
    9 ∷ (be64 sequence ++ byte_of_bool paste ∷ long_string (cut text clipboard_text_max_length))
wire (set_display_power on) = 10 ∷ (byte_of_bool on ∷ [])
wire (uhid_create id vendor_id product_id name report_desc_size report_desc) =
    12
    ∷ (be16 id
        ++ be16 vendor_id
        ++ be16 product_id
        ++ (short_string (cut name 127)
            ++ (be16 report_desc_size ++ slice report_desc 0 report_desc_size)))
wire (uhid_input id size payload) = 13 ∷ (be16 id ++ be16 size ++ slice payload 0 size)
wire (uhid_destroy id) = 14 ∷ (be16 id)
wire (start_app name) = 16 ∷ (short_string (cut name 255))
wire expand_notification_panel = 5 ∷ []
wire expand_settings_panel = 6 ∷ []
wire collapse_panels = 7 ∷ []
wire rotate_device = 11 ∷ []
wire open_hard_keyboard_settings = 15 ∷ []
wire reset_video = 17 ∷ []
wire (unknown type) = u8 type ∷ []

-- A pressure from 0 to 1, but none for which the assertion of `sc_float_to_u16fp` on the greatest
-- result fails; and a scroll for which that of `sc_float_to_i16fp` does not.
abbrev pub IsPressure : Float → Type 0
IsPressure f =
    (f.negative ≡ false) × (f.mantissa ≤ 2 ^ f.scale) × (f.mantissa * 2 ^ 16 / 2 ^ f.scale ≢ 0xffff)

abbrev pub IsScroll : Float → Type 0
IsScroll f = (f.negative ≡ true) ⊎ (f.mantissa * 2 ^ 11 / 2 ^ f.scale ≢ 0x7fff)

-- Texts start at a character, pressures and scrolls are those that can be converted, and the tag is
-- one of the enum.
abbrev pub IsOptionText : Option CString → Type 0
IsOptionText none = Unit {0}
IsOptionText (some s) = IsText s

abbrev pub IsSendable : ControlMsg → Type 0
IsSendable (inject_text text) = IsOptionText text
IsSendable (set_clipboard _ text _) = IsOptionText text
IsSendable (uhid_create _ _ _ name _ _) = IsOptionText name
IsSendable (start_app name) = IsOptionText name
IsSendable (inject_touch_event _ _ _ _ _ pressure) = IsPressure pressure
IsSendable (inject_scroll_event _ hscroll vscroll _) = IsScroll hscroll × IsScroll vscroll
IsSendable (unknown _) = ⊥
IsSendable _ = Unit {0}

-- Every message has the byte of its type.
pub wire_pos : (msg : ControlMsg) → 0 < length (wire msg)
unfolding wire
wire_pos (inject_keycode _ _ _ _) = omega arith
wire_pos (inject_text _) = omega arith
wire_pos (inject_touch_event _ _ _ _ _ _) = omega arith
wire_pos (inject_scroll_event _ _ _ _) = omega arith
wire_pos (back_or_screen_on _) = omega arith
wire_pos expand_notification_panel = omega arith
wire_pos expand_settings_panel = omega arith
wire_pos collapse_panels = omega arith
wire_pos (get_clipboard _) = omega arith
wire_pos (set_clipboard _ _ _) = omega arith
wire_pos (set_display_power _) = omega arith
wire_pos rotate_device = omega arith
wire_pos (uhid_create _ _ _ _ _ _) = omega arith
wire_pos (uhid_input _ _ _) = omega arith
wire_pos (uhid_destroy _) = omega arith
wire_pos open_hard_keyboard_settings = omega arith
wire_pos (start_app _) = omega arith
wire_pos reset_video = omega arith
wire_pos (unknown _) = omega arith
