-- ===== src/ControlMsg.antt =====
-- Control messages, scrcpy/app/src/control_msg.h and control_msg.c.
-- An enum value is its number, an `int32_t` its bit pattern, an optional C string an option.
pub mod Serialize
pub mod Wire
pub mod Floats
pub mod Size
pub mod Exact
mod Tests
use cicy_agent_adr.Prelude.{ℕ, Bool, true, false, ◌&&◌, not, Option, ◌==◌, ◌^◌, ◌-◌}
use cicy_agent_adr.Prelude.Memory.{Buffer}
use cicy_agent_adr.Binary.Fixed.{Float}
use cicy_agent_adr.Str.{CString}

abbrev pub max_size : ℕ
max_size = 2 ^ 18

abbrev pub inject_text_max_length : ℕ
inject_text_max_length = 300

abbrev pub clipboard_text_max_length : ℕ
clipboard_text_max_length = max_size - 14

-- `struct sc_position` of coords.h.
pub record Position : Type 0 where
  pub x : ℕ
  pub y : ℕ
  pub width : ℕ
  pub height : ℕ

-- The tagged union. `unknown` is a tag outside the enum.
pub data ControlMsg : Type 0 where
  inject_keycode : (action keycode repeat metastate : ℕ) → ControlMsg
  inject_text : (text : Option CString) → ControlMsg
  inject_touch_event :
      (action action_button buttons pointer_id : ℕ) (position : Position) (pressure : Float)
      → ControlMsg
  inject_scroll_event : (position : Position) (hscroll vscroll : Float) (buttons : ℕ) → ControlMsg
  back_or_screen_on : (action : ℕ) → ControlMsg
  expand_notification_panel : ControlMsg
  expand_settings_panel : ControlMsg
  collapse_panels : ControlMsg
  get_clipboard : (copy_key : ℕ) → ControlMsg
  set_clipboard : (sequence : ℕ) (text : Option CString) (paste : Bool) → ControlMsg
  set_display_power : (on : Bool) → ControlMsg
  rotate_device : ControlMsg
  uhid_create :
      (id vendor_id product_id : ℕ) (name : Option CString) (report_desc_size : ℕ)
      (report_desc : Buffer)
      → ControlMsg
  uhid_input : (id size : ℕ) (payload : Buffer) → ControlMsg
  uhid_destroy : (id : ℕ) → ControlMsg
  open_hard_keyboard_settings : ControlMsg
  start_app : (name : Option CString) → ControlMsg
  reset_video : ControlMsg
  unknown : (type : ℕ) → ControlMsg

-- `msg->type`, the position of the constant in `enum sc_control_msg_type`.
unfoldable pub type_of : ControlMsg → ℕ
type_of (inject_keycode _ _ _ _) = 0
type_of (inject_text _) = 1
type_of (inject_touch_event _ _ _ _ _ _) = 2
type_of (inject_scroll_event _ _ _ _) = 3
type_of (back_or_screen_on _) = 4
type_of expand_notification_panel = 5
type_of expand_settings_panel = 6
type_of collapse_panels = 7
type_of (get_clipboard _) = 8
type_of (set_clipboard _ _ _) = 9
type_of (set_display_power _) = 10
type_of rotate_device = 11
type_of (uhid_create _ _ _ _ _ _) = 12
type_of (uhid_input _ _ _) = 13
type_of (uhid_destroy _) = 14
type_of open_hard_keyboard_settings = 15
type_of (start_app _) = 16
type_of reset_video = 17
type_of (unknown type) = type

-- `sc_control_msg_is_droppable`
unfoldable pub is_droppable : ControlMsg → Bool
unfolding type_of
is_droppable msg = not (type_of msg == 12) && not (type_of msg == 14)
