-- ===== src/ControlMsg/Serialize.antt =====
-- `sc_control_msg_serialize` of control_msg.c, every store at the offset that the source gives it.
-- The result is the buffer and the number of bytes; `none` is a read outside a text that starts
-- inside a character, or a failed assertion of a conversion to fixed point.
use cicy_agent_adr.Prelude.{◌>>=◌, ℕ, ◌+◌, Bool, Option, none, some, take, if◌then◌else◌}
use cicy_agent_adr.Prelude.Memory.{Buffer, store, memcpy, slice}
use cicy_agent_adr.Binary.{u8, write16be, write32be, write64be}
use cicy_agent_adr.Binary.Fixed.{float_to_u16fp, float_to_i16fp, scroll_norm}
use cicy_agent_adr.Str.{CString, utf8_truncation_index}
use cicy_agent_adr.ControlMsg.{
  Position, ControlMsg, inject_keycode, inject_text, inject_touch_event, inject_scroll_event,
  back_or_screen_on, expand_notification_panel, expand_settings_panel, collapse_panels,
  get_clipboard, set_clipboard, set_display_power, rotate_device, uhid_create, uhid_input,
  uhid_destroy, open_hard_keyboard_settings, start_app, reset_video, unknown, type_of,
  inject_text_max_length, clipboard_text_max_length,
}

unfoldable pub write_position : Buffer → ℕ → Position → Buffer
unfolding write32be write16be
write_position buf i position =
    write16be
      (write16be (write32be (write32be buf i position.x) (i + 4) position.y) (i + 8) position.width)
      (i + 10) position.height

unfoldable pub write_string_payload : Buffer → ℕ → Option CString → ℕ → Option (Buffer × ℕ)
unfolding memcpy
write_string_payload buf i none max_len = some (buf, 0)
write_string_payload buf i (some utf8) max_len = do
  len ← utf8_truncation_index utf8 max_len
  some (memcpy buf i (take len utf8), len)

unfoldable pub write_string : Buffer → ℕ → Option CString → ℕ → Option (Buffer × ℕ)
unfolding write_string_payload write32be
write_string buf i utf8 max_len = do
  (buf', len) ← write_string_payload buf (i + 4) utf8 max_len
  some (write32be buf' i len, 4 + len)

unfoldable pub write_string_tiny : Buffer → ℕ → Option CString → ℕ → Option (Buffer × ℕ)
unfolding write_string_payload
write_string_tiny buf i utf8 max_len = do
  (buf', len) ← write_string_payload buf (i + 1) utf8 max_len
  some (store buf' i (u8 len), 1 + len)

-- `(uint8_t) b` and `!!b` of a `bool`.
abbrev pub byte_of_bool : Bool → ℕ
byte_of_bool b = if b then 1 else 0

-- The cases of the switch, after `buf[0] = msg->type`.
unfoldable pub serialize_body : ControlMsg → Buffer → Option (Buffer × ℕ)
unfolding write_position write_string write_string_tiny write16be write32be write64be memcpy slice
serialize_body (inject_keycode action keycode repeat metastate) buf =
    let buf = store buf 1 (u8 action) in
    let buf = write32be buf 2 keycode in
    let buf = write32be buf 6 repeat in let buf = write32be buf 10 metastate in some (buf, 14)
serialize_body (inject_text text) buf = do
  (buf', len) ← write_string buf 1 text inject_text_max_length
  some (buf', 1 + len)
serialize_body (inject_touch_event action action_button buttons pointer_id position pressure) buf =
    let buf = store buf 1 (u8 action) in
    let buf = write64be buf 2 pointer_id in
    let buf = write_position buf 10 position in
    do
      fixed ← float_to_u16fp pressure
      let buf1 = write16be buf 22 fixed
      let buf2 = write32be buf1 24 action_button
      let buf3 = write32be buf2 28 buttons
      some (buf3, 32)
serialize_body (inject_scroll_event position hscroll vscroll buttons) buf =
    let buf = write_position buf 1 position in
    do
      h ← float_to_i16fp (scroll_norm hscroll)
      v ← float_to_i16fp (scroll_norm vscroll)
      let buf1 = write16be buf 13 h
      let buf2 = write16be buf1 15 v
      let buf3 = write32be buf2 17 buttons
      some (buf3, 21)
serialize_body (back_or_screen_on action) buf = some (store buf 1 (u8 action), 2)
serialize_body (get_clipboard copy_key) buf = some (store buf 1 (u8 copy_key), 2)
serialize_body (set_clipboard sequence text paste) buf =
    let buf = write64be buf 1 sequence in
    let buf = store buf 9 (byte_of_bool paste) in
    do (buf', len) ← write_string buf 10 text clipboard_text_max_length; some (buf', 10 + len)
serialize_body (set_display_power on) buf = some (store buf 1 (byte_of_bool on), 2)
serialize_body (uhid_create id vendor_id product_id name report_desc_size report_desc) buf =
    let buf = write16be buf 1 id in
    let buf = write16be buf 3 vendor_id in
    let buf = write16be buf 5 product_id in
    do
      (buf', len) ← write_string_tiny buf 7 name 127
      let index = 7 + len
      let buf2 = write16be buf' index report_desc_size
      let index2 = index + 2
      let buf3 = memcpy buf2 index2 (slice report_desc 0 report_desc_size)
      some (buf3, index2 + report_desc_size)
serialize_body (uhid_input id size payload) buf =
    let buf = write16be buf 1 id in
    let buf = write16be buf 3 size in some (memcpy buf 5 (slice payload 0 size), 5 + size)
serialize_body (uhid_destroy id) buf = some (write16be buf 1 id, 3)
serialize_body (start_app name) buf = do
  (buf', len) ← write_string_tiny buf 1 name 255
  some (buf', 1 + len)
serialize_body expand_notification_panel buf = some (buf, 1)
serialize_body expand_settings_panel buf = some (buf, 1)
serialize_body collapse_panels buf = some (buf, 1)
serialize_body rotate_device buf = some (buf, 1)
serialize_body open_hard_keyboard_settings buf = some (buf, 1)
serialize_body reset_video buf = some (buf, 1)
serialize_body (unknown type) buf = some (buf, 0)

unfoldable pub serialize : ControlMsg → Buffer → Option (Buffer × ℕ)
unfolding serialize_body type_of
serialize msg buf = serialize_body msg (store buf 0 (u8 (type_of msg)))
