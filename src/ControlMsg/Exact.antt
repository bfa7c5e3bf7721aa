-- ===== src/ControlMsg/Exact.antt =====
-- What `sc_control_msg_serialize` does to its buffer.
use cicy_agent_adr.Prelude.{
  ℕ, ◌+◌, ◌/◌, ◌^◌, ◌≡◌, refl, ap, ◌∙◌, Option, none, some, List, ◌++◌, take, length, arith,
  length-take, length-append,
}
use cicy_agent_adr.Prelude.Memory.{
  Buffer, store, memcpy, slice, memcpy-memcpy, store-memcpy, length-slice,
}
use cicy_agent_adr.Binary.{u8, be16, be32, write16be, write32be}
use cicy_agent_adr.Binary.Copy.{write16be-memcpy, write32be-memcpy, write64be-memcpy}
use cicy_agent_adr.Str.{CString, utf8_truncation_index}
use cicy_agent_adr.Str.Utf8.{truncation_index-IsCut}
use cicy_agent_adr.ControlMsg.{
  ControlMsg, type_of, inject_keycode, inject_text, inject_touch_event, inject_scroll_event,
  back_or_screen_on, get_clipboard, set_clipboard, set_display_power, uhid_create, uhid_input,
  uhid_destroy, start_app, unknown, inject_text_max_length, clipboard_text_max_length,
  expand_notification_panel, expand_settings_panel, collapse_panels, rotate_device,
  open_hard_keyboard_settings, reset_video,
}
use cicy_agent_adr.ControlMsg.Floats.{pressure_lem, scroll_lem}
use cicy_agent_adr.ControlMsg.Serialize.{
  write_position, write_string_payload, write_string, write_string_tiny, serialize,
}
use cicy_agent_adr.ControlMsg.Wire.{
  pressure_value, cut, wire, long_string, short_string, IsOptionText, IsSendable,
}

pair_eq :
    {a b : Buffer} {c d : ℕ}
    → a ≡ b
    → c ≡ d
    → ◌≡◌ {A = Option (Buffer × ℕ)} (some (a, c)) (some (b, d))
pair_eq p q = cc

pub cut_lem :
    (s : CString) (max_len n : ℕ)
    → utf8_truncation_index s max_len ≡ some n
    → cut (some s) max_len ≡ take n s
unfolding cut
cut_lem s max_len n e = rw (e, cut)

write32be_below :
    (buf : Buffer) (i v : ℕ) (xs : List ℕ)
    → write32be (memcpy buf (i + 4) xs) i v ≡ memcpy buf i (be32 v ++ xs)
write32be_below buf i v xs =
    moved
    ∙ ap (λ m. memcpy m (i + 4) xs) (write32be-memcpy buf i v)
    ∙ memcpy-memcpy buf i (i + 4) (be32 v) xs refl
  where
    moved : write32be (memcpy buf (i + 4) xs) i v ≡ memcpy (write32be buf i v) (i + 4) xs
    moved =
        unfold write32be in
        cc (
          store-memcpy buf i (i + 4) (u8 (v / 2 ^ 24)) xs (omega arith),
          store-memcpy (store buf i (u8 (v / 2 ^ 24))) (i + 1) (i + 4) (u8 (v / 2 ^ 16)) xs
              (omega arith),
          store-memcpy (store (store buf i (u8 (v / 2 ^ 24))) (i + 1) (u8 (v / 2 ^ 16))) (i + 2)
              (i + 4) (u8 (v / 2 ^ 8)) xs (omega arith),
          store-memcpy
              (store (store (store buf i (u8 (v / 2 ^ 24))) (i + 1) (u8 (v / 2 ^ 16))) (i + 2)
                (u8 (v / 2 ^ 8)))
              (i + 3) (i + 4) (u8 v) xs (omega arith),
        )

-- A payload is the cut text, copied to its place.
write_string_payload_lem :
    (buf : Buffer) (i : ℕ) (text : Option CString) (max_len : ℕ)
    → IsOptionText text
    → write_string_payload buf i text max_len
      ≡ some (memcpy buf i (cut text max_len), length (cut text max_len))
unfolding write_string_payload
write_string_payload_lem buf i none max_len t = unfold cut in refl
write_string_payload_lem buf i (some s) max_len t =
    let (n, e, c) = truncation_index-IsCut s max_len t in
    rw (e, cut_lem s max_len n e) (pair_eq refl (omega (arith, length-take n s, c.inside)))

write_string_lem :
    (buf : Buffer) (i : ℕ) (text : Option CString) (max_len : ℕ)
    → IsOptionText text
    → write_string buf i text max_len
      ≡ some
          (memcpy buf i (long_string (cut text max_len)), length (long_string (cut text max_len)))
unfolding write_string
write_string_lem buf i text max_len t = rw (write_string_payload_lem buf (i + 4) text max_len t) (
    pair_eq {c = 4 + length (cut text max_len)} {d = length (long_string (cut text max_len))}
      (write32be_below buf i (length (cut text max_len)) (cut text max_len)) (omega arith))

write_string_tiny_lem :
    (buf : Buffer) (i : ℕ) (text : Option CString) (max_len : ℕ)
    → IsOptionText text
    → write_string_tiny buf i text max_len
      ≡ some
          (memcpy buf i (short_string (cut text max_len)), length (short_string (cut text max_len)))
unfolding write_string_tiny memcpy
write_string_tiny_lem buf i text max_len t =
    rw (write_string_payload_lem buf (i + 1) text max_len t) (
      pair_eq {c = 1 + length (cut text max_len)} {d = length (short_string (cut text max_len))}
        (store-memcpy buf i (i + 1) (u8 (length (cut text max_len))) (cut text max_len)
          (omega arith))
        (omega arith))

-- The end of a UHID_CREATE message: the size of the descriptor and its bytes behind the name.
uhid_tail :
    (buf : Buffer) (i v : ℕ) (xs ys : List ℕ)
    → memcpy (write16be (memcpy buf i xs) (i + length xs) v) (i + length xs + 2) ys
      ≡ memcpy buf i (xs ++ (be16 v ++ ys))
uhid_tail buf i v xs ys =
    ap (λ m. memcpy m (i + length xs + 2) ys) (write16be-memcpy (memcpy buf i xs) (i + length xs) v)
    ∙ memcpy-memcpy (memcpy buf i xs) (i + length xs) (i + length xs + 2) (be16 v) ys refl
    ∙ memcpy-memcpy buf i (i + length xs) xs (be16 v ++ ys) refl

-- On every message of the enum whose text, if any, is of bytes and starts at a character, whose
-- pressure is from 0 to 1, and none of whose floats is one of those just below 1 for which the
-- conversion to fixed point fails its assertion, the serializer returns a value: it has copied
-- exactly the bytes of the protocol to the start of the buffer, changed nothing behind them, and
-- returns their number.
pub serialize-wire :
    (msg : ControlMsg) (buf : Buffer)
    → IsSendable msg
    → serialize msg buf ≡ some (memcpy buf 0 (wire msg), length (wire msg))
unfolding serialize wire type_of
serialize-wire (inject_keycode action keycode repeat metastate) buf h = refl
serialize-wire (inject_text text) buf h =
    rw (write_string_lem (store buf 0 1) 1 text inject_text_max_length h)
      (pair_eq refl (omega arith))
serialize-wire (inject_touch_event action action_button buttons pointer_id position pressure) buf
      h =
    rw (pressure_lem pressure h) (
      ap
        (λ m. some (
          write32be
              (write32be (write16be (write_position m 10 position) 22 (pressure_value pressure)) 24
                action_button)
              28 buttons,
          32,
        ))
        (write64be-memcpy (store (store buf 0 2) 1 (u8 action)) 2 pointer_id))
serialize-wire (inject_scroll_event position hscroll vscroll buttons) buf (h, v) =
    rw (scroll_lem hscroll h, scroll_lem vscroll v)
serialize-wire (back_or_screen_on action) buf h = refl
serialize-wire (get_clipboard copy_key) buf h = refl
serialize-wire (set_clipboard sequence text paste) buf h =
    rw (write64be-memcpy (store buf 0 9) 1 sequence)
      (rw (write_string_lem _ 10 text clipboard_text_max_length h) (pair_eq refl (omega arith)))
serialize-wire (set_display_power on) buf h = refl
serialize-wire (uhid_create id vendor_id product_id name report_desc_size report_desc) buf h =
    let s = short_string (cut name 127) in
    let d = slice report_desc 0 report_desc_size in
    rw (write_string_tiny_lem _ 7 name 127 h) (
      pair_eq (uhid_tail _ 7 report_desc_size s d) (
        omega (
          arith,
          length-append (cut name 127) (be16 report_desc_size ++ d),
          length-slice report_desc 0 report_desc_size,
        )))
serialize-wire (uhid_input id size payload) buf h =
    pair_eq refl (omega (arith, length-slice payload 0 size))
serialize-wire (uhid_destroy id) buf h = refl
serialize-wire (start_app name) buf h =
    rw (write_string_tiny_lem (store buf 0 16) 1 name 255 h) (pair_eq refl (omega arith))
serialize-wire expand_notification_panel buf h = refl
serialize-wire expand_settings_panel buf h = refl
serialize-wire collapse_panels buf h = refl
serialize-wire rotate_device buf h = refl
serialize-wire open_hard_keyboard_settings buf h = refl
serialize-wire reset_video buf h = refl
serialize-wire (unknown type) buf h = absurd h
