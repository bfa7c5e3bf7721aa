-- ===== src/Hid/Tests.antt =====
-- Reports of the HID devices on concrete events.
use cicy_agent_adr.Prelude.{ℕ, true, false, ◌≡◌, refl, Option, none, some, List, [], ◌∷◌, arith}
use cicy_agent_adr.Prelude.Memory.{store, slice}
use cicy_agent_adr.Prelude.Int.{pos, negsuc}
use cicy_agent_adr.Hid.{HidInput}
use cicy_agent_adr.Hid.Keyboard.{Keys, KeyEvent, generate_input_from_key}
use cicy_agent_adr.Hid.Keyboard.Report.{Answered, keyboard_report_lem}
use cicy_agent_adr.Hid.Mouse.{
  MotionEvent, ClickEvent, ScrollEvent, input_from_motion, input_from_click, input_from_scroll,
}
use cicy_agent_adr.Hid.Mouse.Report.{Says, ScrollSays, mouse_reports_lem}
use cicy_agent_adr.Hid.Gamepad.{
  Slot, Gamepads, made, slot_find, slot_find_from, generate_open, generate_close, axis_rescale,
}
use cicy_agent_adr.Hid.Gamepad.Handlers.{
  ButtonEvent, AxisEvent, generate_input_from_button, generate_input_from_axis,
}
use cicy_agent_adr.Hid.Gamepad.Opening.{at_rest, open-close}
use cicy_agent_adr.Hid.Gamepad.Others.{Untouched, others_lem}
use cicy_agent_adr.Hid.Gamepad.Changes.{pressed, moved}
use cicy_agent_adr.Hid.Gamepad.Report.{Reported, reports_lem}
use cicy_agent_adr.Hid.Gamepad.Ranges.{AllInRange, ranges_lem}
use cicy_agent_adr.Hid.Keyboard as Keyboard
use cicy_agent_adr.Hid.Mouse as Mouse
use cicy_agent_adr.Hid.Gamepad as Gamepad

-- The values of SDL 2.
abbrev keyboard_sdl : Keyboard.Sdl
keyboard_sdl = record {
  lctrl = 0x40;
  lshift = 0x01;
  lalt = 0x100;
  lgui = 0x400;
  rctrl = 0x80;
  rshift = 0x02;
  ralt = 0x200;
  rgui = 0x800;
  caps = 0x2000;
  num = 0x1000;
  scancode_lctrl = 224;
  scancode_rgui = 231;
  scancode_capslock = 57;
  scancode_numlock = 83;
}

abbrev mouse_sdl : Mouse.Sdl
mouse_sdl = record { left = 1; middle = 2; right = 4; x1 = 8; x2 = 16 }

abbrev gamepad_sdl : Gamepad.Sdl
gamepad_sdl = record {
  south = 0;
  east = 1;
  west = 2;
  north = 3;
  back = 4;
  guide = 5;
  start = 6;
  left_stick = 7;
  right_stick = 8;
  left_shoulder = 9;
  right_shoulder = 10;
  dpad_up = 11;
  dpad_down = 12;
  dpad_left = 13;
  dpad_right = 14;
  axis_leftx = 0;
  axis_lefty = 1;
  axis_rightx = 2;
  axis_righty = 3;
  axis_left_trigger = 4;
  axis_right_trigger = 5;
}

abbrev dirty : HidInput
dirty = record { hid_id = 0; size = 0; data_bytes = λ j. 7 }

-- W is held, and A is pressed with the left shift key.
abbrev w_held : Keys
w_held = store (λ k. false) 26 true

abbrev press_a : KeyEvent
press_a = record { down = true; scancode = 4; mods_state = 1 }

abbrev report_bytes : Keys × Option HidInput → List ℕ
report_bytes (keys, none) = []
report_bytes (keys, some report) = slice report.data_bytes 0 9

two_keys :
    report_bytes (generate_input_from_key keyboard_sdl w_held dirty press_a)
    ≡ 2 ∷ 0 ∷ 4 ∷ 26 ∷ 0 ∷ 0 ∷ 0 ∷ 0 ∷ 7 ∷ []
unfolding generate_input_from_key slice
two_keys = refl

keyboard_report_lem_example :
    Answered keyboard_sdl w_held dirty press_a
      (generate_input_from_key keyboard_sdl w_held dirty press_a)
keyboard_report_lem_example = keyboard_report_lem keyboard_sdl w_held dirty press_a

-- The motion of the source's comment, and one that does not fit a byte.
abbrev move_left : MotionEvent
move_left = record { xrel = negsuc 199; yrel = negsuc 3; buttons_state = 1 }

abbrev click_both : ClickEvent
click_both = record { buttons_state = 5 }

abbrev scroll_down : ScrollEvent
scroll_down = record { hscroll_int = pos 0; vscroll_int = negsuc 0 }

mouse_reports_lem_example :
    Says dirty
      (input_from_motion mouse_sdl dirty move_left)
      1
      (negsuc 126)
      (negsuc 3)
      (pos 0)
      (pos 0)
    × Says dirty (input_from_click mouse_sdl dirty click_both) 3 (pos 0) (pos 0) (pos 0) (pos 0)
    × ScrollSays dirty scroll_down (input_from_scroll dirty scroll_down)
mouse_reports_lem_example = mouse_reports_lem mouse_sdl dirty move_left click_both scroll_down

-- Gamepad 4 is in slot 0, and the other slots are free.
abbrev one_gamepad : Gamepads
one_gamepad = store (λ j. at_rest 0xFFFFFFFF) 0 (at_rest 4)

five_absent : slot_find one_gamepad 5 ≡ none
unfolding slot_find
five_absent = refl

one_free : slot_find one_gamepad 0xFFFFFFFF ≡ some 1
unfolding slot_find
one_free = refl

open-close_example :
    (closed : Gamepads) × (generate_close ((generate_open one_gamepad 5).0) 5
      ≡ (closed, made (record { hid_id = 4 })))
    × ((j : ℕ) → (closed j).gamepad_id ≡ (one_gamepad j).gamepad_id)
open-close_example = open-close one_gamepad 5 1 five_absent one_free

abbrev press_up : ButtonEvent
press_up = record { gamepad_id = 4; down = true; button = pos 11 }

abbrev pull_trigger : AxisEvent
pull_trigger = record { gamepad_id = 4; axis = pos 5; value = pos 32767 }

abbrev gamepad_bytes : Gamepads × Option HidInput → List ℕ
gamepad_bytes (hid, none) = []
gamepad_bytes (hid, some report) = slice report.data_bytes 0 16

up_bytes :
    gamepad_bytes (generate_input_from_button gamepad_sdl one_gamepad dirty press_up)
    ≡ 0 ∷ 128 ∷ 0 ∷ 128 ∷ 0 ∷ 128 ∷ 0 ∷ 128 ∷ 0 ∷ 0 ∷ 0 ∷ 0 ∷ 0 ∷ 0 ∷ 1 ∷ 7 ∷ []
unfolding generate_input_from_button slice
up_bytes = refl

-- Two gamepads, 4 and 7, the second with a button pressed.
abbrev two_gamepads : Gamepads
two_gamepads = store one_gamepad 2 (record (at_rest 7) { buttons = 1 })

others_lem_example :
    Untouched two_gamepads 7 (generate_open two_gamepads 5).0
    × Untouched two_gamepads 7 (generate_close two_gamepads 5).0
    × Untouched two_gamepads 7
        (generate_input_from_button gamepad_sdl two_gamepads dirty press_up).0
    × Untouched two_gamepads 7
        (generate_input_from_axis gamepad_sdl two_gamepads dirty pull_trigger).0
others_lem_example =
    others_lem gamepad_sdl two_gamepads 5 7 dirty press_up pull_trigger (λ e. omega (arith, e))
      (λ e. omega (arith, e)) (λ e. omega (arith, e)) (λ e. omega (arith, e))

reports_lem_example :
    Reported one_gamepad 4
      (pressed gamepad_sdl press_up)
      dirty
      (generate_input_from_button gamepad_sdl one_gamepad dirty press_up)
    × Reported one_gamepad 4
        (moved gamepad_sdl pull_trigger)
        dirty
        (generate_input_from_axis gamepad_sdl one_gamepad dirty pull_trigger)
reports_lem_example =
    reports_lem gamepad_sdl one_gamepad dirty press_up pull_trigger (omega arith) (omega arith)

one_in_range : AllInRange one_gamepad
one_in_range j = ground arith

ranges_lem_example :
    AllInRange (generate_open one_gamepad 5).0
    × AllInRange (generate_close one_gamepad 5).0
    × AllInRange (generate_input_from_button gamepad_sdl one_gamepad dirty press_up).0
    × AllInRange (generate_input_from_axis gamepad_sdl one_gamepad dirty pull_trigger).0
ranges_lem_example =
    ranges_lem gamepad_sdl one_gamepad 5 dirty press_up pull_trigger one_in_range (omega arith)
