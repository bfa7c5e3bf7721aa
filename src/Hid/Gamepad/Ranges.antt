-- ===== src/Hid/Gamepad/Ranges.antt =====
-- The values of hid_gamepad.c stay in the ranges that its descriptor announces.
use cicy_agent_adr.Prelude.{ℕ, ◌≤◌, ◌≡◌, refl, true, Option, none, some, arith, ◌==◌}
use cicy_agent_adr.Prelude.Memory.{store}
use cicy_agent_adr.Prelude.Int.{ℤ, pos, negsuc, pos_part}
use cicy_agent_adr.Hid.{HidInput, HidOpen, HidClose}
use cicy_agent_adr.Hid.Gamepad.{
  Sdl, Slot, Gamepads, Answer, invalid_id, slot_init, slot_find, open_at, generate_open, close_at,
  generate_close, max_zero, axis_rescale,
}
use cicy_agent_adr.Hid.Gamepad.Handlers.{
  ButtonEvent, AxisEvent, is_outside, answer_slot, press_button, set_button, set_axis, button_at,
  axis_at, generate_input_from_button, generate_input_from_axis, get_button_id,
}
use cicy_agent_adr.Hid.Gamepad.Others.{in_both}

-- Logical Maximum 65535 of the sticks, and 32767 of the triggers.
abbrev pub InRange : Slot → Type 0
InRange slot =
    (slot.axis_left_x ≤ 65535)
    × (slot.axis_left_y ≤ 65535)
    × (slot.axis_right_x ≤ 65535)
    × (slot.axis_right_y ≤ 65535)
    × (slot.axis_left_trigger ≤ 32767)
    × (slot.axis_right_trigger ≤ 32767)

abbrev pub AllInRange : Gamepads → Type 0
AllInRange hid = (j : ℕ) → InRange (hid j)

abbrev MaybeInRange : Option Slot → Type 0
MaybeInRange none = true ≡ true
MaybeInRange (some slot) = InRange slot

rescale_range : (value : ℤ) → axis_rescale value ≤ 65535
unfolding axis_rescale
rescale_range (pos n) = omega arith
rescale_range (negsuc n) = omega arith

max_zero_range : (value : ℤ) → pos_part value ≤ 32767 → max_zero value ≤ 32767
max_zero_range (pos n) h = h
max_zero_range (negsuc n) h = omega arith

store_range :
    (hid : Gamepads) (i : ℕ) (slot : Slot)
    → AllInRange hid
    → InRange slot
    → AllInRange (store hid i slot)
store_range hid i slot h k j = in_both InRange (j == i) slot (hid j) k (h j)

same_range : (slot : Slot) → InRange slot → InRange (record slot { gamepad_id = invalid_id })
same_range slot h = h

slot_init_range : (slot : Slot) (id : ℕ) → InRange (slot_init slot id)
unfolding slot_init axis_rescale
slot_init_range slot id =
    (omega arith, omega arith, omega arith, omega arith, omega arith, omega arith)

set_axis_range :
    (sdl : Sdl) (slot : Slot) (axis value : ℤ)
    → InRange slot
    → pos_part value ≤ 32767
    → MaybeInRange (set_axis sdl slot axis value)
unfolding set_axis
set_axis_range sdl slot (negsuc n) value h k = refl
set_axis_range sdl slot (pos n) value h k =
    let (lx, ly, rx, ry, lt, rt) = h in
    let v = rescale_range value in
    let t = max_zero_range value k in
    in_both MaybeInRange (n == sdl.axis_leftx) _ _ (v, ly, rx, ry, lt, rt)
      (in_both MaybeInRange (n == sdl.axis_lefty) _ _ (lx, v, rx, ry, lt, rt)
        (in_both MaybeInRange (n == sdl.axis_rightx) _ _ (lx, ly, v, ry, lt, rt)
          (in_both MaybeInRange (n == sdl.axis_righty) _ _ (lx, ly, rx, v, lt, rt)
            (in_both MaybeInRange (n == sdl.axis_left_trigger) _ _ (lx, ly, rx, ry, t, rt)
              (in_both MaybeInRange (n == sdl.axis_right_trigger) _ _ (lx, ly, rx, ry, lt, t)
                refl)))))

press_button_range :
    (sdl : Sdl) (slot : Slot) (event : ButtonEvent)
    → InRange slot
    → MaybeInRange (press_button sdl slot event)
unfolding press_button set_button
press_button_range sdl slot event h =
    in_both MaybeInRange (get_button_id sdl event.button == 0) _ _ refl h

answer_range :
    (hid : Gamepads) (i : ℕ) (before : HidInput) (slot : Option Slot)
    → AllInRange hid
    → MaybeInRange slot
    → AllInRange (answer_slot hid i before slot).0
unfolding answer_slot
answer_range hid i before none h k = h
answer_range hid i before (some slot) h k = store_range hid i slot h k

-- If the sticks are in 0 .. 65535 and the triggers in 0 .. 32767, the ranges of the descriptor,
-- they stay so whatever is opened, closed, pressed or moved, for axis values that an int16_t can
-- hold.
pub ranges_lem :
    (sdl : Sdl) (hid : Gamepads) (id : ℕ) (before : HidInput) (press : ButtonEvent)
    (move : AxisEvent)
    → AllInRange hid
    → pos_part move.value ≤ 32767
    → AllInRange (generate_open hid id).0
      × AllInRange (generate_close hid id).0
      × AllInRange (generate_input_from_button sdl hid before press).0
      × AllInRange (generate_input_from_axis sdl hid before move).0
unfolding generate_open open_at generate_close close_at generate_input_from_button button_at
    generate_input_from_axis axis_at
ranges_lem sdl hid id before press move h k = (
  in_both {A = Gamepads × Answer HidOpen} (λ r. AllInRange r.0) (id == invalid_id) _ _ h
      (opening (slot_find hid invalid_id)),
  in_both {A = Gamepads × Answer HidClose} (λ r. AllInRange r.0) (id == invalid_id) _ _ h
      (closing (slot_find hid id)),
  in_both {A = Gamepads × Option HidInput} (λ r. AllInRange r.0) (is_outside press.button) _ _ h
      (pressing (slot_find hid press.gamepad_id)),
  moving (slot_find hid move.gamepad_id),
)
  where
    opening : (o : Option ℕ) → AllInRange (open_at hid id o).0
    opening none = h
    opening (some i) = store_range hid i (slot_init (hid i) id) h (slot_init_range (hid i) id)

    closing : (o : Option ℕ) → AllInRange (close_at hid o).0
    closing none = h
    closing (some i) =
        store_range hid i (record (hid i) { gamepad_id = invalid_id }) h (same_range (hid i) (h i))

    pressing : (o : Option ℕ) → AllInRange (button_at sdl hid before press o).0
    pressing none = h
    pressing (some i) =
        answer_range hid i before (press_button sdl (hid i) press) h
          (press_button_range sdl (hid i) press (h i))

    moving : (o : Option ℕ) → AllInRange (axis_at sdl hid before move o).0
    moving none = h
    moving (some i) =
        answer_range hid i before (set_axis sdl (hid i) move.axis move.value) h
          (set_axis_range sdl (hid i) move.axis move.value (h i) k)
