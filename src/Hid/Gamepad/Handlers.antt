-- ===== src/Hid/Gamepad/Handlers.antt =====
-- The events of buttons and axes of hid_gamepad.c, and their handlers.
use cicy_agent_adr.Prelude.{
  ℕ, ◌-◌, ◌^◌, Bool, true, Option, none, some, bit_and, bit_or, ltb, ◌==◌, if◌then◌else◌,
}
use cicy_agent_adr.Prelude.Int.{ℤ, pos, negsuc}
use cicy_agent_adr.Prelude.Memory.{store}
use cicy_agent_adr.Hid.{HidInput}
use cicy_agent_adr.Hid.Gamepad.{
  Sdl, Slot, Gamepads, axis_rescale, max_zero, slot_find, slot_get_id, event_from_slot, bit_up,
  bit_down, bit_left, bit_right,
}

-- `struct sc_gamepad_button_event`; `down` is `action == SC_ACTION_DOWN`.
pub record ButtonEvent : Type 0 where
  pub gamepad_id : ℕ
  pub down : Bool
  pub button : ℤ

-- `struct sc_gamepad_axis_event`
pub record AxisEvent : Type 0 where
  pub gamepad_id : ℕ
  pub axis : ℤ
  pub value : ℤ

-- `event->button < 0 || event->button > 15`
abbrev pub is_outside : ℤ → Bool
is_outside (pos n) = ltb 15 n
is_outside (negsuc n) = true

-- `slot->buttons |= button` and `slot->buttons &= ~button`, on uint32_t
unfoldable pub set_button : Slot → ℕ → Bool → Slot
set_button slot button down = record slot {
  buttons = if down then bit_or slot.buttons button else bit_and slot.buttons (2 ^ 32 - 1 - button);
}

module _ (sdl : Sdl) where
  -- `sc_hid_gamepad_get_button_id`
  unfoldable pub get_button_id : ℤ → ℕ
  get_button_id (negsuc n) = 0
  get_button_id (pos n) =
      if n == sdl.south
      then 0x0001
      else if n == sdl.east
      then 0x0002
      else if n == sdl.west
      then 0x0008
      else if n == sdl.north
      then 0x0010
      else if n == sdl.back
      then 0x0400
      else if n == sdl.guide
      then 0x1000
      else if n == sdl.start
      then 0x0800
      else if n == sdl.left_stick
      then 0x2000
      else if n == sdl.right_stick
      then 0x4000
      else if n == sdl.left_shoulder
      then 0x0040
      else if n == sdl.right_shoulder
      then 0x0080
      else if n == sdl.dpad_up
      then bit_up
      else if n == sdl.dpad_down
      then bit_down
      else if n == sdl.dpad_left
      then bit_left
      else if n == sdl.dpad_right
      then bit_right
      else 0

  -- The switch of `sc_hid_gamepad_generate_input_from_axis`: the new slot, or `return false`.
  unfoldable pub set_axis : Slot → ℤ → ℤ → Option Slot
  unfolding axis_rescale
  set_axis slot (negsuc n) value = none
  set_axis slot (pos n) value =
      if n == sdl.axis_leftx
      then some (record slot { axis_left_x = axis_rescale value })
      else if n == sdl.axis_lefty
      then some (record slot { axis_left_y = axis_rescale value })
      else if n == sdl.axis_rightx
      then some (record slot { axis_right_x = axis_rescale value })
      else if n == sdl.axis_righty
      then some (record slot { axis_right_y = axis_rescale value })
      else if n == sdl.axis_left_trigger
      then some (record slot { axis_left_trigger = max_zero value })
      else if n == sdl.axis_right_trigger
      then some (record slot { axis_right_trigger = max_zero value })
      else none

-- The end of both handlers: the slot is written back, and its report is generated.
unfoldable pub answer_slot : Gamepads → ℕ → HidInput → Option Slot → Gamepads × Option HidInput
unfolding event_from_slot
answer_slot hid i hid_input none = (hid, none)
answer_slot hid i hid_input (some slot) =
    (store hid i slot, some (event_from_slot (slot_get_id i) slot hid_input))

module _ (sdl : Sdl) where
  -- The slot after a button event; an unknown button, whose id is 0, is ignored.
  unfoldable pub press_button : Slot → ButtonEvent → Option Slot
  unfolding get_button_id set_button
  press_button slot event =
      let button = get_button_id sdl event.button in
      if button == 0 then none else some (set_button slot button event.down)

  unfoldable pub button_at :
      Gamepads → HidInput → ButtonEvent → Option ℕ → Gamepads × Option HidInput
  unfolding answer_slot press_button
  button_at hid hid_input event none = (hid, none)
  button_at hid hid_input event (some i) = answer_slot hid i hid_input (press_button (hid i) event)

  -- `sc_hid_gamepad_generate_input_from_button`
  unfoldable pub generate_input_from_button :
      Gamepads → HidInput → ButtonEvent → Gamepads × Option HidInput
  unfolding slot_find button_at
  generate_input_from_button hid hid_input event =
      if is_outside event.button
      then (hid, none)
      else button_at hid hid_input event (slot_find hid event.gamepad_id)

  unfoldable pub axis_at : Gamepads → HidInput → AxisEvent → Option ℕ → Gamepads × Option HidInput
  unfolding answer_slot set_axis
  axis_at hid hid_input event none = (hid, none)
  axis_at hid hid_input event (some i) =
      answer_slot hid i hid_input (set_axis sdl (hid i) event.axis event.value)

  -- `sc_hid_gamepad_generate_input_from_axis`
  unfoldable pub generate_input_from_axis :
      Gamepads → HidInput → AxisEvent → Gamepads × Option HidInput
  unfolding slot_find axis_at
  generate_input_from_axis hid hid_input event =
      axis_at hid hid_input event (slot_find hid event.gamepad_id)
