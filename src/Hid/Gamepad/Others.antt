-- ===== src/Hid/Gamepad/Others.antt =====
-- What the handlers of hid_gamepad.c leave as it is: the other gamepads.
use cicy_agent_adr.Prelude.{
  ℕ, ◌≡◌, ◌≢◌, refl, sym, ap, ◌∙◌, Bool, true, false, Option, none, some, arith, ◌==◌,
  if◌then◌else◌,
}
use cicy_agent_adr.Prelude.Memory.{store, store_ne, store_self}
use cicy_agent_adr.Prelude.Int.{ℤ, pos, negsuc}
use cicy_agent_adr.Hid.{HidInput, HidOpen, HidClose}
use cicy_agent_adr.Hid.Gamepad.{
  Sdl, Slot, Gamepads, Answer, invalid_id, slot_init, slot_find, open_at, generate_open, close_at,
  generate_close,
}
use cicy_agent_adr.Hid.Gamepad.Handlers.{
  ButtonEvent, AxisEvent, is_outside, answer_slot, press_button, set_button, set_axis, button_at,
  axis_at, generate_input_from_button, generate_input_from_axis, get_button_id,
}
use cicy_agent_adr.Hid.Gamepad.Slots.{find_congr}
use cicy_agent_adr.Hid.Gamepad.Opening.{found}
use native.Mathlib.Decide.{ℕ_discrete}

-- A search does not see that a slot changed when the test of its id is as before.
same_find :
    (hid : Gamepads) (i id : ℕ) (slot : Slot)
    → (id == slot.gamepad_id) ≡ (id == (hid i).gamepad_id)
    → slot_find (store hid i slot) id ≡ slot_find hid id
unfolding slot_find
same_find hid i id slot h = find_congr hid (store hid i slot) id 0 8 (λ j. elim (ℕ_discrete j i) [
  | yes same ↦
      ap (λ t. id == (store hid i slot t).gamepad_id) same
      ∙ ap (λ t. id == t.gamepad_id) (store_self hid i slot)
      ∙ h
      ∙ ap (λ t. id == (hid t).gamepad_id) (sym same)
  | no other ↦ ap (λ t. id == t.gamepad_id) (store_ne hid i j slot other)
])

same_test : (id a b : ℕ) → id ≢ a → id ≢ b → (id == a) ≡ (id == b)
same_test id a b p q = ground arith

-- What holds in both branches of a test holds of the test.
pub in_both :
    {A : Type 0} (P : A → Type 0) (b : Bool) (x y : A) → P x → P y → P (if b then x else y)
in_both P true x y p q = p
in_both P false x y p q = q

-- The events never change the id of a slot.
abbrev Keeps : Slot → Option Slot → Type 0
Keeps slot none = slot ≡ slot
Keeps slot (some slot') = slot'.gamepad_id ≡ slot.gamepad_id

set_axis-Keeps :
    (sdl : Sdl) (slot : Slot) (axis value : ℤ) → Keeps slot (set_axis sdl slot axis value)
unfolding set_axis
set_axis-Keeps sdl slot (negsuc n) value = refl
set_axis-Keeps sdl slot (pos n) value = in_both (Keeps slot) (n == sdl.axis_leftx) _ _ refl (
    in_both (Keeps slot) (n == sdl.axis_lefty) _ _ refl (
      in_both (Keeps slot) (n == sdl.axis_rightx) _ _ refl (
        in_both (Keeps slot) (n == sdl.axis_righty) _ _ refl (
          in_both (Keeps slot) (n == sdl.axis_left_trigger) _ _ refl
            (in_both (Keeps slot) (n == sdl.axis_right_trigger) _ _ refl refl)))))

press_button-Keeps :
    (sdl : Sdl) (slot : Slot) (event : ButtonEvent) → Keeps slot (press_button sdl slot event)
unfolding press_button set_button
press_button-Keeps sdl slot event =
    in_both (Keeps slot) (get_button_id sdl event.button == 0) _ _ refl refl

-- The search for an id finds the same slot, and the slots with that id hold what they held.
abbrev pub Untouched : Gamepads → ℕ → Gamepads → Type 0
Untouched hid other hid' =
    (slot_find hid' other ≡ slot_find hid other)
    × ((j : ℕ) → (hid j).gamepad_id ≡ other → hid' j ≡ hid j)

same-Untouched : (hid : Gamepads) (other : ℕ) → Untouched hid other hid
same-Untouched hid other = (refl, λ j e. refl)

-- A slot of another id takes something else.
store-Untouched :
    (hid : Gamepads) (i other : ℕ) (slot : Slot)
    → other ≢ (hid i).gamepad_id
    → (other == slot.gamepad_id) ≡ (other == (hid i).gamepad_id)
    → Untouched hid other (store hid i slot)
store-Untouched hid i other slot ne e = (
  same_find hid i other slot e,
  λ j h. store_ne hid i j slot (λ same. ne (sym h ∙ ap (λ t. (hid t).gamepad_id) same)),
)

answer-Untouched :
    (hid : Gamepads) (i other : ℕ) (before : HidInput) (slot : Option Slot)
    → other ≢ (hid i).gamepad_id
    → Keeps (hid i) slot
    → Untouched hid other (answer_slot hid i before slot).0
unfolding answer_slot
answer-Untouched hid i other before none ne k = same-Untouched hid other
answer-Untouched hid i other before (some slot) ne k =
    store-Untouched hid i other slot ne (ap (λ t. other == t) k)

-- For an id that is neither SC_GAMEPAD_ID_INVALID nor the one of the call: opening and closing a
-- gamepad, and the events of buttons and axes, leave the slots that hold this id as they are, with
-- all that is pressed and moved there, and a search for it finds the same slot.
pub others_lem :
    (sdl : Sdl) (hid : Gamepads) (id other : ℕ) (before : HidInput) (press : ButtonEvent)
    (move : AxisEvent)
    → other ≢ id
    → other ≢ press.gamepad_id
    → other ≢ move.gamepad_id
    → other ≢ invalid_id
    → Untouched hid other (generate_open hid id).0
      × Untouched hid other (generate_close hid id).0
      × Untouched hid other (generate_input_from_button sdl hid before press).0
      × Untouched hid other (generate_input_from_axis sdl hid before move).0
unfolding generate_open open_at slot_init generate_close close_at generate_input_from_button
    button_at generate_input_from_axis axis_at
others_lem sdl hid id other before press move p u w q = (
  in_both {A = Gamepads × Answer HidOpen} (λ r. Untouched hid other r.0) (id == invalid_id) _ _
      (same-Untouched hid other) (opening (slot_find hid invalid_id) refl),
  in_both {A = Gamepads × Answer HidClose} (λ r. Untouched hid other r.0) (id == invalid_id) _ _
      (same-Untouched hid other) (closing (slot_find hid id) refl),
  in_both {A = Gamepads × Option HidInput} (λ r. Untouched hid other r.0) (is_outside press.button)
      _ _ (same-Untouched hid other) (pressing (slot_find hid press.gamepad_id) refl),
  moving (slot_find hid move.gamepad_id) refl,
)
  where
    apart : (a i : ℕ) → other ≢ a → slot_find hid a ≡ some i → other ≢ (hid i).gamepad_id
    apart a i ne e h = ne (h ∙ sym ((found hid a i e).1))

    opening :
        (o : Option ℕ) → slot_find hid invalid_id ≡ o → Untouched hid other (open_at hid id o).0
    opening none e = same-Untouched hid other
    opening (some i) e =
        let ne = apart invalid_id i q e in
        store-Untouched hid i other (slot_init (hid i) id) ne
          (same_test other id (hid i).gamepad_id p ne)

    closing : (o : Option ℕ) → slot_find hid id ≡ o → Untouched hid other (close_at hid o).0
    closing none e = same-Untouched hid other
    closing (some i) e =
        let ne = apart id i p e in
        store-Untouched hid i other (record (hid i) { gamepad_id = invalid_id }) ne
          (same_test other invalid_id (hid i).gamepad_id q ne)

    pressing :
        (o : Option ℕ)
        → slot_find hid press.gamepad_id ≡ o
        → Untouched hid other (button_at sdl hid before press o).0
    pressing none e = same-Untouched hid other
    pressing (some i) e =
        answer-Untouched hid i other before (press_button sdl (hid i) press)
          (apart press.gamepad_id i u e) (press_button-Keeps sdl (hid i) press)

    moving :
        (o : Option ℕ)
        → slot_find hid move.gamepad_id ≡ o
        → Untouched hid other (axis_at sdl hid before move o).0
    moving none e = same-Untouched hid other
    moving (some i) e =
        answer-Untouched hid i other before (set_axis sdl (hid i) move.axis move.value)
          (apart move.gamepad_id i w e) (set_axis-Keeps sdl (hid i) move.axis move.value)
