-- ===== src/Hid/Gamepad/Changes.antt =====
-- What the events of hid_gamepad.c ask for, as tables of buttons and of axes.
use cicy_agent_adr.Prelude.{
  ℕ, ◌-◌, ◌^◌, ◌≤◌, ◌≡◌, ◌≢◌, ◌⊎◌, inl, inr, refl, sym, ap, ◌∙◌, Bool, true, false, false≢true,
  Option, none, some, List, [], ◌∷◌, bit_and, bit_or, ◌==◌, arith, if◌then◌else◌,
}
use cicy_agent_adr.Prelude.Int.{ℤ, pos, negsuc, pos_part, neg_part, ◌+ℤ◌}
use cicy_agent_adr.Hid.Gamepad.{Sdl, Slot, axis_rescale, max_zero}
use cicy_agent_adr.Hid.Gamepad.Handlers.{
  ButtonEvent, AxisEvent, is_outside, press_button, set_button, set_axis, get_button_id,
}
use mathlib.Core.Option.{map, none-ne-some}

-- The first entry of a table under a number.
abbrev pub lookup : {A : Type 0} → List (ℕ × A) → ℤ → Option A
lookup table (negsuc n) = none
lookup [] (pos n) = none
lookup ((k, a) ∷ table) (pos n) = let rest = lookup table (pos n) in if n == k then some a else rest

-- The bits of the buttons, from the lowest.
abbrev pub button_bits : Sdl → List (ℕ × ℕ)
button_bits sdl =
    (sdl.south, 2 ^ 0)
    ∷ (sdl.east, 2 ^ 1)
    ∷ (sdl.west, 2 ^ 3)
    ∷ (sdl.north, 2 ^ 4)
    ∷ (sdl.back, 2 ^ 10)
    ∷ (sdl.guide, 2 ^ 12)
    ∷ (sdl.start, 2 ^ 11)
    ∷ (sdl.left_stick, 2 ^ 13)
    ∷ (sdl.right_stick, 2 ^ 14)
    ∷ (sdl.left_shoulder, 2 ^ 6)
    ∷ (sdl.right_shoulder, 2 ^ 7)
    ∷ (sdl.dpad_up, 2 ^ 16)
    ∷ (sdl.dpad_down, 2 ^ 17)
    ∷ (sdl.dpad_left, 2 ^ 18)
    ∷ (sdl.dpad_right, 2 ^ 19)
    ∷ []

-- A button that is pressed has its bit, one that is released has not.
abbrev pub with_bit : Bool → Slot → ℕ → Slot
with_bit true slot bit = record slot { buttons = bit_or slot.buttons bit }
with_bit false slot bit = record slot { buttons = bit_and slot.buttons (2 ^ 32 - 1 - bit) }

abbrev pub pressed : Sdl → ButtonEvent → Slot → Option Slot
pressed sdl event slot =
    if is_outside event.button
    then none
    else map (with_bit event.down slot) (lookup (button_bits sdl) event.button)

-- A stick is moved to a value from 0 to 65535, a trigger to one from 0.
abbrev pub stick : ℤ → ℕ
stick value = pos_part (value +ℤ pos 32768)

abbrev pub axis_slots : Sdl → Slot → ℤ → List (ℕ × Slot)
axis_slots sdl slot value =
    (sdl.axis_leftx, record slot { axis_left_x = stick value })
    ∷ (sdl.axis_lefty, record slot { axis_left_y = stick value })
    ∷ (sdl.axis_rightx, record slot { axis_right_x = stick value })
    ∷ (sdl.axis_righty, record slot { axis_right_y = stick value })
    ∷ (sdl.axis_left_trigger, record slot { axis_left_trigger = pos_part value })
    ∷ (sdl.axis_right_trigger, record slot { axis_right_trigger = pos_part value })
    ∷ []

abbrev pub moved : Sdl → AxisEvent → Slot → Option Slot
moved sdl event slot = lookup (axis_slots sdl slot event.value) event.axis

-- The number that the chain of tests of a table gives, 0 behind its end.
unfoldable first_or_0 : List (ℕ × ℕ) → ℕ → ℕ
first_or_0 [] n = 0
first_or_0 ((k, a) ∷ table) n = let rest = first_or_0 table n in if n == k then a else rest

abbrev ArePositive : List (ℕ × ℕ) → Type 0
ArePositive [] = Unit {0}
ArePositive ((k, a) ∷ table) = (a ≢ 0) × ArePositive table

chain_lem :
    (table : List (ℕ × ℕ)) (n : ℕ) (f : ℕ → Slot)
    → ArePositive table
    → (if first_or_0 table n == 0 then none else some (f (first_or_0 table n)))
      ≡ map f (lookup table (pos n))
unfolding first_or_0
chain_lem [] n f h = refl
chain_lem ((k, a) ∷ table) n f (h, hs) = branch (n == k) (chain_lem table n f hs)
  where
    branch :
        (b : Bool)
        → (if first_or_0 table n == 0 then none else some (f (first_or_0 table n)))
          ≡ map f (lookup table (pos n))
        → (if (if b then a else first_or_0 table n) == 0
            then none
            else some (f (if b then a else first_or_0 table n)))
          ≡ map f (if b then some a else lookup table (pos n))
    branch true r = let e : (a == 0) ≡ false = ground (arith, h) in rw e
    branch false r = r

set_button_lem :
    (slot : Slot) (bit : ℕ) (down : Bool) → set_button slot bit down ≡ with_bit down slot bit
unfolding set_button
set_button_lem slot bit true = refl
set_button_lem slot bit false = refl

button_id_lem : (sdl : Sdl) (n : ℕ) → get_button_id sdl (pos n) ≡ first_or_0 (button_bits sdl) n
unfolding get_button_id first_or_0
button_id_lem sdl n = refl

pressed_in :
    (sdl : Sdl) (slot : Slot) (n : ℕ) (down : Bool)
    → (if get_button_id sdl (pos n) == 0
        then none
        else some (set_button slot (get_button_id sdl (pos n)) down))
      ≡ map (with_bit down slot) (lookup (button_bits sdl) (pos n))
pressed_in sdl slot n down =
    ap (λ b. if b == 0 then none else some (set_button slot b down)) (button_id_lem sdl n)
    ∙ ap (λ t. if first_or_0 (button_bits sdl) n == 0 then none else some t)
        (set_button_lem slot (first_or_0 (button_bits sdl) n) down)
    ∙ chain_lem (button_bits sdl) n (with_bit down slot) (omega arith)

pub press_button_lem :
    (sdl : Sdl) (slot : Slot) (event : ButtonEvent)
    → is_outside event.button ≡ false
    → press_button sdl slot event ≡ pressed sdl event slot
unfolding press_button
press_button_lem sdl slot event inside = at event.button inside
  where
    at :
        (button : ℤ)
        → is_outside button ≡ false
        → (if get_button_id sdl button == 0
            then none
            else some (set_button slot (get_button_id sdl button) event.down))
          ≡ (if is_outside button
              then none
              else map (with_bit event.down slot) (lookup (button_bits sdl) button))
    at (negsuc n) e = absurd (false≢true (sym e))
    at (pos n) e =
        pressed_in sdl slot n event.down
        ∙ sym (
            ap
              (λ b.
                if b
                then none
                else map (with_bit event.down slot) (lookup (button_bits sdl) (pos n)))
              e)

pub pressed-outside :
    (sdl : Sdl) (event : ButtonEvent)
    → is_outside event.button ≡ true
    → (slot : Slot) → pressed sdl event slot ≡ none
pressed-outside sdl event e slot = rw e

pub pressed_either :
    (sdl : Sdl) (event : ButtonEvent) (slot slot' : Slot)
    → (pressed sdl event slot ≡ none) ⊎ (pressed sdl event slot' ≢ none)
pressed_either sdl event slot slot' =
    branch (is_outside event.button) (lookup (button_bits sdl) event.button)
  where
    branch :
        (b : Bool) (o : Option ℕ)
        → ((if b then none else map (with_bit event.down slot) o) ≡ none)
          ⊎ ((if b then none else map (with_bit event.down slot') o) ≢ none)
    branch true o = inl refl
    branch false none = inl refl
    branch false (some bit) = inr (λ e. none-ne-some (with_bit event.down slot' bit) (sym e))

either_if :
    (b : Bool) (x y : Slot) (r r' : Option Slot)
    → (r ≡ none) ⊎ (r' ≢ none)
    → ((if b then some x else r) ≡ none) ⊎ ((if b then some y else r') ≢ none)
either_if true x y r r' h = inr (λ e. none-ne-some y (sym e))
either_if false x y r r' h = h

pub moved_either :
    (sdl : Sdl) (event : AxisEvent) (slot slot' : Slot)
    → (moved sdl event slot ≡ none) ⊎ (moved sdl event slot' ≢ none)
moved_either sdl event slot slot' = at event.axis
  where
    at :
        (axis : ℤ)
        → (lookup (axis_slots sdl slot event.value) axis ≡ none)
          ⊎ (lookup (axis_slots sdl slot' event.value) axis ≢ none)
    at (negsuc n) = inl refl
    at (pos n) = either_if (n == sdl.axis_leftx) _ _ _ _ (
        either_if (n == sdl.axis_lefty) _ _ _ _ (
          either_if (n == sdl.axis_rightx) _ _ _ _ (
            either_if (n == sdl.axis_righty) _ _ _ _ (
              either_if (n == sdl.axis_left_trigger) _ _ _ _
                (either_if (n == sdl.axis_right_trigger) _ _ _ _ (inl refl))))))

rescale_lem :
    (value : ℤ) → pos_part value ≤ 32767 → neg_part value ≤ 32768 → axis_rescale value ≡ stick value
unfolding axis_rescale ◌+ℤ◌
rescale_lem (pos n) h k = ground arith
rescale_lem (negsuc n) h k = ground arith

max_zero_lem : (value : ℤ) → max_zero value ≡ pos_part value
max_zero_lem (pos n) = refl
max_zero_lem (negsuc n) = refl

pub set_axis_lem :
    (sdl : Sdl) (slot : Slot) (event : AxisEvent)
    → pos_part event.value ≤ 32767
    → neg_part event.value ≤ 32768
    → set_axis sdl slot event.axis event.value ≡ moved sdl event slot
unfolding set_axis
set_axis_lem sdl slot event h k = at event.axis
  where
    at :
        (axis : ℤ)
        → set_axis sdl slot axis event.value ≡ lookup (axis_slots sdl slot event.value) axis
    at (negsuc n) = refl
    at (pos n) = rw (rescale_lem event.value h k, max_zero_lem event.value)
