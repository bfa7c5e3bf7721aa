-- ===== src/Hid/Gamepad/Report.antt =====
-- What the reports of hid_gamepad.c hold.
use cicy_agent_adr.Prelude.{
  ℕ, ◌+◌, ◌*◌, ◌/◌, ◌≤◌, ◌<◌, ◌≡◌, ◌≢◌, ◌⊎◌, inl, inr, refl, sym, ap, subst, ◌∙◌, Bool, true, false,
  Option, none, some, List, [], ◌∷◌, ◌++◌, arith, get_or, bit_and, if◌then◌else◌,
}
use cicy_agent_adr.Prelude.Memory.{Buffer, store, store_ne, store_self, slice}
use cicy_agent_adr.Binary.{u8, write16le}
use cicy_agent_adr.Hid.{HidInput, has_bits}
use cicy_agent_adr.Hid.Descriptor.{input_bytes}
use cicy_agent_adr.Hid.Gamepad.{
  Sdl, Slot, Gamepads, max_gamepads, gamepad_first, gamepad_event_size, gamepad_report_desc,
  slot_find, slot_get_id, get_dpad_value, event_from_slot, bit_up, bit_down, bit_left, bit_right,
}
use cicy_agent_adr.Hid.Gamepad.Handlers.{
  ButtonEvent, AxisEvent, is_outside, answer_slot, press_button, set_axis, button_at, axis_at,
  generate_input_from_button, generate_input_from_axis,
}
use cicy_agent_adr.Hid.Gamepad.Opening.{found}
use cicy_agent_adr.Hid.Gamepad.Slots.{find_none}
use cicy_agent_adr.Hid.Gamepad.Changes.{
  pressed, moved, press_button_lem, pressed-outside, pressed_either, moved_either, set_axis_lem,
}
use cicy_agent_adr.Prelude.Int.{pos_part, neg_part}

-- The place of the direction pad in the grid of the source's comment, row by row; up goes before
-- down, and left before right.
abbrev pub direction : Bool → Bool → Bool → Bool → ℕ
direction up down left right =
    let row = if up then 0 else if down then 2 else 1 in
    let column = if left then 0 else if right then 2 else 1 in
    get_or (8 ∷ 1 ∷ 2 ∷ 7 ∷ 0 ∷ 3 ∷ 6 ∷ 5 ∷ 4 ∷ []) (3 * row + column) 0

abbrev pub le16 : ℕ → List ℕ
le16 v = u8 v ∷ u8 (v / 256) ∷ []

-- The fifteen bytes of a slot: the axes, the low buttons, and the direction.
abbrev pub slot_bytes : Slot → List ℕ
slot_bytes slot =
    le16 slot.axis_left_x
    ++ le16 slot.axis_left_y
    ++ le16 slot.axis_right_x
    ++ le16 slot.axis_right_y
    ++ le16 slot.axis_left_trigger
    ++ le16 slot.axis_right_trigger
    ++ le16 (bit_and slot.buttons 0xFFFF)
    ++ direction (has_bits slot.buttons bit_up) (has_bits slot.buttons bit_down)
        (has_bits slot.buttons bit_left) (has_bits slot.buttons bit_right)
      ∷ []

-- A report of a slot, of the size that the descriptor announces, with nothing written behind it.
abbrev pub ReportOf : Slot → HidInput → HidInput → Type 0
ReportOf slot before report =
    (report.size ≡ input_bytes gamepad_report_desc)
    × (slice report.data_bytes 0 report.size ≡ slot_bytes slot)
    × ((k : ℕ) → report.data_bytes (report.size + k) ≡ before.data_bytes (report.size + k))

-- No slot holds an id.
abbrev pub IsAbsent : Gamepads → ℕ → Type 0
IsAbsent hid id = (j : ℕ) → j < max_gamepads → id ≢ (hid j).gamepad_id

-- For a change of slots that an event asks for, or none if the event is unknown: nothing happens,
-- as the event is unknown or its gamepad is in no slot; or the slot of the gamepad alone changes in
-- this way, and the report is that of the slot afterwards, for the device of that slot.
abbrev pub Reported :
    Gamepads → ℕ → (Slot → Option Slot) → HidInput → Gamepads × Option HidInput → Type 0
Reported hid id change before (hid', none) =
    (hid' ≡ hid) × (IsAbsent hid id ⊎ ((slot : Slot) → change slot ≡ none))
Reported hid id change before (hid', some report) =
    (i : ℕ) × (i < max_gamepads)
    × ((hid i).gamepad_id ≡ id)
    × (change (hid i) ≡ some (hid' i))
    × (report.hid_id ≡ gamepad_first + i)
    × ReportOf (hid' i) before report
    × ((j : ℕ) → j ≢ i → hid' j ≡ hid j)

pub dpad_lem :
    (buttons : ℕ)
    → get_dpad_value buttons
      ≡ direction
          (has_bits buttons bit_up)
          (has_bits buttons bit_down)
          (has_bits buttons bit_left)
          (has_bits buttons bit_right)
unfolding get_dpad_value
dpad_lem buttons =
    cases (has_bits buttons bit_up) (has_bits buttons bit_down) (has_bits buttons bit_left)
      (has_bits buttons bit_right)
  where
    cases :
        (u d l r : Bool)
        → (if u
            then (if l then 8 else if r then 2 else 1)
            else if d
            then (if l then 6 else if r then 4 else 5)
            else if l
            then 7
            else if r
            then 3
            else 0)
          ≡ direction u d l r
    cases true d true r = refl
    cases true d false true = refl
    cases true d false false = refl
    cases false true true r = refl
    cases false true false true = refl
    cases false true false false = refl
    cases false false true r = refl
    cases false false false true = refl
    cases false false false false = refl

write16le_after : (buf : Buffer) (i v j : ℕ) → i + 2 ≤ j → write16le buf i v j ≡ buf j
unfolding write16le
write16le_after buf i v j h =
    store_ne (store buf i (u8 v)) (i + 1) j (u8 (v / 256)) (λ e. omega (arith, e))
    ∙ store_ne buf i j (u8 v) (λ e. omega (arith, e))

gamepad_report_size : gamepad_event_size ≡ input_bytes gamepad_report_desc
unfolding input_bytes gamepad_report_desc
gamepad_report_size = refl

event_from_slot-ReportOf :
    (id : ℕ) (slot : Slot) (before : HidInput)
    → ReportOf slot before (event_from_slot id slot before)
unfolding event_from_slot write16le slice
event_from_slot-ReportOf id slot before = (
  gamepad_report_size,
  ap
      (λ d.
        le16 slot.axis_left_x
        ++ le16 slot.axis_left_y
        ++ le16 slot.axis_right_x
        ++ le16 slot.axis_right_y
        ++ le16 slot.axis_left_trigger
        ++ le16 slot.axis_right_trigger
        ++ le16 (bit_and slot.buttons 0xFFFF)
        ++ d ∷ [])
      (dpad_lem slot.buttons),
  λ k. behind (15 + k) (omega arith),
)
  where
    l1 : Buffer
    l1 = write16le before.data_bytes 0 slot.axis_left_x

    l2 : Buffer
    l2 = write16le l1 2 slot.axis_left_y

    l3 : Buffer
    l3 = write16le l2 4 slot.axis_right_x

    l4 : Buffer
    l4 = write16le l3 6 slot.axis_right_y

    l5 : Buffer
    l5 = write16le l4 8 slot.axis_left_trigger

    l6 : Buffer
    l6 = write16le l5 10 slot.axis_right_trigger

    l7 : Buffer
    l7 = write16le l6 12 (bit_and slot.buttons 0xFFFF)

    behind : (j : ℕ) → 15 ≤ j → store l7 14 (get_dpad_value slot.buttons) j ≡ before.data_bytes j
    behind j h =
        store_ne l7 14 j (get_dpad_value slot.buttons) (λ e. omega (arith, e))
        ∙ write16le_after l6 12 (bit_and slot.buttons 0xFFFF) j (omega arith)
        ∙ write16le_after l5 10 slot.axis_right_trigger j (omega arith)
        ∙ write16le_after l4 8 slot.axis_left_trigger j (omega arith)
        ∙ write16le_after l3 6 slot.axis_right_y j (omega arith)
        ∙ write16le_after l2 4 slot.axis_right_x j (omega arith)
        ∙ write16le_after l1 2 slot.axis_left_y j (omega arith)
        ∙ write16le_after before.data_bytes 0 slot.axis_left_x j (omega arith)

module _ (hid : Gamepads) (id : ℕ) (change : Slot → Option Slot) (before : HidInput) where
  absent-Reported : slot_find hid id ≡ none → Reported hid id change before (hid, none)
  unfolding slot_find
  absent-Reported e = (refl, inl (λ j p. find_none hid id 0 8 j e (omega arith) (omega arith)))

  answer_slot-Reported :
      (i : ℕ)
      → slot_find hid id ≡ some i
      → ((slot : Slot) → (change slot ≡ none) ⊎ (change (hid i) ≢ none))
      → (slot : Option Slot) → change (hid i) ≡ slot
      → Reported hid id change before (answer_slot hid i before slot)
  unfolding answer_slot event_from_slot
  answer_slot-Reported i e either none c =
      (refl, inr (λ slot. elim (either slot) [ inl n ↦ n | inr ne ↦ absurd (ne c) ]))
  answer_slot-Reported i e either (some slot) c =
      let (p, q) = found hid id i e in
      (
        i,
        p,
        sym q,
        c ∙ ap some (sym (store_self hid i slot)),
        ground arith,
        subst (λ s. ReportOf s before (event_from_slot (slot_get_id i) slot before))
            (sym (store_self hid i slot)) (event_from_slot-ReportOf (slot_get_id i) slot before),
        λ j ne. store_ne hid i j slot ne,
      )

-- An event of a button sets its bit when it is pressed and clears it when it is released, and one
-- of an axis of 16 bits moves a stick to the value plus 32768 or a trigger to the value, at least
-- 0: in the slot of its gamepad, which alone changes. The report is that slot as it is afterwards:
-- fifteen bytes, as the descriptor announces. Nothing changes, and nothing is sent, only when no
-- slot holds the gamepad or the button or axis is not in the table.
pub reports_lem :
    (sdl : Sdl) (hid : Gamepads) (before : HidInput) (press : ButtonEvent) (move : AxisEvent)
    → pos_part move.value ≤ 32767
    → neg_part move.value ≤ 32768
    → Reported hid press.gamepad_id
        (pressed sdl press)
        before
        (generate_input_from_button sdl hid before press)
      × Reported hid move.gamepad_id
          (moved sdl move)
          before
          (generate_input_from_axis sdl hid before move)
unfolding generate_input_from_button button_at generate_input_from_axis axis_at
reports_lem sdl hid before press move h k = (
  pressing (is_outside press.button) refl (slot_find hid press.gamepad_id) refl,
  moving (slot_find hid move.gamepad_id) refl,
)
  where
    pressing :
        (b : Bool)
        → is_outside press.button ≡ b
        → (o : Option ℕ) → slot_find hid press.gamepad_id ≡ o
        → Reported hid press.gamepad_id
            (pressed sdl press)
            before
            (if b then (hid, none) else button_at sdl hid before press o)
    pressing true b o e = (refl, inr (pressed-outside sdl press b))
    pressing false b none e = absent-Reported hid press.gamepad_id (pressed sdl press) before e
    pressing false b (some i) e =
        answer_slot-Reported hid press.gamepad_id (pressed sdl press) before i e
          (λ slot. pressed_either sdl press slot (hid i)) (press_button sdl (hid i) press)
          (sym (press_button_lem sdl (hid i) press b))

    moving :
        (o : Option ℕ)
        → slot_find hid move.gamepad_id ≡ o
        → Reported hid move.gamepad_id (moved sdl move) before (axis_at sdl hid before move o)
    moving none e = absent-Reported hid move.gamepad_id (moved sdl move) before e
    moving (some i) e =
        answer_slot-Reported hid move.gamepad_id (moved sdl move) before i e
          (λ slot. moved_either sdl move slot (hid i)) (set_axis sdl (hid i) move.axis move.value)
          (sym (set_axis_lem sdl (hid i) move h k))
