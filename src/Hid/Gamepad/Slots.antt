-- ===== src/Hid/Gamepad/Slots.antt =====
-- Opening and closing gamepads: what `sc_hid_gamepad_slot_find` says before and after.
use cicy_agent_adr.Prelude.{
  ℕ, zero, suc, ◌+◌, ◌≤◌, ◌<◌, ◌≡◌, ◌≢◌, refl, sym, ap, ap₂, ◌∙◌, true, false, none, some, arith,
  ◌==◌, if◌then◌else◌,
}
use cicy_agent_adr.Prelude.Memory.{store, store_ne, store_self}
use native.Mathlib.Decide.{ℕ_discrete}
use mathlib.Core.Option.{some-injective, none-ne-some}
use cicy_agent_adr.Hid.Gamepad.{Slot, Gamepads, slot_find_from}

module _ (hid : Gamepads) (id i n : ℕ) where
  find_here : id ≡ (hid i).gamepad_id → slot_find_from hid id i (suc n) ≡ some i
  unfolding slot_find_from
  find_here h = let t : id == (hid i).gamepad_id ≡ true = ground arith in rw t

  find_later :
      id ≢ (hid i).gamepad_id → slot_find_from hid id i (suc n) ≡ slot_find_from hid id (i + 1) n
  unfolding slot_find_from
  find_later h = let t : id == (hid i).gamepad_id ≡ false = ground arith in rw t

-- The search is right about the slot that it finds.
pub find_some :
    (hid : Gamepads) (id i n k : ℕ)
    → slot_find_from hid id i n ≡ some k
    → (i ≤ k) × (k < i + n) × (id ≡ (hid k).gamepad_id)
unfolding slot_find_from
find_some hid id i zero k e = absurd (none-ne-some k e)
find_some hid id i (suc n) k e = elim (ℕ_discrete id (hid i).gamepad_id) [
  | yes here ↦
      let same : i ≡ k = some-injective i k (sym (find_here hid id i n here) ∙ e) in
      (omega arith, omega arith, here ∙ ap (λ j. (hid j).gamepad_id) same)
  | no later ↦
      let (p, q, r) = find_some hid id (i + 1) n k (sym (find_later hid id i n later) ∙ e) in
      (omega arith, omega arith, r)
]

-- What it does not find is in no slot.
pub find_none :
    (hid : Gamepads) (id i n j : ℕ)
    → slot_find_from hid id i n ≡ none
    → i ≤ j
    → j < i + n
    → id ≢ (hid j).gamepad_id
unfolding slot_find_from
find_none hid id i zero j e p q h = absurd (omega arith)
find_none hid id i (suc n) j e p q h = elim (ℕ_discrete id (hid i).gamepad_id) [
  | yes here ↦ none-ne-some i (sym e ∙ find_here hid id i n here)
  | no later ↦ elim (ℕ_discrete i j) [
    | yes same ↦ later (h ∙ ap (λ t. (hid t).gamepad_id) (sym same))
    | no other ↦
        find_none hid id (i + 1) n j (sym (find_later hid id i n later) ∙ e) (omega arith)
          (omega arith) h
  ]
]

-- The search depends on the tests only.
pub find_congr :
    (hid hid' : Gamepads) (id i n : ℕ)
    → ((j : ℕ) → (id == (hid' j).gamepad_id) ≡ (id == (hid j).gamepad_id))
    → slot_find_from hid' id i n ≡ slot_find_from hid id i n
unfolding slot_find_from
find_congr hid hid' id i zero h = refl
find_congr hid hid' id i (suc n) h =
    ap₂ (λ b r. if b then some i else r) (h i) (find_congr hid hid' id (i + 1) n h)

-- A slot that takes an id found nowhere is the one found for it.
pub find_stored :
    (hid : Gamepads) (id i n k : ℕ) (slot : Slot)
    → slot.gamepad_id ≡ id
    → slot_find_from hid id i n ≡ none
    → i ≤ k
    → k < i + n
    → slot_find_from (store hid k slot) id i n ≡ some k
unfolding slot_find_from
find_stored hid id i zero k slot s e p q = absurd (omega arith)
find_stored hid id i (suc n) k slot s e p q = elim (ℕ_discrete i k) [
  | yes same ↦
      find_here (store hid k slot) id i n
        (sym s ∙ ap gamepad_id_of (sym (store_self hid k slot) ∙ ap (store hid k slot) (sym same)))
      ∙ ap some same
  | no other ↦
      let absent = find_none hid id i (suc n) i e (omega arith) (omega arith) in
      find_later (store hid k slot) id i n
        (λ h. absent (h ∙ ap gamepad_id_of (store_ne hid k i slot other)))
      ∙ find_stored hid id (i + 1) n k slot s (sym (find_later hid id i n absent) ∙ e) (omega arith)
          (omega arith)
]
  where
    gamepad_id_of : Slot → ℕ
    gamepad_id_of slot = slot.gamepad_id
