-- ===== src/Hid/Keyboard/Report.antt =====
-- What the reports of hid_keyboard.c hold.
use cicy_agent_adr.Prelude.{
  ℕ, ◌+◌, ◌≤◌, ◌<◌, ◌≡◌, ◌==◌, inl, inr, refl, ap₂, ◌∙◌, Bool, true, false, Option, none, some, ◌∷◌,
  arith, leb, ltb, not, if◌then◌else◌, ◌&&◌,
}
use cicy_agent_adr.Prelude.Memory.{
  Buffer, store, memset, slice, memset_inside, memset_outside, store_ne,
}
use cicy_agent_adr.Binary.{u8}
use cicy_agent_adr.Hid.{HidInput}
use cicy_agent_adr.Hid.Descriptor.{input_bytes}
use cicy_agent_adr.Hid.Keyboard.{
  Sdl, Keys, KeyEvent, keyboard_keys, keyboard_id, keyboard_input_size, keyboard_report_desc,
  generate_input_from_key, press_key, keys_report, scancode_is_modifier, keyboard_input_init,
  hid_mod_from_sdl_keymod,
}
use cicy_agent_adr.Hid.Keyboard.Fill.{pressed_keys, key_bytes, fill_outside, fill_slice}

-- A report of the keys and the modifiers: the size is the one that the descriptor announces, the
-- bytes are the modifiers, the reserved byte and the keys, and no byte is written behind them.
abbrev pub IsReport : Keys → ℕ → HidInput → HidInput → Type 0
IsReport keys mods before report =
    (report.hid_id ≡ keyboard_id)
    × (report.size ≡ input_bytes keyboard_report_desc)
    × (slice report.data_bytes 0 report.size
        ≡ mods ∷ 0 ∷ key_bytes (pressed_keys keys 0 keyboard_keys))
    × ((k : ℕ) → report.data_bytes (report.size + k) ≡ before.data_bytes (report.size + k))

-- What an event is answered with.
abbrev pub Answered : Sdl → Keys → HidInput → KeyEvent → Keys × Option HidInput → Type 0
Answered sdl keys before event (keys', none) =
    (keyboard_keys ≤ event.scancode)
    × (scancode_is_modifier sdl event.scancode ≡ false)
    × (keys' ≡ keys)
Answered sdl keys before event (keys', some report) =
    ((k : ℕ)
      → keys' k ≡ (if k == event.scancode && ltb k keyboard_keys then event.down else keys k))
    × IsReport keys' (u8 (hid_mod_from_sdl_keymod sdl event.mods_state)) before report

-- The bytes before the loop over the keys.
with_mods : HidInput → ℕ → Buffer
unfolding keyboard_input_init
with_mods before mods = store (keyboard_input_init before).data_bytes 0 (u8 mods)

module _ (before : HidInput) (mods : ℕ) where
  with_mods_keys : (j : ℕ) → 2 ≤ j → j < 8 → with_mods before mods j ≡ 0
  unfolding with_mods keyboard_input_init
  with_mods_keys j p q =
      store_ne (keyboard_input_init before).data_bytes 0 j (u8 mods) (λ e. omega (arith, e))
      ∙ memset_inside (store (store before.data_bytes 0 0) 1 0) 2 0 6 j p q

  with_mods_after : (j : ℕ) → 8 ≤ j → with_mods before mods j ≡ before.data_bytes j
  unfolding with_mods keyboard_input_init
  with_mods_after j p =
      store_ne (keyboard_input_init before).data_bytes 0 j (u8 mods) (λ e. omega (arith, e))
      ∙ memset_outside (store (store before.data_bytes 0 0) 1 0) 2 0 6 j (inr p)
      ∙ store_ne (store before.data_bytes 0 0) 1 j 0 (λ e. omega (arith, e))
      ∙ store_ne before.data_bytes 0 j 0 (λ e. omega (arith, e))

  with_mods_first : with_mods before mods 0 ≡ u8 mods
  unfolding with_mods
  with_mods_first = refl

  with_mods_second : with_mods before mods 1 ≡ 0
  unfolding with_mods keyboard_input_init memset
  with_mods_second = refl

  keyboard_report_size : keyboard_input_size ≡ input_bytes keyboard_report_desc
  unfolding input_bytes keyboard_report_desc
  keyboard_report_size = refl

  keys_report-IsReport :
      (keys : Keys) → IsReport keys (u8 mods) before (keys_report keys mods before)
  unfolding keys_report with_mods keyboard_input_init slice
  keys_report-IsReport keys = (
    refl,
    keyboard_report_size,
    ap₂ ◌∷◌
        (fill_outside keys keyboard_keys (with_mods before mods) (omega arith) 0 (inl (omega arith))
          ∙ with_mods_first)
        (ap₂ ◌∷◌
          (fill_outside keys keyboard_keys (with_mods before mods) (omega arith) 1
              (inl (omega arith))
            ∙ with_mods_second)
          (fill_slice keys keyboard_keys (with_mods before mods) (omega arith) with_mods_keys)),
    λ k.
        fill_outside keys keyboard_keys (with_mods before mods) (omega arith) (8 + k)
          (inr (omega arith))
        ∙ with_mods_after (8 + k) (omega arith),
  )

module _ (keys : Keys) (event : KeyEvent) where
  press_key_lem :
      (k : ℕ)
      → press_key keys event k
        ≡ (if k == event.scancode && ltb k keyboard_keys then event.down else keys k)
  unfolding press_key
  press_key_lem k = ground arith

-- A key event is answered by a report of the size that the descriptor announces: the modifiers, a
-- zero, and the pressed keys as they are after the event, in order and padded with zeros, or six
-- times the roll-over error when they are more than six; nothing is written behind it. When the
-- scancode is neither in the table of keys nor a modifier, there is no report and no key changes.
pub keyboard_report_lem :
    (sdl : Sdl) (keys : Keys) (before : HidInput) (event : KeyEvent)
    → Answered sdl keys before event (generate_input_from_key sdl keys before event)
unfolding generate_input_from_key
keyboard_report_lem sdl keys before event =
    branch (leb keyboard_keys event.scancode && not (scancode_is_modifier sdl event.scancode)) refl
  where
    branch :
        (b : Bool)
        → leb keyboard_keys event.scancode && not (scancode_is_modifier sdl event.scancode) ≡ b
        → Answered sdl keys before event (
            if b then (keys, none) else (
              press_key keys event,
              some (
                  keys_report
                    (press_key keys event)
                    (hid_mod_from_sdl_keymod sdl event.mods_state)
                    before),
            ))
    branch true e = (ground arith, ground arith, refl)
    branch false e = (
      press_key_lem keys event,
      keys_report-IsReport before (hid_mod_from_sdl_keymod sdl event.mods_state)
          (press_key keys event),
    )
