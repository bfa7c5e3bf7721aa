-- ===== src/DeviceMsg/Tests.antt =====
-- Concrete device messages.
use cicy_agent_adr.Prelude.{ℕ, ◌+◌, ◌<◌, ◌≡◌, refl, arith, length, ◌∷◌, [], ◌++◌, true}
use cicy_agent_adr.Prelude.Memory.{Buffer, of_list, slice}
use cicy_agent_adr.DeviceMsg.{
  DeviceMsg, clipboard, ack_clipboard, uhid_output, incomplete, message, Alloc, deserialize,
  deserialize_clipboard,
}
use cicy_agent_adr.Binary.{read32be}
use cicy_agent_adr.DeviceMsg.Fields.{Holds}
use cicy_agent_adr.DeviceMsg.Stream.{wire, deserialize_whole, deserialize_part}
use cicy_agent_adr.DeviceMsg.Uhid.{uhid_framing}

abbrev always : Alloc
always n = true

abbrev hello : DeviceMsg
hello = clipboard (104 ∷ 105 ∷ [])

abbrev ack_first : DeviceMsg
ack_first = ack_clipboard 0x0102

abbrev leds : DeviceMsg
leds = uhid_output 1 (2 ∷ [])

-- A clipboard text, then an acknowledgement.
abbrev two : Buffer
two = of_list (wire hello ++ wire ack_first)

two-Holds : Holds two 12 (wire hello ++ wire ack_first)
unfolding slice
two-Holds = record { fits = omega arith; bytes = refl }

part-Holds : Holds two 6 (wire hello ++ wire ack_first)
unfolding slice
part-Holds = record { fits = omega arith; bytes = refl }

deserialize_runs : deserialize always two 12 ≡ message hello 7
unfolding deserialize deserialize_clipboard read32be slice
deserialize_runs = refl

deserialize_whole_example : deserialize always two 12 ≡ message hello 7
deserialize_whole_example =
    deserialize_whole always (λ n. refl) hello (wire ack_first) two 12 (omega arith) two-Holds
      (omega arith)

deserialize_part_example : deserialize always two 6 ≡ incomplete
deserialize_part_example =
    deserialize_part always hello (wire ack_first) two 6 (omega arith) part-Holds (omega arith)

-- A UHID output message with an acknowledgement behind it.
abbrev leds_then_ack : Buffer
leds_then_ack = of_list (wire leds ++ wire ack_first)

leds-Holds : Holds leds_then_ack 15 (wire leds ++ wire ack_first)
unfolding slice
leds-Holds = record { fits = omega arith; bytes = refl }

uhid_framing_example :
    (◌≡◌ {A = ℕ} 15 (5 + length {A = ℕ} (2 ∷ []))
      → deserialize always leds_then_ack 15 ≡ message leds (5 + length {A = ℕ} (2 ∷ [])))
    × (5 + length {A = ℕ} (2 ∷ []) < 15 → deserialize always leds_then_ack 15 ≡ incomplete)
    × (15 < 5 + length {A = ℕ} (2 ∷ [])
        → deserialize always leds_then_ack 15
          ≡ message
              (uhid_output 1 (slice leds_then_ack 5 (length {A = ℕ} (2 ∷ []))))
              (5 + length {A = ℕ} (2 ∷ [])))
uhid_framing_example =
    uhid_framing always (λ n. refl) 1 (2 ∷ []) (wire ack_first) leds_then_ack 15 (omega arith)
      (omega arith) leds-Holds (omega arith)
