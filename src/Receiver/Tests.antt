-- ===== src/Receiver/Tests.antt =====
-- Concrete runs of the receiver.
use cicy_agent_adr.Prelude.{ℕ, ◌≡◌, refl, ◌∷◌, [], ◌++◌, List, true, false}
use cicy_agent_adr.Prelude.Memory.{Buffer, memcpy, slice}
use cicy_agent_adr.Binary.{read32be, read64be, read16be}
use cicy_agent_adr.DeviceMsg.{
  DeviceMsg, clipboard, ack_clipboard, uhid_output, deserialize, deserialize_clipboard,
  deserialize_ack, deserialize_uhid,
}
use cicy_agent_adr.DeviceMsg.Stream.{wire}
use cicy_agent_adr.Receiver.{
  Peers, post_clipboard, ack, ended, process_msg, process_msgs, after_recv, run_receiver,
}
use cicy_agent_adr.Receiver.Split.{wires}

abbrev peers : Peers
peers = record { acksync = true; uhid_devices = true; alloc = λ n. true; post = λ t. true }

abbrev msgs : List DeviceMsg
msgs = clipboard (104 ∷ []) ∷ ack_clipboard 3 ∷ []

abbrev blank : Buffer
blank _ = 7

-- Four bytes, then ten, then the rest.
abbrev sizes : List ℕ
sizes = 3 ∷ 9 ∷ 99 ∷ []

run_receiver_runs :
    run_receiver peers sizes (wires msgs) blank 0
    ≡ (post_clipboard (104 ∷ []) ∷ ack 3 ∷ [], ended false)
unfolding run_receiver after_recv process_msgs process_msg deserialize deserialize_clipboard
    deserialize_ack read32be read64be slice memcpy
run_receiver_runs = refl

-- A UHID output message with another message behind it in the same buffer is not handed on.
uhid_stuck :
    run_receiver peers (99 ∷ []) (wire (uhid_output 1 (2 ∷ [])) ++ wire (ack_clipboard 3)) blank 0
    ≡ ([], ended false)
unfolding run_receiver after_recv process_msgs process_msg deserialize deserialize_uhid read16be
    slice memcpy
uhid_stuck = refl
