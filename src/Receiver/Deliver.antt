-- ===== src/Receiver/Deliver.antt =====
-- The receiver hands every message on, once and in order, however the socket cuts the stream.
use cicy_agent_adr.Prelude.{ℕ, ◌≤◌, ◌≡◌, false, List, [], ◌++◌, length, map}
use cicy_agent_adr.DeviceMsg.{DeviceMsg}
use cicy_agent_adr.Receiver.{Peers, Effect, End, ended}
use cicy_agent_adr.Receiver.Split.{handled}

-- How far a run got: it ended without an error after handing on the first of the messages, in
-- order; and all of them, if the schedule has a round for each byte.
pub record Delivered (peers : Peers) (msgs : List DeviceMsg) (stream sizes : List ℕ)
    (out : List Effect × End) : Type 0 where
  pub done : List DeviceMsg
  pub pending : List DeviceMsg
  pub parts : msgs ≡ done ++ pending
  pub result : out ≡ (map (handled peers) done, ended false)
  pub complete : length stream ≤ length sizes → pending ≡ []
