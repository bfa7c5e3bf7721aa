-- ===== src/Receiver.antt =====
-- The receiver thread, scrcpy/app/src/receiver.c: it gathers the bytes of the control socket in a
-- buffer, takes the complete messages off its front and hands each one on.
pub mod Split
pub mod Deliver
mod Tests
use cicy_agent_adr.Prelude.{
  ℕ, zero, suc, ◌+◌, ◌-◌, Bool, true, false, ◌&&◌, Option, none, some, List, [], ◌∷◌, ◌++◌, length,
  take, drop, min, ltb, ◌==◌, if◌then◌else◌,
}
use cicy_agent_adr.Prelude.Memory.{Buffer, offset, memcpy, slice}
use cicy_agent_adr.DeviceMsg.{
  DeviceMsg, clipboard, ack_clipboard, uhid_output, incomplete, failed, message, Alloc, deserialize,
  max_size,
}

-- What `process_msg` does with a message: the task that it posts to the main thread, the call of
-- `sc_acksync_ack`, the logged error, or nothing when an allocation or the post fails.
pub data Effect : Type 0 where
  post_clipboard : List ℕ → Effect
  ack : ℕ → Effect
  post_uhid_output : ℕ → List ℕ → Effect
  unexpected : Effect
  dropped : Effect

-- What the receiver depends on: whether `sc_controller_configure` set the two pointers, whether
-- `malloc` returns a block, and whether `sc_post_to_main_thread` accepts a task.
pub record Peers : Type 0 where
  pub acksync : Bool
  pub uhid_devices : Bool
  pub alloc : Alloc
  pub post : Effect → Bool

-- `sizeof(struct sc_uhid_output_task_data)` on a 64-bit platform.
abbrev pub task_data_size : ℕ
task_data_size = 24

abbrev pub posted : Peers → Effect → Effect
posted peers task = if peers.post task then task else dropped

-- The case of a UHID output message.
abbrev pub uhid_effect : Peers → ℕ → List ℕ → Effect
uhid_effect peers id payload =
    if peers.uhid_devices
    then (if peers.alloc task_data_size
        then posted peers (post_uhid_output id payload)
        else dropped)
    else unexpected

-- `none` is the failed `assert(receiver->acksync)`.
unfoldable pub process_msg : Peers → DeviceMsg → Option Effect
process_msg peers (clipboard text) = some (posted peers (post_clipboard text))
process_msg peers (ack_clipboard sequence) = if peers.acksync then some (ack sequence) else none
process_msg peers (uhid_output id payload) = some (uhid_effect peers id payload)

-- How `process_msgs` ends: the bytes consumed, -1, or a failed assertion.
-- `stuck` is no end of the source: the fuel ran out.
pub data Processed : Type 0 where
  consumed : ℕ → Processed
  broken : Processed
  asserted : Processed
  stuck : Processed

module _ (peers : Peers) where
  -- The loop of `process_msgs`. Each round but the last consumes bytes.
  unfoldable pub process_msgs : ℕ → Buffer → ℕ → ℕ → List Effect × Processed
  process_msgs zero buf head len = ([], stuck)
  process_msgs (suc fuel) buf head len =
      elim (deserialize peers.alloc (offset buf head) (len - head)) [
        | failed ↦ ([], broken)
        | incomplete ↦ ([], consumed head)
        | message msg r ↦
            let (effects, end) = process_msgs fuel buf (head + r) len in
            elim (process_msg peers msg) [
              | none ↦ ([], asserted)
              | some first ↦
                  if ltb len (head + r)
                  then (first ∷ [], asserted)
                  else if head + r == len
                  then (first ∷ [], consumed (head + r))
                  else (first ∷ effects, end)
            ]
      ]

-- How the thread ends: what `on_ended` is told, or a failed assertion.
pub data End : Type 0 where
  ended : (error : Bool) → End
  aborted : End
  no_end : End

-- `net_recv` with room for `room` bytes: the scheduler decides that `k + 1` bytes of the stream
-- are there. Nothing left of the stream is a closed connection.
abbrev pub received : ℕ → ℕ → List ℕ → List ℕ
received k room stream = take (min (suc k) room) stream

module _ (peers : Peers) where
  -- One round after bytes have come: the messages are processed, and the rest moved to the front.
  -- The loop goes on with `next`.
  unfoldable pub after_recv : (Buffer → ℕ → List Effect × End) → Buffer → ℕ → List Effect × End
  after_recv next buf head =
      let (effects, end) = process_msgs peers (suc head) buf 0 head in
      elim end [
        | broken ↦ (effects, ended true)
        | asserted ↦ (effects, aborted)
        | stuck ↦ (effects, no_end)
        | consumed n ↦
            let rest = head - n in
            let moved = if n == 0 then buf else memcpy buf 0 (slice buf n rest) in
            let (more, e) = next moved rest in (effects ++ more, e)
      ]

  -- `run_receiver`, over the sizes that the scheduler chooses and the bytes still to come. When
  -- the schedule is over, `net_recv` reports the end of the connection.
  unfoldable pub run_receiver : List ℕ → List ℕ → Buffer → ℕ → List Effect × End
  run_receiver [] stream buf head = if ltb head max_size then ([], ended false) else ([], aborted)
  run_receiver (k ∷ sizes) stream buf head =
      let chunk = received k (max_size - head) stream in
      let next = run_receiver sizes (drop (length chunk) stream) in
      let round = after_recv next (memcpy buf head chunk) (head + length chunk) in
      if ltb head max_size
      then (if length chunk == 0 then ([], ended false) else round)
      else ([], aborted)
