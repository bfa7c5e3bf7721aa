-- ===== src/DeviceMsg.antt =====
-- Device messages, scrcpy/app/src/device_msg.h and device_msg.c.
pub mod Fields
pub mod Stream
pub mod Uhid
mod Tests
use cicy_agent_adr.Prelude.{
  ℕ, ◌+◌, ◌-◌, ◌^◌, Bool, true, false, Option, List, ltb, ◌==◌, if◌then◌else◌,
}
use cicy_agent_adr.Prelude.Memory.{Buffer, offset, slice}
use cicy_agent_adr.Binary.{read16be, read32be, read64be}

-- DEVICE_MSG_MAX_SIZE
abbrev pub max_size : ℕ
max_size = 2 ^ 18

abbrev pub text_max_length : ℕ
text_max_length = max_size - 5

pub data DeviceMsg : Type 0 where
  clipboard : (text : List ℕ) → DeviceMsg
  ack_clipboard : (sequence : ℕ) → DeviceMsg
  uhid_output : (id : ℕ) (payload : List ℕ) → DeviceMsg

-- What `sc_device_msg_deserialize` returns: 0, -1, or the message and the bytes consumed.
pub data Outcome : Type 0 where
  incomplete : Outcome
  failed : Outcome
  message : DeviceMsg → ℕ → Outcome

-- `malloc(n)` as the environment decides it: whether it returns a block.
abbrev pub Alloc : Type 0
Alloc = ℕ → Bool

unfoldable pub deserialize_clipboard : Alloc → Buffer → ℕ → Outcome
deserialize_clipboard alloc buf len =
    if ltb len 5
    then incomplete
    else let clipboard_len = read32be (offset buf 1) in
      if ltb (len - 5) clipboard_len
      then incomplete
      else if alloc (clipboard_len + 1)
      then message (clipboard (slice buf 5 clipboard_len)) (5 + clipboard_len)
      else failed

unfoldable pub deserialize_ack : Buffer → ℕ → Outcome
deserialize_ack buf len =
    if ltb len 9 then incomplete else message (ack_clipboard (read64be (offset buf 1))) 9

-- The test is the one of the source, `size < len - 5`.
unfoldable pub deserialize_uhid : Alloc → Buffer → ℕ → Outcome
deserialize_uhid alloc buf len =
    if ltb len 5
    then incomplete
    else let size = read16be (offset buf 3) in
      if ltb size (len - 5)
      then incomplete
      else if alloc size
      then message (uhid_output (read16be (offset buf 1)) (slice buf 5 size)) (5 + size)
      else failed

unfoldable pub deserialize : Alloc → Buffer → ℕ → Outcome
deserialize alloc buf len =
    if len == 0
    then incomplete
    else if buf 0 == 0
    then deserialize_clipboard alloc buf len
    else if buf 0 == 1
    then deserialize_ack buf len
    else if buf 0 == 2
    then deserialize_uhid alloc buf len
    else failed
