-- ===== src/DeviceMsg/Stream.antt =====
-- `sc_device_msg_deserialize` on the bytes of a clipboard text or an acknowledgement, whole or
-- cut short.
use cicy_agent_adr.Prelude.{ℕ, ◌+◌, ◌^◌, ◌≤◌, ◌<◌, ◌≡◌, ◌∙◌, true, List, ◌∷◌, ◌++◌, length, arith}
use cicy_agent_adr.Prelude.Memory.{Buffer, offset, slice}
use cicy_agent_adr.Binary.{be16, be32, be64, read32be}
use cicy_agent_adr.DeviceMsg.{
  DeviceMsg, clipboard, ack_clipboard, uhid_output, incomplete, message, Alloc, deserialize,
  deserialize_clipboard, deserialize_ack, text_max_length,
}
use cicy_agent_adr.DeviceMsg.Fields.{
  Holds, byte_at, bytes_at, take-length-append, length_field, sequence_field,
}

-- The bytes of a message, as the server writes them.
abbrev pub wire : DeviceMsg → List ℕ
wire (clipboard text) = 0 ∷ (be32 (length text) ++ text)
wire (ack_clipboard sequence) = 1 ∷ be64 sequence
wire (uhid_output id payload) = 2 ∷ (be16 id ++ (be16 (length payload) ++ payload))

-- Texts that fit a message, and acknowledgements.
abbrev pub IsFramed : DeviceMsg → Type 0
IsFramed (clipboard text) = length text ≤ text_max_length
IsFramed (ack_clipboard sequence) = sequence < 2 ^ 64
IsFramed (uhid_output _ _) = ⊥

abbrev pub Succeeds : Alloc → Type 0
Succeeds alloc = (n : ℕ) → alloc n ≡ true

module _ (alloc : Alloc) (ok : Succeeds alloc) where
  clipboard_whole :
      (text rest : List ℕ) (buf : Buffer) (len : ℕ)
      → length text ≤ text_max_length
      → Holds buf len (wire (clipboard text) ++ rest)
      → 5 + length text ≤ len
      → deserialize_clipboard alloc buf len ≡ message (clipboard text) (5 + length text)
  unfolding deserialize_clipboard
  clipboard_whole text rest buf len h e l =
      let field : read32be (offset buf 1) ≡ length text =
        length_field buf len 0 (text ++ rest) (length text) (omega arith) (omega arith) e in
      let body : slice buf 5 (length text) ≡ text =
        bytes_at buf len (wire (clipboard text) ++ rest) 5 (length text) e (omega arith)
        ∙ take-length-append text rest in
      ground (arith, field, body, ok (length text + 1))

  -- Where the allocations succeed, a buffer that holds a whole framed message, whatever follows
  -- it, gives that message and its size.
  pub deserialize_whole :
      (msg : DeviceMsg) (rest : List ℕ) (buf : Buffer) (len : ℕ)
      → IsFramed msg
      → Holds buf len (wire msg ++ rest)
      → length (wire msg) ≤ len
      → deserialize alloc buf len ≡ message msg (length (wire msg))
  unfolding deserialize deserialize_ack
  deserialize_whole (clipboard text) rest buf len h e l =
      let tag : buf 0 ≡ 0 = byte_at buf len (wire (clipboard text) ++ rest) 0 e (omega arith) in
      ground (arith, tag, clipboard_whole text rest buf len h e (omega arith))
  deserialize_whole (ack_clipboard sequence) rest buf len h e l =
      let tag : buf 0 ≡ 1 =
        byte_at buf len (wire (ack_clipboard sequence) ++ rest) 0 e (omega arith) in
      ground (arith, tag, sequence_field buf len 1 rest sequence h (omega arith) e)
  deserialize_whole (uhid_output id payload) rest buf len h e l = absurd h

module _ (alloc : Alloc) where
  clipboard_part :
      (text rest : List ℕ) (buf : Buffer) (len : ℕ)
      → length text ≤ text_max_length
      → Holds buf len (wire (clipboard text) ++ rest)
      → len < 5 + length text
      → deserialize_clipboard alloc buf len ≡ incomplete
  unfolding deserialize_clipboard
  clipboard_part text rest buf len h e l = ground (
    arith,
    λ (p : 5 ≤ len). length_field buf len 0 (text ++ rest) (length text) (omega arith) p e,
  )

  -- A buffer that holds a proper front part of a framed message gives no message yet.
  pub deserialize_part :
      (msg : DeviceMsg) (rest : List ℕ) (buf : Buffer) (len : ℕ)
      → IsFramed msg
      → Holds buf len (wire msg ++ rest)
      → len < length (wire msg)
      → deserialize alloc buf len ≡ incomplete
  unfolding deserialize deserialize_ack
  deserialize_part (clipboard text) rest buf len h e l = ground (
    arith,
    λ (p : 0 < len). byte_at buf len (wire (clipboard text) ++ rest) 0 e p,
    clipboard_part text rest buf len h e (omega arith),
  )
  deserialize_part (ack_clipboard sequence) rest buf len h e l =
      ground (arith, λ (p : 0 < len). byte_at buf len (wire (ack_clipboard sequence) ++ rest) 0 e p)
  deserialize_part (uhid_output id payload) rest buf len h e l = absurd h
