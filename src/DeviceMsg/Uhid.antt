-- ===== src/DeviceMsg/Uhid.antt =====
-- `sc_device_msg_deserialize` on a UHID output message, whose completeness test is
-- `size < len - 5`.
use cicy_agent_adr.Prelude.{ℕ, ◌+◌, ◌^◌, ◌≤◌, ◌<◌, ◌≡◌, ◌∙◌, List, ◌++◌, length, arith}
use cicy_agent_adr.Prelude.Memory.{Buffer, slice}
use cicy_agent_adr.DeviceMsg.{
  uhid_output, incomplete, message, Alloc, deserialize, deserialize_uhid,
}
use cicy_agent_adr.DeviceMsg.Fields.{Holds, byte_at, bytes_at, take-length-append, word_fields}
use cicy_agent_adr.DeviceMsg.Stream.{wire, Succeeds}

module _ (alloc : Alloc) (ok : Succeeds alloc) (id : ℕ) (payload rest : List ℕ) where
  uhid_fields :
      (buf : Buffer) (len : ℕ)
      → id < 2 ^ 16
      → length payload < 2 ^ 16
      → Holds buf len (wire (uhid_output id payload) ++ rest)
      → 5 ≤ len
      → (len ≡ 5 + length payload
          → deserialize_uhid alloc buf len ≡ message (uhid_output id payload) (5 + length payload))
        × (5 + length payload < len → deserialize_uhid alloc buf len ≡ incomplete)
        × (len < 5 + length payload
            → deserialize_uhid alloc buf len
              ≡ message (uhid_output id (slice buf 5 (length payload))) (5 + length payload))
  unfolding deserialize_uhid
  uhid_fields buf len hi hp e l =
      let f = word_fields buf len 2 (payload ++ rest) id (length payload) hi hp l e in
      (
        λ q.
            let body : slice buf 5 (length payload) ≡ payload =
              bytes_at buf len (wire (uhid_output id payload) ++ rest) 5 (length payload) e
                (omega arith)
              ∙ take-length-append payload rest in
            ground (arith, f, body, ok (length payload)),
        λ q. ground (arith, f),
        λ q. ground (arith, f, ok (length payload)),
      )

  -- On a buffer that starts with at least the header of a UHID output message, and with `len`
  -- bytes of it and of what follows it: if `len` is exactly the size of the message, it is
  -- returned with its size; if more bytes follow, the message is taken for an incomplete one; if
  -- bytes are still missing, a message of the announced size is returned all the same, read from
  -- the buffer past `len`, and more bytes than `len` are reported as consumed.
  pub uhid_framing :
      (buf : Buffer) (len : ℕ)
      → id < 2 ^ 16
      → length payload < 2 ^ 16
      → Holds buf len (wire (uhid_output id payload) ++ rest)
      → 5 ≤ len
      → (len ≡ 5 + length payload
          → deserialize alloc buf len ≡ message (uhid_output id payload) (5 + length payload))
        × (5 + length payload < len → deserialize alloc buf len ≡ incomplete)
        × (len < 5 + length payload
            → deserialize alloc buf len
              ≡ message (uhid_output id (slice buf 5 (length payload))) (5 + length payload))
  unfolding deserialize
  uhid_framing buf len hi hp e l =
      let tag : buf 0 ≡ 2 =
        byte_at buf len (wire (uhid_output id payload) ++ rest) 0 e (omega arith) in
      let (exact, longer, shorter) = uhid_fields buf len hi hp e l in
      (
        λ q. ground (arith, tag, exact q),
        λ q. ground (arith, tag, longer q),
        λ q. ground (arith, tag, shorter q),
      )
