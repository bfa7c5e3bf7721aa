-- ===== src/Demuxer/Wire.antt =====
-- The packets of a stream as the device writes them, and how the demuxer reads them back.
use cicy_agent_adr.Prelude.{
  ℕ, ◌+◌, ◌-◌, ◌/◌, ◌%◌, ◌^◌, ◌<◌, ◌≡◌, ◌≢◌, refl, ap, ap₂, ◌∙◌, Bool, true, false, Option, none,
  some, List, ◌++◌, length, length-append, length-take, take-append_front, drop-append_front,
  take-append_past, take, leb, ◌==◌, arith, if◌then◌else◌,
}
use native.Mathlib.Decide.{dec_lt}
use cicy_agent_adr.Prelude.Memory.{offset, of_list}
use cicy_agent_adr.Binary.{be32, be64, read32be, read64be}
use cicy_agent_adr.DeviceMsg.Fields.{read32be_bytes}
use cicy_agent_adr.PacketMerger.{Packet, Alloc}
use cicy_agent_adr.Demuxer.Receive.{
  recv_all, recv_body, recv_packet, header_size, packet_of, end_of_stream, received,
}

-- The flags and the timestamp of a packet in its first eight bytes.
abbrev pub flags : Option ℕ → Bool → ℕ
flags none key = 2 ^ 63 + (if key then 2 ^ 62 else 0)
flags (some pts) key = pts + (if key then 2 ^ 62 else 0)

-- The bytes of a packet, as the device writes them.
abbrev pub wire : Packet → List ℕ
wire packet = (be64 (flags packet.pts packet.key) ++ be32 (length packet.payload)) ++ packet.payload

abbrev IsPts : Option ℕ → Type 0
IsPts none = Unit {0}
IsPts (some pts) = pts < 2 ^ 62

-- A packet that has such bytes.
pub record IsWire (packet : Packet) : Type 0 where
  pub timestamp : IsPts packet.pts
  pub not_empty : 0 < length packet.payload
  pub fits : length packet.payload < 2 ^ 32

packet_of-flags :
    (pts : Option ℕ) (key : Bool) (payload : List ℕ)
    → IsPts pts
    → packet_of (flags pts key) payload ≡ record { pts = pts; key = key; payload = payload }
unfolding packet_of
packet_of-flags none true payload h = refl
packet_of-flags none false payload h = refl
packet_of-flags (some t) true payload h =
    let a : ((t + 2 ^ 62) / 2 ^ 63 % 2 == 1) ≡ false = ground (arith, h) in
    let b : ((t + 2 ^ 62) / 2 ^ 62 % 2 == 1) ≡ true = ground (arith, h) in
    let c : (t + 2 ^ 62) % 2 ^ 62 ≡ t = omega (arith, h) in rw (a, b, c)
packet_of-flags (some t) false payload h =
    let a : ((t + 0) / 2 ^ 63 % 2 == 1) ≡ false = ground (arith, h) in
    let b : ((t + 0) / 2 ^ 62 % 2 == 1) ≡ false = ground (arith, h) in
    let c : (t + 0) % 2 ^ 62 ≡ t = omega (arith, h) in rw (a, b, c)

flags_bound : (pts : Option ℕ) (key : Bool) → IsPts pts → flags pts key < 2 ^ 64
flags_bound none true h = omega arith
flags_bound none false h = omega arith
flags_bound (some t) true h = omega (arith, h)
flags_bound (some t) false h = omega (arith, h)

pub read32be_lem : (v : ℕ) (rest : List ℕ) → v < 2 ^ 32 → read32be (of_list (be32 v ++ rest)) ≡ v
read32be_lem v rest h = read32be_bytes (of_list (be32 v ++ rest)) v h refl refl refl refl

read64be_lem : (v : ℕ) (rest : List ℕ) → v < 2 ^ 64 → read64be (of_list (be64 v ++ rest)) ≡ v
unfolding read64be
read64be_lem v rest h =
    let hi : read32be (of_list (be64 v ++ rest)) ≡ v / 2 ^ 32 =
      read32be_bytes (of_list (be64 v ++ rest)) (v / 2 ^ 32) (omega (arith, h)) (omega arith)
        (omega arith) (omega arith) refl in
    let lo : read32be (offset (of_list (be64 v ++ rest)) 4) ≡ v % 2 ^ 32 =
      read32be_bytes (offset (of_list (be64 v ++ rest)) 4) (v % 2 ^ 32) (omega arith) (omega arith)
        (omega arith) (omega arith) (omega arith) in
    omega (arith, hi, lo)

-- A read of what is there, and a read behind the end.
pub recv_all_front :
    (n : ℕ) (xs ys : List ℕ) → n ≡ length xs → recv_all n (xs ++ ys) ≡ some (xs, ys)
unfolding recv_all
recv_all_front n xs ys e =
    let enough : leb n (length (xs ++ ys)) ≡ true = ground (arith, e, length-append xs ys) in
    rw (enough, e, take-append_front xs ys, drop-append_front xs ys)

recv_all_short : (n : ℕ) (xs : List ℕ) → length xs < n → recv_all n xs ≡ none
unfolding recv_all
recv_all_short n xs h = let short : leb n (length xs) ≡ false = ground (arith, h) in rw short

header_of : Packet → List ℕ
header_of packet = be64 (flags packet.pts packet.key) ++ be32 (length packet.payload)

module _ (new_packet : Alloc) where
  recv_packet_whole :
      (header rest : List ℕ)
      → header_size ≡ length header
      → recv_packet new_packet (header ++ rest)
        ≡ recv_body new_packet
            (read64be (of_list header))
            (read32be (offset (of_list header) 8))
            rest
  unfolding recv_packet
  recv_packet_whole header rest e = rw (recv_packet, recv_all_front header_size header rest e)

  recv_packet_header :
      (packet : Packet) (rest : List ℕ)
      → IsWire packet
      → recv_packet new_packet (header_of packet ++ rest)
        ≡ recv_body new_packet (flags packet.pts packet.key) (length packet.payload) rest
  unfolding header_of
  recv_packet_header packet rest h =
      recv_packet_whole (header_of packet) rest refl
      ∙ ap₂ (λ f n. recv_body new_packet f n rest)
          (read64be_lem (flags packet.pts packet.key) (be32 (length packet.payload))
            (flags_bound packet.pts packet.key h.timestamp))
          (read32be_bytes (offset (of_list (header_of packet)) 8) (length packet.payload) h.fits
            (omega arith) (omega arith) (omega arith) (omega arith))

  recv_packet_short :
      (stream : List ℕ)
      → length stream < header_size
      → recv_packet new_packet stream ≡ end_of_stream
  unfolding recv_packet
  recv_packet_short stream h = rw (recv_packet, recv_all_short header_size stream h)

  recv_body_short :
      (pts_flags len : ℕ) (stream : List ℕ)
      → len ≢ 0
      → length stream < len
      → recv_body new_packet pts_flags len stream ≡ end_of_stream
  unfolding recv_body
  recv_body_short pts_flags len stream n h =
      let some_bytes : (len == 0) ≡ false = ground (arith, n) in
      rw (recv_body, some_bytes, recv_all_short len stream h) (branch (new_packet len))
    where
      branch : (b : Bool) → (if b then end_of_stream else end_of_stream) ≡ end_of_stream
      branch true = refl
      branch false = refl

module _ (new_packet : Alloc) (ok : (n : ℕ) → new_packet n ≡ true) where
  recv_body_whole :
      (packet : Packet) (rest : List ℕ)
      → IsWire packet
      → recv_body new_packet
          (flags packet.pts packet.key)
          (length packet.payload)
          (packet.payload ++ rest)
        ≡ received packet rest
  unfolding recv_body
  recv_body_whole packet rest h =
      let some_bytes : (length packet.payload == 0) ≡ false = ground (arith, h.not_empty) in
      rw (
        some_bytes,
        ok (length packet.payload),
        recv_all_front (length packet.payload) packet.payload rest refl,
        packet_of-flags packet.pts packet.key packet.payload h.timestamp,
      )

  -- The bytes of a packet give the packet.
  pub recv_packet-wire :
      (packet : Packet) (rest : List ℕ)
      → IsWire packet
      → recv_packet new_packet (wire packet ++ rest) ≡ received packet rest
  unfolding header_of
  recv_packet-wire packet rest h =
      recv_packet_header new_packet packet (packet.payload ++ rest) h
      ∙ recv_body_whole packet rest h

  -- A part of them gives none.
  pub recv_packet-part :
      (packet : Packet) (k : ℕ)
      → IsWire packet
      → k < length (wire packet)
      → recv_packet new_packet (take k (wire packet)) ≡ end_of_stream
  unfolding header_of
  recv_packet-part packet k h l = elim (dec_lt k 12) [
    | yes q ↦
        recv_packet_short new_packet (take k (wire packet))
          (omega (arith, q, length-take k (wire packet)))
    | no q ↦
        ap (recv_packet new_packet)
          (take-append_past k (k - 12) (header_of packet) packet.payload (omega (arith, q)))
        ∙ recv_packet_header new_packet packet (take (k - 12) packet.payload) h
        ∙ recv_body_short new_packet (flags packet.pts packet.key) (length packet.payload)
            (take (k - 12) packet.payload) (λ e. omega (arith, e, h.not_empty))
            (omega (arith, q, l, length-take (k - 12) packet.payload))
  ]
