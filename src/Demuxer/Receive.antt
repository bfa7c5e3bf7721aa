-- ===== src/Demuxer/Receive.antt =====
-- What the demuxer reads from its socket, scrcpy/app/src/demuxer.c: codec ids and packets.
-- The socket is the list of the bytes that it delivers before it ends.
use cicy_agent_adr.Prelude.{
  ℕ, ◌/◌, ◌%◌, ◌^◌, Bool, Option, none, some, List, length, take, drop, leb, ◌==◌, if◌then◌else◌,
}
use cicy_agent_adr.Prelude.Memory.{offset, of_list}
use cicy_agent_adr.Binary.{read32be, read64be}
use cicy_agent_adr.PacketMerger.{Packet, Alloc}

-- `enum AVCodecID`, the values that the program uses but AV_CODEC_ID_NONE.
pub data Codec : Type 0 where
  h264 hevc av1 opus aac flac pcm_s16le : Codec

-- SC_CODEC_ID_H264, ..., SC_CODEC_ID_RAW
abbrev pub id_h264 : ℕ
id_h264 = 0x68323634

abbrev pub id_h265 : ℕ
id_h265 = 0x68323635

abbrev pub id_av1 : ℕ
id_av1 = 0x00617631

abbrev pub id_opus : ℕ
id_opus = 0x6f707573

abbrev pub id_aac : ℕ
id_aac = 0x00616163

abbrev pub id_flac : ℕ
id_flac = 0x666c6163

abbrev pub id_raw : ℕ
id_raw = 0x00726177

-- `sc_demuxer_to_avcodec_id`; `has_av1` is SCRCPY_LAVC_HAS_AV1, `none` AV_CODEC_ID_NONE.
unfoldable pub to_avcodec_id : Bool → ℕ → Option Codec
to_avcodec_id has_av1 codec_id =
    if codec_id == id_h264
    then some h264
    else if codec_id == id_h265
    then some hevc
    else if codec_id == id_av1
    then (if has_av1 then some av1 else none)
    else if codec_id == id_opus
    then some opus
    else if codec_id == id_aac
    then some aac
    else if codec_id == id_flac
    then some flac
    else if codec_id == id_raw
    then some pcm_s16le
    else none

-- `net_recv_all(socket, data, n)`: the bytes and what is left of the stream, or a short read.
unfoldable pub recv_all : ℕ → List ℕ → Option (List ℕ × List ℕ)
recv_all n stream = if leb n (length stream) then some (take n stream, drop n stream) else none

-- SC_PACKET_HEADER_SIZE
abbrev pub header_size : ℕ
header_size = 12

-- `sc_demuxer_recv_packet`: `false`, the failed assertion on the length, or a packet.
pub data Received : Type 0 where
  end_of_stream no_length : Received
  received : Packet → List ℕ → Received

-- The fields of a packet, from the flags and the data.
unfoldable pub packet_of : ℕ → List ℕ → Packet
packet_of pts_flags data_bytes = record {
  pts = if pts_flags / 2 ^ 63 % 2 == 1 then none else some (pts_flags % 2 ^ 62);
  key = pts_flags / 2 ^ 62 % 2 == 1;
  payload = data_bytes;
}

-- Behind the header.
unfoldable pub recv_body : Alloc → ℕ → ℕ → List ℕ → Received
unfolding packet_of recv_all
recv_body new_packet pts_flags len stream =
    if len == 0
    then no_length
    else if new_packet len
    then elim (recv_all len stream) [
      | none ↦ end_of_stream
      | some (payload, rest) ↦ received (packet_of pts_flags payload) rest
    ]
    else end_of_stream

-- `sc_demuxer_recv_packet`
unfoldable pub recv_packet : Alloc → List ℕ → Received
unfolding recv_all recv_body
recv_packet new_packet stream = elim (recv_all header_size stream) [
  | none ↦ end_of_stream
  | some (header, rest) ↦
      recv_body new_packet (read64be (of_list header)) (read32be (offset (of_list header) 8)) rest
]
