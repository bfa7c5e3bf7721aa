-- ===== src/PacketMerger.antt =====
-- Packets and the packet merger, scrcpy/app/src/packet_merger.c.
pub mod Merged
use cicy_agent_adr.Prelude.{
  ℕ, Bool, true, false, Option, none, some, List, ◌++◌, length, if◌then◌else◌,
}

-- What the program uses of `AVPacket`: `pts`, where `none` is AV_NOPTS_VALUE, the flag
-- AV_PKT_FLAG_KEY, and the data.
pub record Packet : Type 0 where
  pub pts : Option ℕ
  pub key : Bool
  pub payload : List ℕ

-- `struct sc_packet_merger`: the pending config packet, where `none` is NULL.
abbrev pub Merger : Type 0
Merger = Option (List ℕ)

-- `sc_packet_merger_init`
abbrev pub merger_init : Merger
merger_init = none

-- Whether an allocation of so many bytes succeeds, as the environment decides it.
abbrev pub Alloc : Type 0
Alloc = ℕ → Bool

-- The media packet behind a config packet: `av_grow_packet`, `memmove` and `memcpy`.
unfoldable pub prepend : List ℕ → Packet → Packet
prepend config packet = record packet { payload = config ++ packet.payload }

-- The branch of a config packet.
unfoldable pub merge_config : Alloc → Packet → Merger × Packet × Bool
merge_config malloc packet =
    if malloc (length packet.payload)
    then (some packet.payload, packet, true)
    else (none, packet, false)

-- The branch of a media packet.
unfoldable pub merge_media : Alloc → Merger → Packet → Merger × Packet × Bool
unfolding prepend
merge_media grow none packet = (none, packet, true)
merge_media grow (some config) packet =
    if grow (length config)
    then (none, prepend config packet, true)
    else (some config, packet, false)

-- `sc_packet_merger_merge`
unfoldable pub merge : Alloc → Alloc → Merger → Packet → Merger × Packet × Bool
unfolding merge_config merge_media
merge malloc grow merger packet = elim packet.pts [
  | none ↦ merge_config malloc packet
  | some pts ↦ merge_media grow merger packet
]
