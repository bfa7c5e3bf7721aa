-- ===== src/PacketMerger/Merged.antt =====
-- What the packet merger makes of a sequence of packets: each config packet stays, and its data
-- comes again in front of the next media packet's.
use cicy_agent_adr.Prelude.{ℕ, ◌≡◌, refl, true, Option, none, some, List, [], ◌∷◌, ◌++◌, length}
use cicy_agent_adr.PacketMerger.{Packet, Merger, Alloc, prepend, merge, merge_config, merge_media}

-- A media packet behind the last config packet, if one came since the last media packet.
abbrev pub with_config : Merger → Packet → Packet
with_config none packet = packet
with_config (some config) packet = record packet { payload = config ++ packet.payload }

-- The packet as it goes on, and the config packet that waits behind it.
abbrev pub one_merged : Option ℕ → Merger → Packet → Merger × Packet
one_merged none merger packet = (some packet.payload, packet)
one_merged (some pts) merger packet = (none, with_config merger packet)

unfoldable pub merged : Merger → List Packet → List Packet
merged merger [] = []
merged merger (packet ∷ packets) =
    (one_merged packet.pts merger packet).1 ∷ merged (one_merged packet.pts merger packet).0 packets

-- Where the allocations succeed, so does the merger.
pub merge_ok :
    (malloc grow : Alloc) (merger : Merger) (packet : Packet)
    → ((n : ℕ) → malloc n ≡ true)
    → ((n : ℕ) → grow n ≡ true)
    → merge malloc grow merger packet
      ≡ ((one_merged packet.pts merger packet).0, (one_merged packet.pts merger packet).1, true)
unfolding merge merge_config merge_media prepend
merge_ok malloc grow merger packet m g = branch packet.pts merger
  where
    branch :
        (pts : Option ℕ) (c : Merger)
        → (elim pts [ none ↦ merge_config malloc packet | some t ↦ merge_media grow c packet ])
          ≡ ((one_merged pts c packet).0, (one_merged pts c packet).1, true)
    branch none c = rw (merge_config, m (length packet.payload))
    branch (some t) none = refl
    branch (some t) (some config) = rw (merge_media, g (length config))
