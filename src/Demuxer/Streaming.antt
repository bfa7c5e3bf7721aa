-- ===== src/Demuxer/Streaming.antt =====
-- The demuxer's loop on packets that the device wrote.
use cicy_agent_adr.Prelude.{
  ℕ, zero, suc, ◌<◌, ◌≡◌, sym, ap, ◌∙◌, Bool, true, false, List, [], ◌∷◌, ◌++◌, append-nil,
  append_assoc, length, take, arith, if◌then◌else◌,
}
use cicy_agent_adr.PacketMerger.{Packet, Merger}
use cicy_agent_adr.PacketMerger.Merged.{merged, one_merged, merge_ok}
use cicy_agent_adr.Sinks.{Source, sinks_close}
use cicy_agent_adr.Sinks.Balance.{closes, pushes, sinks_push_all, sinks_close_lem}
use cicy_agent_adr.Demuxer.Receive.{recv_packet, received, end_of_stream}
use cicy_agent_adr.Demuxer.{
  Context, Log, Env, eos, ended, aborted, ended_behind, loop, continue, break, abort, received_turn,
  merged_turn, pushed_turn,
}
use cicy_agent_adr.Demuxer.Round.{pushes_all}
use cicy_agent_adr.Demuxer.Wire.{wire, IsWire, recv_packet-wire, recv_packet-part}

-- FFmpeg finds its memory and the sinks refuse nothing.
pub record Serves (env : Env) : Type 0 where
  pub sinks_ok : (log : Log) → env.answer log ≡ true
  pub packets_ok : (log : Log) (n : ℕ) → env.new_packet log n ≡ true
  pub malloc_ok : (log : Log) (n : ℕ) → env.malloc log n ≡ true
  pub grow_ok : (log : Log) (n : ℕ) → env.grow_packet log n ≡ true
  pub context_ok : env.alloc_context ≡ true
  pub codec_ok : (ctx : Context) → env.open_codec ctx ≡ true
  pub packet_ok : env.alloc_packet ≡ true

-- The bytes of a sequence of packets.
unfoldable pub wires : List Packet → List ℕ
wires [] = []
wires (packet ∷ packets) = wire packet ++ wires packets

abbrev pub AreWires : List Packet → Type 0
AreWires [] = Unit {0}
AreWires (packet ∷ packets) = IsWire packet × AreWires packets

-- What the sinks get of some packets: H.264 and H.265 streams are merged.
abbrev pub pushed_packets : Bool → Merger → List Packet → List Packet
pushed_packets true merger packets = merged merger packets
pushed_packets false merger packets = packets

module _ (env : Env) (serves : Serves env) (source : Source)
    (some_sinks : 0 < source.sink_count) where
  -- One packet of the stream.
  turn_lem :
      (must_merge : Bool) (merger : Merger) (packet : Packet) (rest : List ℕ) (log : Log)
      → IsWire packet
      → received_turn env must_merge source merger log
          (recv_packet (env.new_packet log) (wire packet ++ rest))
        ≡ (if must_merge
            then continue (one_merged packet.pts merger packet).0 rest (
                log
                ++ pushes (one_merged packet.pts merger packet).1 source.sinks source.sink_count)
            else continue merger rest (log ++ pushes packet source.sinks source.sink_count))
  unfolding received_turn
  turn_lem must_merge merger packet rest log h =
      ap (received_turn env must_merge source merger log)
        (recv_packet-wire (env.new_packet log) (serves.packets_ok log) packet rest h)
      ∙ branch must_merge
    where
      push_lem :
          (merger' : Merger) (packet' : Packet)
          → merged_turn env source rest log (merger', packet', true)
            ≡ continue merger' rest (log ++ pushes packet' source.sinks source.sink_count)
      push_lem merger' packet' =
          ap (pushed_turn merger' rest log)
            (sinks_push_all env.answer packet' source log some_sinks serves.sinks_ok)

      branch :
          (b : Bool)
          → received_turn env b source merger log (received packet rest) ≡ (
              if b
              then continue (one_merged packet.pts merger packet).0 rest (
                  log
                  ++ pushes (one_merged packet.pts merger packet).1 source.sinks source.sink_count)
              else continue merger rest (log ++ pushes packet source.sinks source.sink_count))
      branch true =
          ap (merged_turn env source rest log) (
            merge_ok (env.malloc log) (env.grow_packet log) merger packet (serves.malloc_ok log)
              (serves.grow_ok log))
          ∙ push_lem _ _
      branch false = push_lem merger packet

  loop_one :
      (must_merge : Bool) (rounds : ℕ) (merger merger' : Merger) (stream stream' : List ℕ)
      (log log' : Log)
      → received_turn env must_merge source merger log (recv_packet (env.new_packet log) stream)
        ≡ continue merger' stream' log'
      → loop env must_merge source (suc rounds) merger stream log
        ≡ loop env must_merge source rounds merger' stream' log'
  unfolding loop
  loop_one must_merge rounds merger merger' stream stream' log log' e =
      ap
        (λ t. elim t [
          | break status l ↦ ended_behind status l (sinks_close source l)
          | abort l ↦ aborted l
          | continue m s l ↦ loop env must_merge source rounds m s l
        ])
        e

  loop_end :
      (must_merge : Bool) (rounds : ℕ) (merger : Merger) (stream : List ℕ) (log : Log)
      → recv_packet (env.new_packet log) stream ≡ end_of_stream
      → loop env must_merge source (suc rounds) merger stream log
        ≡ ended eos (log ++ closes source.sinks source.sink_count)
  unfolding loop received_turn ended_behind
  loop_end must_merge rounds merger stream log e =
      ap
        (λ r. elim (received_turn env must_merge source merger log r) [
          | break status l ↦ ended_behind status l (sinks_close source l)
          | abort l ↦ aborted l
          | continue m s l ↦ loop env must_merge source rounds m s l
        ])
        e
      ∙ ap (ended_behind eos log) (sinks_close_lem source log some_sinks)

  -- The loop on the bytes of some packets, with a part of one more packet behind them.
  pub loop_lem :
      (must_merge : Bool) (rounds : ℕ) (merger : Merger) (packets : List Packet) (part : Packet)
      (k : ℕ) (log : Log)
      → AreWires packets
      → IsWire part
      → k < length (wire part)
      → length packets < rounds
      → loop env must_merge source rounds merger (wires packets ++ take k (wire part)) log
        ≡ ended eos (
            (log ++ pushes_all source (pushed_packets must_merge merger packets))
            ++ closes source.sinks source.sink_count)
  unfolding wires pushes_all merged
  loop_lem must_merge zero merger packets part k log h p l r = absurd (omega (arith, r))
  loop_lem true (suc rounds) merger [] part k log h p l r =
      loop_end true rounds merger (take k (wire part)) log
        (recv_packet-part (env.new_packet log) (serves.packets_ok log) part k p l)
      ∙ ap (λ t. ended eos (t ++ closes source.sinks source.sink_count)) (sym (append-nil log))
  loop_lem false (suc rounds) merger [] part k log h p l r =
      loop_end false rounds merger (take k (wire part)) log
        (recv_packet-part (env.new_packet log) (serves.packets_ok log) part k p l)
      ∙ ap (λ t. ended eos (t ++ closes source.sinks source.sink_count)) (sym (append-nil log))
  loop_lem true (suc rounds) merger (packet ∷ packets) part k log (h, hs) p l r =
      ap (λ s. loop env true source (suc rounds) merger s log)
        (append_assoc (wire packet) (wires packets) (take k (wire part)))
      ∙ loop_one true rounds merger _ _ _ log _
          (turn_lem true merger packet (wires packets ++ take k (wire part)) log h)
      ∙ loop_lem true rounds (one_merged packet.pts merger packet).0 packets part k _ hs p l
          (omega (arith, r))
      ∙ ap (λ t. ended eos (t ++ closes source.sinks source.sink_count))
          (append_assoc log
            (pushes (one_merged packet.pts merger packet).1 source.sinks source.sink_count)
            (pushes_all source (merged (one_merged packet.pts merger packet).0 packets)))
  loop_lem false (suc rounds) merger (packet ∷ packets) part k log (h, hs) p l r =
      ap (λ s. loop env false source (suc rounds) merger s log)
        (append_assoc (wire packet) (wires packets) (take k (wire part)))
      ∙ loop_one false rounds merger _ _ _ log _
          (turn_lem false merger packet (wires packets ++ take k (wire part)) log h)
      ∙ loop_lem false rounds merger packets part k _ hs p l (omega (arith, r))
      ∙ ap (λ t. ended eos (t ++ closes source.sinks source.sink_count))
          (append_assoc log (pushes packet source.sinks source.sink_count)
            (pushes_all source packets))
