-- ===== src/Demuxer/FromWire.antt =====
-- The demuxer on a stream that the device wrote, from the codec id to the sinks.
use cicy_agent_adr.Prelude.{
  ℕ, suc, ◌^◌, ◌≤◌, ◌<◌, ◌≡◌, refl, ap, ◌∙◌, true, false, ◌||◌, some, List, [], ◌∷◌, ◌++◌, length,
  length-append, take, ◌==◌, arith,
}
use cicy_agent_adr.Prelude.Memory.{of_list, offset}
use cicy_agent_adr.Binary.{be32}
use cicy_agent_adr.DeviceMsg.Fields.{read32be_bytes}
use cicy_agent_adr.PacketMerger.{Packet, merger_init}
use cicy_agent_adr.Sinks.{Source}
use cicy_agent_adr.Sinks.Balance.{opens, closes, sinks_open_all}
use cicy_agent_adr.Demuxer.Receive.{Codec, id_h264, id_h265, id_flac, to_avcodec_id}
use cicy_agent_adr.Demuxer.{
  Media, video, audio, Context, video_context, audio_context, Log, Env, eos, ended, loop,
  opened_run, decoder_run, codec_run, recv_context, run_demuxer,
}
use cicy_agent_adr.Demuxer.Round.{pushes_all}
use cicy_agent_adr.Demuxer.Wire.{wire, IsWire, recv_all_front, read32be_lem}
use cicy_agent_adr.Demuxer.Streaming.{Serves, wires, AreWires, pushed_packets, loop_lem}

-- The bytes behind the codec id, and the context that they make.
abbrev pub size_bytes : Media → ℕ → ℕ → List ℕ
size_bytes video width height = be32 width ++ be32 height
size_bytes audio width height = []

abbrev pub context_of : ℕ → Codec → Media → ℕ → ℕ → Context
context_of raw codec video width height = video_context codec width height
context_of raw codec audio width height = audio_context codec (raw == id_flac)

-- The bytes of a stream.
abbrev pub stream_bytes : ℕ → Media → ℕ → ℕ → List Packet → List ℕ → List ℕ
stream_bytes raw media width height packets tail =
    be32 raw ++ (size_bytes media width height ++ (wires packets ++ tail))

recv_context-size :
    (raw : ℕ) (codec : Codec) (media : Media) (width height : ℕ) (rest : List ℕ)
    → width < 2 ^ 32
    → height < 2 ^ 32
    → recv_context raw codec media (size_bytes media width height ++ rest)
      ≡ some (context_of raw codec media width height, rest)
unfolding recv_context
recv_context-size raw codec video width height rest w h = rw (
  recv_context,
  recv_all_front 8 (be32 width ++ be32 height) rest refl,
  read32be_lem width (be32 height) w,
  read32be_bytes (offset (of_list (be32 width ++ be32 height)) 4) height h refl refl refl refl,
)
recv_context-size raw codec audio width height rest w h = refl

length-wires :
    (packets : List Packet) (tail : List ℕ) → length packets ≤ length (wires packets ++ tail)
unfolding wires
length-wires [] tail = omega arith
length-wires (packet ∷ packets) tail = omega (
  arith,
  length-wires packets tail,
  length-append (wires packets) tail,
  length-append (packet.payload ++ wires packets) tail,
  length-append packet.payload (wires packets),
)

module _ (env : Env) (serves : Serves env) (source : Source)
    (some_sinks : 0 < source.sink_count) where
  run_codec :
      (raw : ℕ) (rest : List ℕ)
      → 1 < raw
      → raw < 2 ^ 32
      → run_demuxer env source (be32 raw ++ rest)
        ≡ codec_run env raw source rest (to_avcodec_id env.has_av1 raw)
  unfolding run_demuxer
  run_codec raw rest r₁ r₂ =
      let not_disabled : (raw == 0) ≡ false = ground (arith, r₁) in
      let no_error : (raw == 1) ≡ false = ground (arith, r₁) in
      rw (
        run_demuxer,
        recv_all_front 4 (be32 raw) rest refl,
        read32be_lem raw [] r₂,
        not_disabled,
        no_error,
      )

  run_context :
      (raw : ℕ) (codec : Codec) (media : Media) (ctx : Context) (stream rest : List ℕ)
      → env.find_decoder codec ≡ some media
      → recv_context raw codec media stream ≡ some (ctx, rest)
      → codec_run env raw source stream (some codec)
        ≡ opened_run env raw source rest (some (opens ctx source.sinks source.sink_count, true))
  unfolding codec_run
  run_context raw codec media ctx stream rest d e = rw (
    codec_run,
    decoder_run,
    d,
    serves.context_ok,
    e,
    serves.codec_ok ctx,
    sinks_open_all env.answer ctx source [] some_sinks serves.sinks_ok,
  )

  run_opened :
      (raw : ℕ) (stream : List ℕ) (log : Log)
      → opened_run env raw source stream (some (log, true))
        ≡ loop env
            (raw == id_h264 || raw == id_h265)
            source
            (suc (length stream))
            merger_init
            stream
            log
  unfolding opened_run
  run_opened raw stream log = rw (opened_run, serves.packet_ok)

  -- Take a stream as the device writes it: the id of a supported codec with a decoder, for a video
  -- its size, then the bytes of packets (not empty, timestamps below `2 ^ 62`) and a proper front
  -- part of one more, perhaps empty. When there is a sink, the allocations and FFmpeg succeed and no sink
  -- refuses, `run_demuxer` opens all sinks with the codec and the size, pushes exactly those packets in
  -- order, each to all sinks (for H.264 and H.265 with the data of the last config packet put in
  -- front of the next media packet), closes all sinks and reports the end of the stream.
  pub run_demuxer-stream_bytes :
      (raw : ℕ) (codec : Codec) (media : Media) (width height : ℕ) (packets : List Packet)
      (part : Packet) (k : ℕ)
      → 1 < raw
      → raw < 2 ^ 32
      → to_avcodec_id env.has_av1 raw ≡ some codec
      → env.find_decoder codec ≡ some media
      → width < 2 ^ 32
      → height < 2 ^ 32
      → AreWires packets
      → IsWire part
      → k < length (wire part)
      → run_demuxer env source (stream_bytes raw media width height packets (take k (wire part)))
        ≡ ended eos (
            (opens (context_of raw codec media width height) source.sinks source.sink_count
              ++ pushes_all source
                  (pushed_packets (raw == id_h264 || raw == id_h265) merger_init packets))
            ++ closes source.sinks source.sink_count)
  run_demuxer-stream_bytes raw codec media width height packets part k r₁ r₂ c d w h ps p l =
      run_codec raw (size_bytes media width height ++ (wires packets ++ take k (wire part))) r₁ r₂
      ∙ ap
          (codec_run env raw source
            (size_bytes media width height ++ (wires packets ++ take k (wire part))))
          c
      ∙ run_context raw codec media (context_of raw codec media width height) _
          (wires packets ++ take k (wire part)) d
          (recv_context-size raw codec media width height (wires packets ++ take k (wire part)) w h)
      ∙ run_opened raw (wires packets ++ take k (wire part))
          (opens (context_of raw codec media width height) source.sinks source.sink_count)
      ∙ loop_lem env serves source some_sinks (raw == id_h264 || raw == id_h265)
          (suc (length (wires packets ++ take k (wire part)))) merger_init packets part k
          (opens (context_of raw codec media width height) source.sinks source.sink_count) ps p l
          (omega (arith, length-wires packets (take k (wire part))))
