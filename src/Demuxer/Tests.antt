-- ===== src/Demuxer/Tests.antt =====
-- An H.264 stream of two packets to two sinks, and a sink that refuses.
use cicy_agent_adr.Prelude.{
  ℕ, ◌≡◌, ◌||◌, refl, true, false, none, some, List, [], ◌∷◌, ◌++◌, length, take, arith, ◌==◌, leb,
  if◌then◌else◌,
}
use cicy_agent_adr.Binary.{read32be, read64be}
use cicy_agent_adr.PacketMerger.{merge, Packet, merger_init}
use cicy_agent_adr.Sinks.{
  Sink, Source, add_sink, sinks_open, sinks_push, sinks_close, open_sink, close_sink, push_sink,
}
use cicy_agent_adr.Sinks.Balance.{opens, closes}
use cicy_agent_adr.Demuxer.Receive.{to_avcodec_id, h264, id_h264, id_h265}
use cicy_agent_adr.Demuxer.{video_context, Env, video, eos, error, ended, run_demuxer}
use cicy_agent_adr.Demuxer.Round.{pushes_all}
use cicy_agent_adr.Demuxer.Runs.{IsRun, run_demuxer-IsRun}
use cicy_agent_adr.Demuxer.Wire.{wire, IsWire}
use cicy_agent_adr.Demuxer.Streaming.{wires, Serves, pushed_packets}
use cicy_agent_adr.Demuxer.FromWire.{stream_bytes, context_of, run_demuxer-stream_bytes}

abbrev decoder : Sink
decoder = record { name = 10; has_disable = false }

abbrev recorder : Sink
recorder = record { name = 20; has_disable = true }

abbrev two_sinks : Source
two_sinks = record { sinks = λ i. if i == 0 then decoder else recorder; sink_count = 2 }

abbrev good : Env
good = record {
  answer = λ log. true;
  new_packet = λ log n. true;
  malloc = λ log n. true;
  grow_packet = λ log n. true;
  has_av1 = false;
  find_decoder = λ codec. some video;
  alloc_context = true;
  open_codec = λ ctx. true;
  alloc_packet = true;
}

good-Serves : Serves good
good-Serves = record {
  sinks_ok = λ log. refl;
  packets_ok = λ log n. refl;
  malloc_ok = λ log n. refl;
  grow_ok = λ log n. refl;
  context_ok = refl;
  codec_ok = λ ctx. refl;
  packet_ok = refl;
}

abbrev config_packet : Packet
config_packet = record { pts = none; key = false; payload = 1 ∷ 2 ∷ [] }

abbrev media_packet : Packet
media_packet = record { pts = some 77; key = true; payload = 3 ∷ [] }

config_packet-IsWire : IsWire config_packet
config_packet-IsWire = record { timestamp = tt; not_empty = omega arith; fits = omega arith }

media_packet-IsWire : IsWire media_packet
media_packet-IsWire = record {
  timestamp = omega arith;
  not_empty = omega arith;
  fits = omega arith;
}

-- The stream ends inside its third packet.
abbrev stream : List ℕ
stream =
    stream_bytes id_h264 video 640 480 (config_packet ∷ media_packet ∷ [])
      (take 5 (wire media_packet))

stream_run :
    run_demuxer good two_sinks stream
    ≡ ended eos (
        open_sink 10 (video_context h264 640 480)
        ∷ open_sink 20 (video_context h264 640 480)
        ∷ push_sink 10 config_packet
        ∷ push_sink 20 config_packet
        ∷ push_sink 10 (record media_packet { payload = 1 ∷ 2 ∷ 3 ∷ [] })
        ∷ push_sink 20 (record media_packet { payload = 1 ∷ 2 ∷ 3 ∷ [] })
        ∷ close_sink 20
        ∷ close_sink 10
        ∷ [])
unfolding run_demuxer to_avcodec_id sinks_open sinks_push sinks_close merge wires read32be read64be
stream_run = refl

run_demuxer-stream_bytes_example :
    run_demuxer good two_sinks stream
    ≡ ended eos (
        (opens (context_of id_h264 h264 video 640 480) two_sinks.sinks two_sinks.sink_count
          ++ pushes_all two_sinks (
              pushed_packets
                (id_h264 == id_h264 || id_h264 == id_h265)
                merger_init
                (config_packet ∷ media_packet ∷ [])))
        ++ closes two_sinks.sinks two_sinks.sink_count)
unfolding to_avcodec_id
run_demuxer-stream_bytes_example =
    run_demuxer-stream_bytes good good-Serves two_sinks (omega arith) id_h264 h264 video 640 480
      (config_packet ∷ media_packet ∷ []) media_packet 5 (omega arith) (omega arith) refl refl
      (omega arith) (omega arith) (config_packet-IsWire, (media_packet-IsWire, tt))
      media_packet-IsWire (omega arith)

-- The second sink does not open.
abbrev bad : Env
bad = record good { answer = λ log. leb (length log) 1 }

bad_run :
    run_demuxer bad two_sinks stream
    ≡ ended error (
        open_sink 10 (video_context h264 640 480)
        ∷ open_sink 20 (video_context h264 640 480)
        ∷ close_sink 10
        ∷ [])
unfolding run_demuxer to_avcodec_id sinks_open wires read32be
bad_run = refl

run_demuxer-IsRun_example : IsRun two_sinks (run_demuxer bad two_sinks stream)
run_demuxer-IsRun_example = run_demuxer-IsRun two_sinks (omega arith) bad stream

-- A third sink is one too many.
third_sink : add_sink two_sinks recorder ≡ none
unfolding add_sink
third_sink = refl
