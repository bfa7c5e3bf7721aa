-- ===== src/Demuxer.antt =====
-- The demuxer thread, scrcpy/app/src/demuxer.c: it reads packets from a socket and pushes them to
-- the sinks of its packet source.
-- What FFmpeg and the sinks answer is chosen by the environment. A failed assertion is an abort.
pub mod Receive
pub mod Round
pub mod FromWire
pub mod Runs
pub mod Streaming
mod Tests
pub mod Wire
use cicy_agent_adr.Prelude.{
  ℕ, zero, suc, Bool, true, false, ◌||◌, Option, none, some, List, [], length, ◌==◌, if◌then◌else◌,
}
use cicy_agent_adr.Prelude.Memory.{offset, of_list}
use cicy_agent_adr.Binary.{read32be}
use cicy_agent_adr.Demuxer.Receive.{
  Codec, id_h264, id_h265, id_flac, to_avcodec_id, recv_all, Received, end_of_stream, no_length,
  received, recv_packet,
}
use cicy_agent_adr.PacketMerger.{Packet, Merger, Alloc, merge, merger_init}
use cicy_agent_adr.Sinks.{Source, Call, Answer, sinks_open, sinks_close, sinks_push, sinks_disable}

-- `codec->type == AVMEDIA_TYPE_VIDEO`, or not
pub data Media : Type 0 where
  video audio : Media

-- What the demuxer writes into the codec context before the sinks are open: the size of a video,
-- or whether it sets the sample format.
pub data Context : Type 0 where
  video_context : Codec → (width height : ℕ) → Context
  audio_context : Codec → (sample_fmt : Bool) → Context

-- `enum sc_demuxer_status`
pub data Status : Type 0 where
  eos disabled error : Status

-- The calls of the sinks.
abbrev pub Log : Type 0
Log = List (Call Context Packet)

-- What the demuxer depends on; where it can be asked twice, the answer may depend on the calls
-- made so far.
pub record Env : Type 0 where
  pub answer : Answer Context Packet
  pub new_packet : Log → Alloc
  pub malloc : Log → Alloc
  pub grow_packet : Log → Alloc
  pub has_av1 : Bool
  pub find_decoder : Codec → Option Media
  pub alloc_context : Bool
  pub open_codec : Context → Bool
  pub alloc_packet : Bool

-- One turn of the loop of `run_demuxer`: it breaks, or aborts, or goes on.
pub data Turn : Type 0 where
  break : Status → Log → Turn
  abort : Log → Turn
  continue : Merger → List ℕ → Log → Turn

-- Behind `sc_packet_source_sinks_push`, which was called with a log.
unfoldable pub pushed_turn : Merger → List ℕ → Log → Option (Log × Bool) → Turn
pushed_turn merger rest log none = abort log
pushed_turn merger rest log (some (log', true)) = continue merger rest log'
pushed_turn merger rest log (some (log', false)) = break error log'

-- Behind `sc_packet_merger_merge`.
unfoldable pub merged_turn : Env → Source → List ℕ → Log → Merger × Packet × Bool → Turn
unfolding pushed_turn
merged_turn env source rest log (merger, packet, true) =
    pushed_turn merger rest log (sinks_push env.answer packet source log)
merged_turn env source rest log (merger, packet, false) = break error log

unfoldable pub received_turn : Env → Bool → Source → Merger → Log → Received → Turn
unfolding merged_turn
received_turn env must_merge source merger log end_of_stream = break eos log
received_turn env must_merge source merger log no_length = abort log
received_turn env must_merge source merger log (received packet rest) =
    merged_turn env source rest log (
      if must_merge
      then merge (env.malloc log) (env.grow_packet log) merger packet
      else (merger, packet, true))

-- How the thread ends: `on_ended` with a status, or an abort. A run that is out of rounds has not
-- ended.
pub data Outcome : Type 0 where
  ended : Status → Log → Outcome
  aborted : Log → Outcome
  out_of_rounds : Outcome

-- The end with a status behind `sc_packet_source_sinks_close` or `sc_packet_source_sinks_disable`,
-- which was called with a log.
unfoldable pub ended_behind : Status → Log → Option Log → Outcome
ended_behind status log none = aborted log
ended_behind status log (some log') = ended status log'

-- The loop of `run_demuxer`, and the sinks closed behind it.
unfoldable pub loop : Env → Bool → Source → ℕ → Merger → List ℕ → Log → Outcome
unfolding received_turn recv_packet ended_behind
loop env must_merge source zero merger stream log = out_of_rounds
loop env must_merge source (suc rounds) merger stream log =
    elim (received_turn env must_merge source merger log
      (recv_packet (env.new_packet log) stream)) [
        | break status log' ↦ ended_behind status log' (sinks_close source log')
        | abort log' ↦ aborted log'
        | continue merger' stream' log' ↦ loop env must_merge source rounds merger' stream' log'
      ]

-- Behind `sc_packet_source_sinks_open`. A round takes a byte at least.
unfoldable pub opened_run : Env → ℕ → Source → List ℕ → Option (Log × Bool) → Outcome
unfolding loop ended_behind
opened_run env raw source stream none = aborted []
opened_run env raw source stream (some (log, false)) = ended error log
opened_run env raw source stream (some (log, true)) =
    if env.alloc_packet
    then loop env (raw == id_h264 || raw == id_h265) source (suc (length stream)) merger_init stream
        log
    else ended_behind error log (sinks_close source log)

-- The codec context: for a video, `sc_demuxer_recv_video_size`.
unfoldable pub recv_context : ℕ → Codec → Media → List ℕ → Option (Context × List ℕ)
unfolding recv_all
recv_context raw codec video stream = elim (recv_all 8 stream) [
  | none ↦ none
  | some (size, rest) ↦
      some
        (video_context codec (read32be (of_list size)) (read32be (offset (of_list size) 4)), rest)
]
recv_context raw codec audio stream = some (audio_context codec (raw == id_flac), stream)

-- Behind the codec context.
unfoldable pub context_run : Env → ℕ → Source → Option (Context × List ℕ) → Outcome
unfolding opened_run
context_run env raw source none = ended error []
context_run env raw source (some (ctx, stream)) =
    if env.open_codec ctx
    then opened_run env raw source stream (sinks_open env.answer ctx source [])
    else ended error []

-- Behind `avcodec_find_decoder`.
unfoldable pub decoder_run : Env → ℕ → Source → List ℕ → Codec → Option Media → Outcome
unfolding context_run recv_context ended_behind
decoder_run env raw source stream codec none = ended_behind error [] (sinks_disable source [])
decoder_run env raw source stream codec (some media) =
    if env.alloc_context
    then context_run env raw source (recv_context raw codec media stream)
    else ended error []

-- Behind `sc_demuxer_to_avcodec_id`.
unfoldable pub codec_run : Env → ℕ → Source → List ℕ → Option Codec → Outcome
unfolding decoder_run ended_behind
codec_run env raw source stream none = ended_behind error [] (sinks_disable source [])
codec_run env raw source stream (some codec) =
    decoder_run env raw source stream codec (env.find_decoder codec)

-- `run_demuxer`
unfoldable pub run_demuxer : Env → Source → List ℕ → Outcome
unfolding recv_all codec_run ended_behind
run_demuxer env source stream = elim (recv_all 4 stream) [
  | none ↦ ended error []
  | some (data_bytes, rest) ↦
      let raw = read32be (of_list data_bytes) in
      if raw == 0
      then ended_behind disabled [] (sinks_disable source [])
      else if raw == 1
      then ended error []
      else codec_run env raw source rest (to_avcodec_id env.has_av1 raw)
]
