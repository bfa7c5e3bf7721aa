-- ===== src/Demuxer/Runs.antt =====
-- All runs of the demuxer thread: they end, and the sinks that were opened are closed.
use cicy_agent_adr.Prelude.{
  ℕ, suc, ◌<◌, sym, ap, ◌∙◌, subst, Bool, true, false, ◌||◌, Option, none, some, List, [], ◌++◌,
  length, ◌==◌, arith, if◌then◌else◌,
}
use cicy_agent_adr.Prelude.Memory.{of_list}
use cicy_agent_adr.Binary.{read32be}
use cicy_agent_adr.PacketMerger.{Packet, merger_init}
use cicy_agent_adr.Sinks.{Source, sinks_open, sinks_close, sinks_disable}
use cicy_agent_adr.Sinks.Balance.{
  asserted_sinks_lem, opens, closes, disables, Opened, sinks_open-Opened, sinks_close_lem,
  sinks_disable_lem,
}
use cicy_agent_adr.Demuxer.Receive.{Codec, id_h264, id_h265, to_avcodec_id, recv_all}
use cicy_agent_adr.Demuxer.{
  Media, Context, Status, disabled, error, Log, Env, Outcome, ended_behind, ended, aborted,
  out_of_rounds, loop, opened_run, context_run, decoder_run, codec_run, recv_context, run_demuxer,
}
use cicy_agent_adr.Demuxer.Round.{IsPushes, failed, pushes_all, IsLoop, loop-IsLoop}

module _ (source : Source) where
  -- The ways a run can end, with the calls that it made of the sinks.
  pub data IsRun : Outcome → Type 0 where
    not_started : IsRun (ended error [])
    unsupported : IsRun (ended error (disables source.sinks source.sink_count))
    switched_off : IsRun (ended disabled (disables source.sinks source.sink_count))
    not_opened :
        (ctx : Context) (i : ℕ)
        → i < source.sink_count
        → IsRun (ended error (opens ctx source.sinks (suc i) ++ closes source.sinks i))
    streamed :
        (ctx : Context) (status : Status) (mid : Log)
        → IsPushes source status mid
        → IsRun (
            ended status (
              opens ctx source.sinks source.sink_count
              ++ (mid ++ closes source.sinks source.sink_count)))
    died :
        (ctx : Context) (packets : List Packet)
        → IsRun (aborted (opens ctx source.sinks source.sink_count ++ pushes_all source packets))

module _ (source : Source) (some_sinks : 0 < source.sink_count) where
  loop-IsRun :
      (ctx : Context) (o : Outcome)
      → IsLoop source (opens ctx source.sinks source.sink_count) o
      → IsRun source o
  loop-IsRun ctx (ended status log) (mid, p, e) =
      subst (λ t. IsRun source (ended status t)) (sym e) (streamed ctx status mid p)
  loop-IsRun ctx (aborted log) (packets, e) =
      subst (λ t. IsRun source (aborted t)) (sym e) (died ctx packets)
  loop-IsRun ctx out_of_rounds h = absurd h

  disabled_lem :
      (status : Status)
      → IsRun source (ended status (disables source.sinks source.sink_count))
      → IsRun source (ended_behind status [] (sinks_disable source []))
  unfolding ended_behind
  disabled_lem status h =
      subst (λ t. IsRun source (ended_behind status [] t))
        (sym (sinks_disable_lem source [] some_sinks)) h

  opened_run-IsRun :
      (env : Env) (raw : ℕ) (stream : List ℕ) (ctx : Context) (o : Log × Bool)
      → Opened ctx source.sinks source.sink_count [] o
      → IsRun source (opened_run env raw source stream (some o))
  unfolding opened_run ended_behind
  opened_run-IsRun env raw stream ctx (log, true) h =
      branch env.alloc_packet
        (loop env (raw == id_h264 || raw == id_h265) source (suc (length stream)) merger_init stream
          log)
        (loop-IsRun ctx _ (
          subst
            (λ t. IsLoop source t (
              loop env (raw == id_h264 || raw == id_h265) source (suc (length stream)) merger_init
                stream log))
            h
            (loop-IsLoop source env (raw == id_h264 || raw == id_h265) (suc (length stream))
              merger_init stream log some_sinks (omega arith))))
    where
      branch :
          (b : Bool) (o : Outcome)
          → IsRun source o
          → IsRun source (if b then o else ended_behind error log (sinks_close source log))
      branch true o r = r
      branch false o r =
          subst (λ t. IsRun source (ended_behind error log t))
            (sym (
              sinks_close_lem source log some_sinks
              ∙ ap (λ t. some (t ++ closes source.sinks source.sink_count)) h))
            (streamed ctx error [] failed)
  opened_run-IsRun env raw stream ctx (log, false) (i, l, e) =
      subst (λ t. IsRun source (ended error t)) (sym e) (not_opened ctx i l)

  context_run-IsRun :
      (env : Env) (raw : ℕ) (o : Option (Context × List ℕ))
      → IsRun source (context_run env raw source o)
  unfolding context_run sinks_open
  context_run-IsRun env raw none = not_started
  context_run-IsRun env raw (some (ctx, stream)) = branch (env.open_codec ctx)
    where
      branch :
          (b : Bool)
          → IsRun source (
              if b
              then opened_run env raw source stream (sinks_open env.answer ctx source [])
              else ended error [])
      branch true =
          subst (λ t. IsRun source (opened_run env raw source stream t))
            (sym (asserted_sinks_lem source _ some_sinks))
            (opened_run-IsRun env raw stream ctx _ (sinks_open-Opened env.answer ctx source []))
      branch false = not_started

  decoder_run-IsRun :
      (env : Env) (raw : ℕ) (stream : List ℕ) (codec : Codec) (o : Option Media)
      → IsRun source (decoder_run env raw source stream codec o)
  unfolding decoder_run
  decoder_run-IsRun env raw stream codec none = disabled_lem error unsupported
  decoder_run-IsRun env raw stream codec (some media) = branch env.alloc_context
    where
      branch :
          (b : Bool)
          → IsRun source (
              if b
              then context_run env raw source (recv_context raw codec media stream)
              else ended error [])
      branch true = context_run-IsRun env raw (recv_context raw codec media stream)
      branch false = not_started

  codec_run-IsRun :
      (env : Env) (raw : ℕ) (stream : List ℕ) (o : Option Codec)
      → IsRun source (codec_run env raw source stream o)
  unfolding codec_run
  codec_run-IsRun env raw stream none = disabled_lem error unsupported
  codec_run-IsRun env raw stream (some codec) =
      decoder_run-IsRun env raw stream codec (env.find_decoder codec)

  -- For a source with a sink, every stream of bytes and every answer of the environment, the
  -- demuxer thread ends: it
  -- does not touch the sinks, or disables them, or opens some and closes those again, or opens all,
  -- pushes packets, each to all sinks in order but for the last one that a sink may refuse, and
  -- closes all, the last one first; or it aborts on a packet without data, the packets before it
  -- pushed to all sinks.
  pub run_demuxer-IsRun :
      (env : Env) (stream : List ℕ) → IsRun source (run_demuxer env source stream)
  unfolding run_demuxer
  run_demuxer-IsRun env stream = branch (recv_all 4 stream)
    where
      raw_branch :
          (raw : ℕ) (rest : List ℕ) (b c : Bool)
          → IsRun source (
              if b
              then ended_behind disabled [] (sinks_disable source [])
              else if c
              then ended error []
              else codec_run env raw source rest (to_avcodec_id env.has_av1 raw))
      raw_branch raw rest true c = disabled_lem disabled switched_off
      raw_branch raw rest false true = not_started
      raw_branch raw rest false false = codec_run-IsRun env raw rest (to_avcodec_id env.has_av1 raw)

      branch :
          (o : Option (List ℕ × List ℕ))
          → IsRun source (elim o [
            | none ↦ ended error []
            | some (data_bytes, rest) ↦
                let raw = read32be (of_list data_bytes) in
                if raw == 0
                then ended_behind disabled [] (sinks_disable source [])
                else if raw == 1
                then ended error []
                else codec_run env raw source rest (to_avcodec_id env.has_av1 raw)
          ])
      branch none = not_started
      branch (some (data_bytes, rest)) =
          raw_branch (read32be (of_list data_bytes)) rest (read32be (of_list data_bytes) == 0)
            (read32be (of_list data_bytes) == 1)
