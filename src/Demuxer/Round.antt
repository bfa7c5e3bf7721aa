-- ===== src/Demuxer/Round.antt =====
-- The rounds of the demuxer's loop: each reads a part of the stream, pushes one packet at most, and
-- the loop ends.
use cicy_agent_adr.Prelude.{
  ℕ, zero, suc, ◌+◌, ◌≤◌, ◌<◌, ◌≡◌, refl, sym, ap, ◌∙◌, subst, Bool, true, false, Option, none,
  some, List, [], ◌∷◌, ◌++◌, append-nil, append_assoc, length, length-drop, drop, take, leb, leb→le,
  ◌==◌, arith, if◌then◌else◌,
}
use cicy_agent_adr.Prelude.Memory.{offset, of_list}
use cicy_agent_adr.Binary.{read32be, read64be}
use cicy_agent_adr.PacketMerger.{Packet, Merger, Alloc}
use cicy_agent_adr.Sinks.{Source, sinks_close, sinks_push}
use cicy_agent_adr.Sinks.Balance.{
  asserted_sinks_lem, closes, pushes, Pushed, sinks_push-Pushed, sinks_close_lem,
}
use cicy_agent_adr.Demuxer.Receive.{
  recv_all, recv_body, recv_packet, header_size, packet_of, Received, end_of_stream, no_length,
  received,
}
use cicy_agent_adr.Demuxer.{
  Status, eos, error, Log, Env, Turn, break, abort, continue, pushed_turn, merged_turn,
  received_turn, ended_behind, Outcome, ended, aborted, out_of_rounds, loop,
}

-- A full read takes its bytes off the stream.
abbrev IsRead : ℕ → List ℕ → Option (List ℕ × List ℕ) → Type 0
IsRead n stream none = Unit {0}
IsRead n stream (some (_, rest)) = length rest + n ≡ length stream

recv_all-IsRead : (n : ℕ) (stream : List ℕ) → IsRead n stream (recv_all n stream)
unfolding recv_all
recv_all-IsRead n stream = branch (leb n (length stream)) refl
  where
    branch :
        (b : Bool)
        → leb n (length stream) ≡ b
        → IsRead n stream (if b then some (take n stream, drop n stream) else none)
    branch true e = omega (arith, length-drop n stream, leb→le n (length stream) e)
    branch false e = tt

-- What a packet read leaves of the stream.
abbrev Shorter : List ℕ → Received → Type 0
Shorter stream (received packet rest) = length rest < length stream
Shorter stream end_of_stream = Unit {0}
Shorter stream no_length = Unit {0}

recv_body-Shorter :
    (new_packet : Alloc) (pts_flags len : ℕ) (stream : List ℕ)
    → Shorter stream (recv_body new_packet pts_flags len stream)
unfolding recv_body
recv_body-Shorter new_packet pts_flags len stream =
    branch (len == 0) refl (new_packet len) (recv_all len stream) (recv_all-IsRead len stream)
  where
    branch :
        (b : Bool)
        → (len == 0) ≡ b
        → (c : Bool) (o : Option (List ℕ × List ℕ)) → IsRead len stream o
        → Shorter stream (
            if b
            then no_length
            else if c
            then elim o [
              | none ↦ end_of_stream
              | some (payload, rest) ↦ received (packet_of pts_flags payload) rest
            ]
            else end_of_stream)
    branch true e c o r = tt
    branch false e true none r = tt
    branch false e true (some (payload, rest)) r = ground (arith, r, e)
    branch false e false o r = tt

Shorter-mono :
    (short long : List ℕ) (r : Received)
    → length short ≤ length long
    → Shorter short r
    → Shorter long r
Shorter-mono short long end_of_stream h s = tt
Shorter-mono short long no_length h s = tt
Shorter-mono short long (received packet rest) h s = omega (arith, h, s)

recv_packet-Shorter :
    (new_packet : Alloc) (stream : List ℕ) → Shorter stream (recv_packet new_packet stream)
unfolding recv_packet
recv_packet-Shorter new_packet stream =
    branch (recv_all header_size stream) (recv_all-IsRead header_size stream)
  where
    branch :
        (o : Option (List ℕ × List ℕ))
        → IsRead header_size stream o
        → Shorter stream (elim o [
          | none ↦ end_of_stream
          | some (header, rest) ↦
              recv_body new_packet
                (read64be (of_list header))
                (read32be (offset (of_list header) 8))
                rest
        ])
    branch none r = tt
    branch (some (header, rest)) r =
        Shorter-mono rest stream _ (omega (arith, r)) (recv_body-Shorter new_packet _ _ rest)

module _ (source : Source) where
  -- All sinks get each packet, in order, until the stream ends, an allocation fails, or a sink
  -- refuses a packet.
  pub data IsPushes : Status → Log → Type 0 where
    at_end : IsPushes eos []
    failed : IsPushes error []
    refused :
        (packet : Packet) (i : ℕ)
        → i < source.sink_count
        → IsPushes error (pushes packet source.sinks (suc i))
    pushed :
        (packet : Packet) (status : Status) (log : Log)
        → IsPushes status log
        → IsPushes status (pushes packet source.sinks source.sink_count ++ log)

  -- The pushes of some packets to all sinks.
  unfoldable pub pushes_all : List Packet → Log
  pushes_all [] = []
  pushes_all (packet ∷ packets) = pushes packet source.sinks source.sink_count ++ pushes_all packets

  -- What a turn does, from a log and a stream.
  abbrev IsTurn : Log → List ℕ → Turn → Type 0
  IsTurn log stream (break status log') = (mid : Log) × IsPushes status mid × (log' ≡ log ++ mid)
  IsTurn log stream (abort log') = log' ≡ log
  IsTurn log stream (continue _ rest log') =
      (packet : Packet) × (length rest < length stream)
      × (log' ≡ log ++ pushes packet source.sinks source.sink_count)

  pushed_turn-IsTurn :
      (merger : Merger) (packet : Packet) (rest stream : List ℕ) (log : Log) (o : Log × Bool)
      → length rest < length stream
      → Pushed packet source.sinks source.sink_count log o
      → IsTurn log stream (pushed_turn merger rest log (some o))
  unfolding pushed_turn
  pushed_turn-IsTurn merger packet rest stream log (log', true) h p = (packet, h, p)
  pushed_turn-IsTurn merger packet rest stream log (log', false) h (i, l, e) =
      (pushes packet source.sinks (suc i), refused packet i l, e)

  merged_turn-IsTurn :
      (env : Env) (rest stream : List ℕ) (log : Log) (o : Merger × Packet × Bool)
      → 0 < source.sink_count
      → length rest < length stream
      → IsTurn log stream (merged_turn env source rest log o)
  unfolding merged_turn sinks_push
  merged_turn-IsTurn env rest stream log (merger, packet, true) p h =
      subst (λ t. IsTurn log stream (pushed_turn merger rest log t))
        (sym (asserted_sinks_lem source _ p))
        (pushed_turn-IsTurn merger packet rest stream log _ h
          (sinks_push-Pushed env.answer packet source log))
  merged_turn-IsTurn env rest stream log (merger, packet, false) p h =
      ([], failed, sym (append-nil log))

  received_turn-IsTurn :
      (env : Env) (must_merge : Bool) (merger : Merger) (stream : List ℕ) (log : Log) (r : Received)
      → 0 < source.sink_count
      → Shorter stream r
      → IsTurn log stream (received_turn env must_merge source merger log r)
  unfolding received_turn
  received_turn-IsTurn env must_merge merger stream log end_of_stream p h =
      ([], at_end, sym (append-nil log))
  received_turn-IsTurn env must_merge merger stream log no_length p h = refl
  received_turn-IsTurn env must_merge merger stream log (received packet rest) p h =
      merged_turn-IsTurn env rest stream log _ p h

  -- How the loop ends, from a log.
  abbrev pub IsLoop : Log → Outcome → Type 0
  IsLoop log (ended status log') =
      (mid : Log) × IsPushes status mid
      × (log' ≡ log ++ (mid ++ closes source.sinks source.sink_count))
  IsLoop log (aborted log') = (packets : List Packet) × (log' ≡ log ++ pushes_all packets)
  IsLoop log out_of_rounds = ⊥

  later :
      (packet : Packet) (log : Log) (o : Outcome)
      → IsLoop (log ++ pushes packet source.sinks source.sink_count) o
      → IsLoop log o
  unfolding pushes_all
  later packet log (ended status log') (mid, p, e) = (
    pushes packet source.sinks source.sink_count ++ mid,
    pushed packet status mid p,
    e
        ∙ append_assoc log (pushes packet source.sinks source.sink_count)
            (mid ++ closes source.sinks source.sink_count)
        ∙ ap (λ t. log ++ t)
            (sym (
              append_assoc (pushes packet source.sinks source.sink_count) mid
                (closes source.sinks source.sink_count))),
  )
  later packet log (aborted log') (packets, e) = (
    packet ∷ packets,
    e ∙ append_assoc log (pushes packet source.sinks source.sink_count) (pushes_all packets),
  )
  later packet log out_of_rounds h = absurd h

  -- A stream shorter than the number of rounds is read to its end.
  pub loop-IsLoop :
      (env : Env) (must_merge : Bool) (rounds : ℕ) (merger : Merger) (stream : List ℕ) (log : Log)
      → 0 < source.sink_count
      → length stream < rounds
      → IsLoop log (loop env must_merge source rounds merger stream log)
  unfolding loop pushes_all ended_behind
  loop-IsLoop env must_merge zero merger stream log p h = absurd (omega (arith, h))
  loop-IsLoop env must_merge (suc rounds) merger stream log p h =
      branch _
        (received_turn-IsTurn env must_merge merger stream log
          (recv_packet (env.new_packet log) stream) p
          (recv_packet-Shorter (env.new_packet log) stream))
        (λ merger' stream' log' l.
          loop-IsLoop env must_merge rounds merger' stream' log' p (omega (arith, h, l)))
    where
      branch :
          (t : Turn)
          → IsTurn log stream t
          → ((merger' : Merger) (stream' : List ℕ) (log' : Log)
              → length stream' < length stream
              → IsLoop log' (loop env must_merge source rounds merger' stream' log'))
          → IsLoop log (elim t [
            | break status log' ↦ ended_behind status log' (sinks_close source log')
            | abort log' ↦ aborted log'
            | continue merger' stream' log' ↦ loop env must_merge source rounds merger' stream' log'
          ])
      branch (break status log') (mid, q, e) rec =
          subst (λ t. IsLoop log (ended_behind status log' t)) (sym (sinks_close_lem source log' p))
            (
              mid,
              q,
              ap (λ t. t ++ closes source.sinks source.sink_count) e
                  ∙ append_assoc log mid (closes source.sinks source.sink_count),
            )
      branch (abort log') e rec = ([], e ∙ sym (append-nil log))
      branch (continue merger' stream' log') (packet, l, e) rec =
          later packet log (loop env must_merge source rounds merger' stream' log') (
            subst (λ t. IsLoop t (loop env must_merge source rounds merger' stream' log')) e
              (rec merger' stream' log' l))
