-- ===== src/Sinks.antt =====
-- Packet and frame sources, scrcpy/app/src/trait/packet_source.c and frame_source.c: two copies of
-- the same code, over packets and over frames. What a sink does is chosen by the environment; a
-- source is known by the calls that it makes.
pub mod Balance
use cicy_agent_adr.Prelude.{
  ℕ, zero, suc, ◌+◌, Bool, true, false, Option, none, some, List, [], ◌∷◌, ◌++◌, ltb, ◌==◌,
  if◌then◌else◌,
}
use cicy_agent_adr.Prelude.Memory.{Memory, store}

-- `struct sc_packet_sink`: a name for it, and whether its operations have `disable`.
pub record Sink : Type 0 where
  pub name : ℕ
  pub has_disable : Bool

-- `struct sc_packet_source`, `struct sc_frame_source`
pub record Source : Type 0 where
  pub sinks : Memory Sink
  pub sink_count : ℕ

-- SC_PACKET_SOURCE_MAX_SINKS, SC_FRAME_SOURCE_MAX_SINKS
abbrev pub max_sinks : ℕ
max_sinks = 2

-- The calls of a sink's operations.
pub data Call (C P : Type 0) : Type 0 where
  open_sink : ℕ → C → Call C P
  close_sink : ℕ → Call C P
  push_sink : ℕ → P → Call C P
  disable_sink : ℕ → Call C P

-- What the last of the calls made so far returns.
abbrev pub Answer : Type 0 → Type 0 → Type 0
Answer C P = List (Call C P) → Bool

-- `sc_packet_source_init`, `sc_frame_source_init`
unfoldable pub source_init : Source → Source
source_init source = record source { sink_count = 0 }

-- `sc_packet_source_add_sink`, `sc_frame_source_add_sink`; `none` is the failed assertion.
unfoldable pub add_sink : Source → Sink → Option Source
add_sink source sink =
    if ltb source.sink_count max_sinks
    then some (record {
      sinks = store source.sinks source.sink_count sink;
      sink_count = source.sink_count + 1;
    })
    else none

-- `assert(source->sink_count)` in front of what follows it; `none` is the failed assertion.
unfoldable pub asserted_sinks : {A : Type 0} → Source → A → Option A
asserted_sinks source a = if source.sink_count == 0 then none else some a

module _ {C P : Type 0} where
  -- `sc_packet_source_sinks_close_firsts`
  unfoldable pub close_firsts : Memory Sink → ℕ → List (Call C P) → List (Call C P)
  close_firsts sinks zero log = log
  close_firsts sinks (suc count) log =
      close_firsts sinks count (log ++ close_sink (sinks count).name ∷ [])

  -- The loop of `sc_packet_source_sinks_open` at `i`, with `n` sinks left.
  unfoldable pub open_from :
      Answer C P → C → Memory Sink → ℕ → ℕ → List (Call C P) → List (Call C P) × Bool
  unfolding close_firsts
  open_from answer ctx sinks i zero log = (log, true)
  open_from answer ctx sinks i (suc n) log =
      let log' = log ++ open_sink (sinks i).name ctx ∷ [] in
      let rest = open_from answer ctx sinks (suc i) n log' in
      if answer log' then rest else (close_firsts sinks i log', false)

  -- `sc_packet_source_sinks_open`
  unfoldable pub sinks_open :
      Answer C P → C → Source → List (Call C P) → Option (List (Call C P) × Bool)
  unfolding asserted_sinks open_from
  sinks_open answer ctx source log =
      asserted_sinks source (open_from answer ctx source.sinks 0 source.sink_count log)

  -- `sc_packet_source_sinks_close`
  unfoldable pub sinks_close : Source → List (Call C P) → Option (List (Call C P))
  unfolding asserted_sinks close_firsts
  sinks_close source log = asserted_sinks source (close_firsts source.sinks source.sink_count log)

  -- The loop of `sc_packet_source_sinks_push`.
  unfoldable pub push_from :
      Answer C P → P → Memory Sink → ℕ → ℕ → List (Call C P) → List (Call C P) × Bool
  push_from answer packet sinks i zero log = (log, true)
  push_from answer packet sinks i (suc n) log =
      let log' = log ++ push_sink (sinks i).name packet ∷ [] in
      let rest = push_from answer packet sinks (suc i) n log' in
      if answer log' then rest else (log', false)

  -- `sc_packet_source_sinks_push`
  unfoldable pub sinks_push :
      Answer C P → P → Source → List (Call C P) → Option (List (Call C P) × Bool)
  unfolding asserted_sinks push_from
  sinks_push answer packet source log =
      asserted_sinks source (push_from answer packet source.sinks 0 source.sink_count log)

  -- The loop of `sc_packet_source_sinks_disable`.
  unfoldable pub disable_from : Memory Sink → ℕ → ℕ → List (Call C P) → List (Call C P)
  disable_from sinks i zero log = log
  disable_from sinks i (suc n) log =
      disable_from sinks (suc i) n
        (if (sinks i).has_disable then log ++ disable_sink (sinks i).name ∷ [] else log)

  -- `sc_packet_source_sinks_disable`
  unfoldable pub sinks_disable : Source → List (Call C P) → Option (List (Call C P))
  unfolding asserted_sinks disable_from
  sinks_disable source log =
      asserted_sinks source (disable_from source.sinks 0 source.sink_count log)
