-- ===== src/Sinks/Balance.antt =====
-- What the calls of a source look like: opens and closes are balanced.
use cicy_agent_adr.Prelude.{
  ℕ, zero, suc, ◌+◌, ◌<◌, ◌≡◌, refl, sym, ap, ◌∙◌, Bool, true, false, false≢true, some, ◌==◌, List,
  [], ◌∷◌, ◌++◌, append-nil, append_assoc, arith, if◌then◌else◌,
}
use cicy_agent_adr.Prelude.Memory.{Memory}
use cicy_agent_adr.Sinks.{
  Sink, Source, Call, open_sink, close_sink, push_sink, disable_sink, Answer, asserted_sinks,
  close_firsts, open_from, sinks_open, sinks_close, push_from, sinks_push, disable_from,
  sinks_disable,
}

pub asserted_sinks_lem :
    {A : Type 0} (source : Source) (a : A)
    → 0 < source.sink_count
    → asserted_sinks source a ≡ some a
unfolding asserted_sinks
asserted_sinks_lem source a h = let e : (source.sink_count == 0) ≡ false = ground (arith, h) in rw e

module _ {C P : Type 0} where
  -- The opens of the first sinks, in order.
  unfoldable pub opens : C → Memory Sink → ℕ → List (Call C P)
  opens ctx sinks zero = []
  opens ctx sinks (suc n) = opens ctx sinks n ++ open_sink (sinks n).name ctx ∷ []

  -- The closes of the first sinks, the last one first.
  unfoldable pub closes : Memory Sink → ℕ → List (Call C P)
  closes sinks zero = []
  closes sinks (suc n) = close_sink (sinks n).name ∷ closes sinks n

  -- The pushes of a packet to the first sinks, in order.
  unfoldable pub pushes : P → Memory Sink → ℕ → List (Call C P)
  pushes packet sinks zero = []
  pushes packet sinks (suc n) = pushes packet sinks n ++ push_sink (sinks n).name packet ∷ []

  -- The calls of `disable` on the first sinks, in order.
  unfoldable pub disables : Memory Sink → ℕ → List (Call C P)
  disables sinks zero = []
  disables sinks (suc n) =
      disables sinks n ++ (if (sinks n).has_disable then disable_sink (sinks n).name ∷ [] else [])

  pub close_firsts_lem :
      (sinks : Memory Sink) (n : ℕ) (log : List (Call C P))
      → close_firsts sinks n log ≡ log ++ closes sinks n
  unfolding close_firsts closes
  close_firsts_lem sinks zero log = sym (append-nil log)
  close_firsts_lem sinks (suc n) log =
      close_firsts_lem sinks n (log ++ close_sink (sinks n).name ∷ [])
      ∙ append_assoc log (close_sink (sinks n).name ∷ []) (closes sinks n)

  -- All sinks are open; or the sink `i` refused, and those before it were closed again.
  abbrev pub Opened : C → Memory Sink → ℕ → List (Call C P) → List (Call C P) × Bool → Type 0
  Opened ctx sinks n log (log', true) = log' ≡ log ++ opens ctx sinks n
  Opened ctx sinks n log (log', false) =
      (i : ℕ) × (i < n) × (log' ≡ log ++ (opens ctx sinks (suc i) ++ closes sinks i))

  open_from_lem :
      (answer : Answer C P) (ctx : C) (sinks : Memory Sink) (count i n : ℕ)
      (log log' : List (Call C P))
      → i + n ≡ count
      → log' ≡ log ++ opens ctx sinks i
      → Opened ctx sinks count log (open_from answer ctx sinks i n log')
  unfolding open_from opens
  open_from_lem answer ctx sinks count i zero log log' e l =
      let j : i ≡ count = omega (arith, e) in l ∙ ap (λ k. log ++ opens ctx sinks k) j
  open_from_lem answer ctx sinks count i (suc n) log log' e l =
      branch (answer next)
        (open_from_lem answer ctx sinks count (suc i) n log next (omega (arith, e)) next_lem)
    where
      next : List (Call C P)
      next = log' ++ open_sink (sinks i).name ctx ∷ []

      next_lem : next ≡ log ++ opens ctx sinks (suc i)
      next_lem =
          ap (λ t. t ++ open_sink (sinks i).name ctx ∷ []) l
          ∙ append_assoc log (opens ctx sinks i) (open_sink (sinks i).name ctx ∷ [])

      branch :
          (b : Bool)
          → Opened ctx sinks count log (open_from answer ctx sinks (suc i) n next)
          → Opened ctx sinks count log (
              if b
              then open_from answer ctx sinks (suc i) n next
              else (close_firsts sinks i next, false))
      branch true r = r
      branch false r = (
        i,
        omega (arith, e),
        close_firsts_lem sinks i next
            ∙ ap (λ t. t ++ closes sinks i) next_lem
            ∙ append_assoc log (opens ctx sinks (suc i)) (closes sinks i),
      )

  -- All sinks have taken the packet; or the sink `i` refused it, and those after it were not asked.
  abbrev pub Pushed : P → Memory Sink → ℕ → List (Call C P) → List (Call C P) × Bool → Type 0
  Pushed packet sinks n log (log', true) = log' ≡ log ++ pushes packet sinks n
  Pushed packet sinks n log (log', false) =
      (i : ℕ) × (i < n) × (log' ≡ log ++ pushes packet sinks (suc i))

  push_from_lem :
      (answer : Answer C P) (packet : P) (sinks : Memory Sink) (count i n : ℕ)
      (log log' : List (Call C P))
      → i + n ≡ count
      → log' ≡ log ++ pushes packet sinks i
      → Pushed packet sinks count log (push_from answer packet sinks i n log')
  unfolding push_from pushes
  push_from_lem answer packet sinks count i zero log log' e l =
      let j : i ≡ count = omega (arith, e) in l ∙ ap (λ k. log ++ pushes packet sinks k) j
  push_from_lem answer packet sinks count i (suc n) log log' e l =
      branch (answer next)
        (push_from_lem answer packet sinks count (suc i) n log next (omega (arith, e)) next_lem)
    where
      next : List (Call C P)
      next = log' ++ push_sink (sinks i).name packet ∷ []

      next_lem : next ≡ log ++ pushes packet sinks (suc i)
      next_lem =
          ap (λ t. t ++ push_sink (sinks i).name packet ∷ []) l
          ∙ append_assoc log (pushes packet sinks i) (push_sink (sinks i).name packet ∷ [])

      branch :
          (b : Bool)
          → Pushed packet sinks count log (push_from answer packet sinks (suc i) n next)
          → Pushed packet sinks count log
              (if b then push_from answer packet sinks (suc i) n next else (next, false))
      branch true r = r
      branch false r = (i, omega (arith, e), next_lem)

  disable_from_lem :
      (sinks : Memory Sink) (count i n : ℕ) (log log' : List (Call C P))
      → i + n ≡ count
      → log' ≡ log ++ disables sinks i
      → disable_from sinks i n log' ≡ log ++ disables sinks count
  unfolding disable_from disables
  disable_from_lem sinks count i zero log log' e l =
      let j : i ≡ count = omega (arith, e) in l ∙ ap (λ k. log ++ disables sinks k) j
  disable_from_lem sinks count i (suc n) log log' e l =
      disable_from_lem sinks count (suc i) n log _ (omega (arith, e)) (
        ap (λ t. if (sinks i).has_disable then t ++ disable_sink (sinks i).name ∷ [] else t) l
        ∙ branch (sinks i).has_disable)
    where
      branch :
          (b : Bool)
          → (if b
              then (log ++ disables sinks i) ++ disable_sink (sinks i).name ∷ []
              else log ++ disables sinks i)
            ≡ log ++ (disables sinks i ++ (if b then disable_sink (sinks i).name ∷ [] else []))
      branch true = append_assoc log (disables sinks i) (disable_sink (sinks i).name ∷ [])
      branch false = ap (λ t. log ++ t) (sym (append-nil (disables sinks i)))

  pub sinks_open-Opened :
      (answer : Answer C P) (ctx : C) (source : Source) (log : List (Call C P))
      → Opened ctx source.sinks source.sink_count log
          (open_from answer ctx source.sinks 0 source.sink_count log)
  unfolding opens
  sinks_open-Opened answer ctx source log =
      open_from_lem answer ctx source.sinks source.sink_count 0 source.sink_count log log
        (omega arith) (sym (append-nil log))

  pub sinks_push-Pushed :
      (answer : Answer C P) (packet : P) (source : Source) (log : List (Call C P))
      → Pushed packet source.sinks source.sink_count log
          (push_from answer packet source.sinks 0 source.sink_count log)
  unfolding pushes
  sinks_push-Pushed answer packet source log =
      push_from_lem answer packet source.sinks source.sink_count 0 source.sink_count log log
        (omega arith) (sym (append-nil log))

  -- Sinks that refuse nothing.
  sinks_push_ok :
      (answer : Answer C P) (packet : P) (sinks : Memory Sink) (i n : ℕ) (log : List (Call C P))
      → ((calls : List (Call C P)) → answer calls ≡ true)
      → (push_from answer packet sinks i n log).1 ≡ true
  unfolding push_from
  sinks_push_ok answer packet sinks i zero log h = refl
  sinks_push_ok answer packet sinks i (suc n) log h = rw (
    h (log ++ push_sink (sinks i).name packet ∷ []),
    sinks_push_ok answer packet sinks (suc i) n (log ++ push_sink (sinks i).name packet ∷ []) h,
  )

  open_from_ok :
      (answer : Answer C P) (ctx : C) (sinks : Memory Sink) (i n : ℕ) (log : List (Call C P))
      → ((calls : List (Call C P)) → answer calls ≡ true)
      → (open_from answer ctx sinks i n log).1 ≡ true
  unfolding open_from
  open_from_ok answer ctx sinks i zero log h = refl
  open_from_ok answer ctx sinks i (suc n) log h = rw (
    h (log ++ open_sink (sinks i).name ctx ∷ []),
    open_from_ok answer ctx sinks (suc i) n (log ++ open_sink (sinks i).name ctx ∷ []) h,
  )

  Pushed-ok :
      (packet : P) (sinks : Memory Sink) (n : ℕ) (log : List (Call C P))
      (o : List (Call C P) × Bool)
      → Pushed packet sinks n log o
      → o.1 ≡ true
      → o ≡ (log ++ pushes packet sinks n, true)
  Pushed-ok packet sinks n log (log', true) p e = ap (λ t. (t, true)) p
  Pushed-ok packet sinks n log (log', false) p e = absurd (false≢true e)

  Opened-ok :
      (ctx : C) (sinks : Memory Sink) (n : ℕ) (log : List (Call C P)) (o : List (Call C P) × Bool)
      → Opened ctx sinks n log o
      → o.1 ≡ true
      → o ≡ (log ++ opens ctx sinks n, true)
  Opened-ok ctx sinks n log (log', true) p e = ap (λ t. (t, true)) p
  Opened-ok ctx sinks n log (log', false) p e = absurd (false≢true e)

  -- Sinks that refuse nothing are all opened and get each packet.
  pub sinks_push_all :
      (answer : Answer C P) (packet : P) (source : Source) (log : List (Call C P))
      → 0 < source.sink_count
      → ((calls : List (Call C P)) → answer calls ≡ true)
      → sinks_push answer packet source log
        ≡ some (log ++ pushes packet source.sinks source.sink_count, true)
  unfolding sinks_push
  sinks_push_all answer packet source log p h =
      asserted_sinks_lem source _ p
      ∙ ap some (
          Pushed-ok packet source.sinks source.sink_count log _
            (sinks_push-Pushed answer packet source log)
            (sinks_push_ok answer packet source.sinks 0 source.sink_count log h))

  pub sinks_open_all :
      (answer : Answer C P) (ctx : C) (source : Source) (log : List (Call C P))
      → 0 < source.sink_count
      → ((calls : List (Call C P)) → answer calls ≡ true)
      → sinks_open answer ctx source log
        ≡ some (log ++ opens ctx source.sinks source.sink_count, true)
  unfolding sinks_open
  sinks_open_all answer ctx source log p h =
      asserted_sinks_lem source _ p
      ∙ ap some (
          Opened-ok ctx source.sinks source.sink_count log _
            (sinks_open-Opened answer ctx source log)
            (open_from_ok answer ctx source.sinks 0 source.sink_count log h))

  pub sinks_close_lem :
      (source : Source) (log : List (Call C P))
      → 0 < source.sink_count
      → sinks_close source log ≡ some (log ++ closes source.sinks source.sink_count)
  unfolding sinks_close
  sinks_close_lem source log p =
      asserted_sinks_lem source _ p ∙ ap some (close_firsts_lem source.sinks source.sink_count log)

  pub sinks_disable_lem :
      (source : Source) (log : List (Call C P))
      → 0 < source.sink_count
      → sinks_disable source log ≡ some (log ++ disables source.sinks source.sink_count)
  unfolding sinks_disable disables
  sinks_disable_lem source log p =
      asserted_sinks_lem source _ p
      ∙ ap some (
          disable_from_lem source.sinks source.sink_count 0 source.sink_count log log (omega arith)
            (sym (append-nil log)))
