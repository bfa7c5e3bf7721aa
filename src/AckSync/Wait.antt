-- ===== src/AckSync/Wait.antt =====
-- A wait for an acknowledgement returns as soon as it can, and with the right result.
use cicy_agent_adr.Prelude.{
  ℕ, ◌≤◌, ◌<◌, ◌≡◌, refl, sym, ap, ap₂, ◌∙◌, Bool, true, false, not, ◌&&◌, ◌||◌, false≢true, subst,
  le→leb, leb→le, Option, none, some, List, [], ◌∷◌, ltb, leb, arith, if◌then◌else◌,
}
use cicy_agent_adr.AckSync.{
  AckSync, WaitResult, wait_ok, wait_timeout, wait_intr, acknowledge, interrupt, Event,
  acknowledged, interrupted, events_step, Sleep, Waiting, returned, failed, sleeping, wait_end,
  asleep, wait_loop, wait,
}

-- The acknowledgements come in order.
abbrev pub last_ack : ℕ → List Event → ℕ
last_ack acked [] = acked
last_ack acked (acknowledged sequence ∷ events) = last_ack sequence events
last_ack acked (interrupted ∷ events) = last_ack acked events

abbrev pub InOrder : ℕ → List Event → Type 0
InOrder acked [] = Unit {0}
InOrder acked (acknowledged sequence ∷ events) = (acked ≤ sequence) × InOrder sequence events
InOrder acked (interrupted ∷ events) = InOrder acked events

abbrev pub AreInOrder : ℕ → List Sleep → Type 0
AreInOrder acked [] = Unit {0}
AreInOrder acked (sleep ∷ sleeps) =
    InOrder acked sleep.events × AreInOrder (last_ack acked sleep.events) sleeps

-- What ends a wait for `ack`.
abbrev pub ends : ℕ → Event → Bool
ends ack (acknowledged sequence) = leb ack sequence
ends ack interrupted = true

abbrev pub any_ends : ℕ → List Event → Bool
any_ends ack [] = false
any_ends ack (event ∷ events) = ends ack event || any_ends ack events

abbrev pub any_sleep_ends : ℕ → List Sleep → Bool
any_sleep_ends ack [] = false
any_sleep_ends ack (sleep ∷ sleeps) =
    (any_ends ack sleep.events || sleep.timed_out) || any_sleep_ends ack sleeps

abbrev pub is_over : ℕ → AckSync → Bool
is_over ack sync = sync.stopped || leb ack sync.acked

abbrev is_some_event : List Event → Bool
is_some_event [] = false
is_some_event (event ∷ events) = true

-- Each of the events signals the thread. The state after the events is over when it was before, or an event ended it.
AfterEvents : ℕ → AckSync → List Event → Option AckSync → Type 0
unfolding events_step
AfterEvents ack sync events none = ⊥
AfterEvents ack sync events (some sync') =
    (sync'.acked ≡ last_ack sync.acked events)
    × (is_over ack sync' ≡ (is_over ack sync || any_ends ack events))
    × (sync'.signalled ≡ (sync.signalled || is_some_event events))

-- The result says why.
abbrev pub IsResult : ℕ → WaitResult → AckSync → Type 0
IsResult ack wait_ok sync = (sync.stopped ≡ false) × (ack ≤ sync.acked)
IsResult ack wait_timeout sync = (sync.stopped ≡ false) × (sync.acked < ack)
IsResult ack wait_intr sync = sync.stopped ≡ true

-- Whether the wait returns, and with what.
abbrev pub Waits : ℕ → Bool → Waiting → Type 0
Waits ack over (returned result sync) = (over ≡ true) × IsResult ack result sync
Waits ack over failed = ⊥
Waits ack over (sleeping sync) = over ≡ false

or_assoc : (a b c : Bool) → ((a || b) || c) ≡ (a || (b || c))
or_assoc true b c = refl
or_assoc false b c = refl

or_left : (a b : Bool) → (a || b) ≡ false → a ≡ false
or_left true b e = e
or_left false b e = refl

or_true : (b : Bool) → (b || true) ≡ true
or_true true = refl
or_true false = refl

prepend :
    (ack : ℕ) (sync next : AckSync) (event : Event) (events : List Event) (o : Option AckSync)
    → AfterEvents ack next events o
    → last_ack next.acked events ≡ last_ack sync.acked (event ∷ events)
    → is_over ack next ≡ (is_over ack sync || ends ack event)
    → next.signalled ≡ true
    → AfterEvents ack sync (event ∷ events) o
unfolding AfterEvents
prepend ack sync next event events none h l e g = h
prepend ack sync next event events (some sync') (a, b, c) l e g = (
  a ∙ l,
  b
      ∙ ap (λ t. t || any_ends ack events) e
      ∙ or_assoc (is_over ack sync) (ends ack event) (any_ends ack events),
  c ∙ ap (λ t. t || is_some_event events) g ∙ sym (or_true sync.signalled),
)

events_step-AfterEvents :
    (ack : ℕ) (sync : AckSync) (events : List Event)
    → InOrder sync.acked events
    → AfterEvents ack sync events (events_step sync events)
unfolding AfterEvents events_step acknowledge interrupt
events_step-AfterEvents ack sync [] h = (refl, ground arith, ground arith)
events_step-AfterEvents ack sync (acknowledged sequence ∷ events) (h, hs) =
    let accepted : leb sync.acked sequence ≡ true = le→leb _ _ h in
    rw (events_step, acknowledge, accepted)
      (prepend ack sync (record sync { acked = sequence; signalled = true }) (acknowledged sequence)
        events _
        (events_step-AfterEvents ack (record sync { acked = sequence; signalled = true }) events hs)
        refl (ground (arith, h)) refl)
events_step-AfterEvents ack sync (interrupted ∷ events) h =
    prepend ack sync (interrupt sync) interrupted events _
      (events_step-AfterEvents ack (interrupt sync) events h) refl (ground arith) refl

wait_end-Waits :
    (ack : ℕ) (timed_out : Bool) (sync : AckSync) (over : Bool)
    → (is_over ack sync || timed_out) ≡ true
    → over ≡ true
    → Waits ack over (wait_end ack timed_out sync)
unfolding wait_end
wait_end-Waits ack timed_out sync over h o =
    branch sync.stopped (leb ack sync.acked) timed_out refl refl h
  where
    branch :
        (s l t : Bool)
        → sync.stopped ≡ s
        → leb ack sync.acked ≡ l
        → ((s || l) || t) ≡ true
        → Waits ack over (
            if s
            then returned wait_intr sync
            else if l
            then returned wait_ok sync
            else if t
            then returned wait_timeout sync
            else failed)
    branch true l t e f g = (o, e)
    branch false true t e f g = (o, (e, leb→le _ _ f))
    branch false false true e f g = (o, (e, ground (arith, f)))
    branch false false false e f g = absurd (false≢true g)

-- A thread that sleeps on would go on.
abbrev IsAsleepInTime : ℕ → Bool → Bool → AckSync → Type 0
IsAsleepInTime ack awake timed_out sync = awake ≡ false → (is_over ack sync || timed_out) ≡ false

goes_on :
    (ack : ℕ) (awake timed_out : Bool) (sync : AckSync)
    → IsAsleepInTime ack awake timed_out sync
    → (not awake || (not sync.stopped && (ltb sync.acked ack && not timed_out)))
      ≡ not (is_over ack sync || timed_out)
goes_on ack true timed_out sync h = ground arith
goes_on ack false timed_out sync h = ap not (sym (h refl))

-- The loop goes on when nothing has ended the wait.
loop-Waits :
    (ack : ℕ) (awake timed_out later : Bool) (sync : AckSync) (w : Waiting)
    → IsAsleepInTime ack awake timed_out sync
    → ((is_over ack sync || timed_out) ≡ false → Waits ack later w)
    → Waits ack ((is_over ack sync || timed_out) || later) (
        if not awake || (not sync.stopped && (ltb sync.acked ack && not timed_out))
        then w
        else wait_end ack timed_out sync)
loop-Waits ack awake timed_out later sync w a k =
    subst
      (λ c.
        Waits ack ((is_over ack sync || timed_out) || later)
          (if c then w else wait_end ack timed_out sync))
      (sym (goes_on ack awake timed_out sync a)) (branch (is_over ack sync || timed_out) refl)
  where
    branch :
        (b : Bool)
        → (is_over ack sync || timed_out) ≡ b
        → Waits ack (b || later) (if not b then w else wait_end ack timed_out sync)
    branch false e = k e
    branch true e = wait_end-Waits ack timed_out sync true e refl

-- Without a signal nothing has happened that ends the wait.
still_asleep :
    (ack : ℕ) (sleep : Sleep) (sync' : AckSync)
    → is_over ack sync' ≡ any_ends ack sleep.events
    → sync'.signalled ≡ is_some_event sleep.events
    → IsAsleepInTime ack
        (sync'.signalled || (sleep.timed_out || sleep.spurious))
        sleep.timed_out
        sync'
still_asleep ack sleep sync' over signalled h =
    let none_signalled : sync'.signalled ≡ false =
      or_left sync'.signalled (sleep.timed_out || sleep.spurious) h in
    let in_time : sleep.timed_out ≡ false = ground (arith, h) in
    quiet sleep.events over (sym signalled ∙ none_signalled) in_time
  where
    quiet :
        (events : List Event)
        → is_over ack sync' ≡ any_ends ack events
        → is_some_event events ≡ false
        → sleep.timed_out ≡ false
        → (is_over ack sync' || sleep.timed_out) ≡ false
    quiet [] e g t = ap₂ ◌||◌ e t
    quiet (event ∷ events) e g t = absurd (false≢true (sym g))

wait_loop-Waits :
    (ack : ℕ) (awake timed_out : Bool) (sync : AckSync) (sleeps : List Sleep)
    → AreInOrder sync.acked sleeps
    → IsAsleepInTime ack awake timed_out sync
    → Waits ack
        ((is_over ack sync || timed_out) || any_sleep_ends ack sleeps)
        (wait_loop ack awake timed_out sync sleeps)
unfolding wait_loop AfterEvents
wait_loop-Waits ack awake timed_out sync [] h q =
    loop-Waits ack awake timed_out false sync (sleeping sync) q (λ e. refl)
wait_loop-Waits ack awake timed_out sync (sleep ∷ sleeps) (h, hs) q =
    loop-Waits ack awake timed_out (any_sleep_ends ack (sleep ∷ sleeps)) sync _ q (λ e.
      branch e (events_step (asleep sync) sleep.events)
        (events_step-AfterEvents ack (asleep sync) sleep.events h)
        (λ sync' a r.
          wait_loop-Waits ack (sync'.signalled || (sleep.timed_out || sleep.spurious))
            sleep.timed_out sync' sleeps (subst (λ n. AreInOrder n sleeps) (sym a) hs) r))
  where
    branch :
        (is_over ack sync || timed_out) ≡ false
        → (o : Option AckSync) → AfterEvents ack (asleep sync) sleep.events o
        → ((sync' : AckSync)
            → sync'.acked ≡ last_ack sync.acked sleep.events
            → IsAsleepInTime ack
                (sync'.signalled || (sleep.timed_out || sleep.spurious))
                sleep.timed_out
                sync'
            → Waits ack ((is_over ack sync' || sleep.timed_out) || any_sleep_ends ack sleeps) (
                wait_loop ack
                  (sync'.signalled || (sleep.timed_out || sleep.spurious))
                  sleep.timed_out
                  sync'
                  sleeps))
        → Waits ack (any_sleep_ends ack (sleep ∷ sleeps)) (elim o [
          | none ↦ failed
          | some sync' ↦
              wait_loop ack
                (sync'.signalled || (sleep.timed_out || sleep.spurious))
                sleep.timed_out
                sync'
                sleeps
        ])
    branch e none a k = absurd a
    branch e (some sync') (a, b, g) k =
        let c : is_over ack sync' ≡ any_ends ack sleep.events =
          b ∙ ap (λ t. t || any_ends ack sleep.events) (or_left _ _ e) in
        subst
          (λ t. Waits ack ((t || sleep.timed_out) || any_sleep_ends ack sleeps) (
            wait_loop ack (sync'.signalled || (sleep.timed_out || sleep.spurious)) sleep.timed_out
              sync' sleeps))
          c (k sync' a (still_asleep ack sleep sync' c g))

-- Let the acknowledgements come in order. Then no assertion fails, and a wait for a sequence returns
-- exactly when the sequence is acknowledged, or a later one, or it is interrupted, or a sleep
-- reaches the deadline, and sleeps on else: the thread tests its condition only when it is
-- signalled, times out or wakes up for no reason, and this is enough. It returns SC_ACKSYNC_WAIT_INTR when it was
-- interrupted, SC_ACKSYNC_WAIT_OK when it was not and the sequence is acknowledged, and
-- SC_ACKSYNC_WAIT_TIMEOUT when neither is the case.
pub wait_lem :
    (ack : ℕ) (sync : AckSync) (sleeps : List Sleep)
    → AreInOrder sync.acked sleeps
    → Waits ack (is_over ack sync || any_sleep_ends ack sleeps) (wait ack sync sleeps)
unfolding wait
wait_lem ack sync sleeps h =
    subst (λ b. Waits ack (b || any_sleep_ends ack sleeps) (wait ack sync sleeps)) (ground arith)
      (wait_loop-Waits ack true false sync sleeps h (λ e. absurd (false≢true (sym e))))
