-- ===== src/AckSync.antt =====
-- Acknowledgements, scrcpy/app/src/util/acksync.c: a thread waits until the device has acknowledged
-- a sequence number, another thread interrupts it, or its deadline passes.
-- What stands between a lock and an unlock is one step; a wait releases the mutex while it sleeps.
pub mod Wait
mod Tests
use cicy_agent_adr.Prelude.{
  ℕ, Bool, true, false, not, ◌&&◌, ◌||◌, Option, none, some, List, [], ◌∷◌, ltb, leb, if◌then◌else◌,
  ◌>>=◌,
}

-- `struct sc_acksync`, with the last acknowledged sequence, and whether the condition variable was
-- signalled since the thread that waits on it fell asleep.
pub record AckSync : Type 0 where
  pub stopped : Bool
  pub acked : ℕ
  pub signalled : Bool

-- `enum sc_acksync_wait_result`
pub data WaitResult : Type 0 where
  wait_ok wait_timeout wait_intr : WaitResult

-- `sc_acksync_init`; SC_SEQUENCE_INVALID is 0.
abbrev pub acksync_init : AckSync
acksync_init = record { stopped = false; acked = 0; signalled = false }

-- `sc_acksync_ack`; `none` is the failed assertion.
unfoldable pub acknowledge : AckSync → ℕ → Option AckSync
acknowledge sync sequence =
    if leb sync.acked sequence
    then some (record sync { acked = sequence; signalled = true })
    else none

-- `sc_acksync_interrupt`
unfoldable pub interrupt : AckSync → AckSync
interrupt sync = record sync { stopped = true; signalled = true }

-- What other threads do while a wait sleeps.
pub data Event : Type 0 where
  acknowledged : ℕ → Event
  interrupted : Event

unfoldable pub events_step : AckSync → List Event → Option AckSync
unfolding acknowledge interrupt
events_step sync [] = some sync
events_step sync (acknowledged sequence ∷ events) = do
  sync' ← acknowledge sync sequence
  events_step sync' events
events_step sync (interrupted ∷ events) = events_step (interrupt sync) events

-- A part of a sleep in `sc_cond_timedwait`: what happens meanwhile, and whether the deadline is
-- reached or the thread wakes up for no reason. The sleep ends with it for one of these, or when the
-- condition variable was signalled; else the thread sleeps on, and its loop tests nothing.
pub record Sleep : Type 0 where
  pub events : List Event
  pub timed_out : Bool
  pub spurious : Bool

-- A wait returns, fails an assertion, or still sleeps after the given sleeps.
pub data Waiting : Type 0 where
  returned : WaitResult → AckSync → Waiting
  failed : Waiting
  sleeping : AckSync → Waiting

-- Behind the loop of `sc_acksync_wait`.
unfoldable pub wait_end : ℕ → Bool → AckSync → Waiting
wait_end ack timed_out sync =
    if sync.stopped
    then returned wait_intr sync
    else if leb ack sync.acked
    then returned wait_ok sync
    else if timed_out
    then returned wait_timeout sync
    else failed

-- A sleep sees the signals that come after its start.
abbrev pub asleep : AckSync → AckSync
asleep sync = record sync { signalled = false }

-- The loop of `sc_acksync_wait`, while the thread is awake, or inside `sc_cond_timedwait`.
unfoldable pub wait_loop : (ack : ℕ) (awake timed_out : Bool) → AckSync → List Sleep → Waiting
unfolding wait_end events_step
wait_loop ack awake timed_out sync [] =
    if not awake || (not sync.stopped && (ltb sync.acked ack && not timed_out))
    then sleeping sync
    else wait_end ack timed_out sync
wait_loop ack awake timed_out sync (sleep ∷ sleeps) =
    if not awake || (not sync.stopped && (ltb sync.acked ack && not timed_out))
    then elim (events_step (asleep sync) sleep.events) [
      | none ↦ failed
      | some sync' ↦
          wait_loop ack (sync'.signalled || (sleep.timed_out || sleep.spurious)) sleep.timed_out
            sync' sleeps
    ]
    else wait_end ack timed_out sync

-- `sc_acksync_wait`
unfoldable pub wait : ℕ → AckSync → List Sleep → Waiting
unfolding wait_loop
wait ack sync sleeps = wait_loop ack true false sync sleeps
