-- ===== src/AckSync/Tests.antt =====
-- A wait for the sequence 3.
use cicy_agent_adr.Prelude.{◌≡◌, ◌||◌, refl, true, false, List, [], ◌∷◌, arith}
use cicy_agent_adr.AckSync.{acksync_init, wait_ok, acknowledged, Sleep, returned, sleeping, wait}
use cicy_agent_adr.AckSync.Wait.{Waits, any_sleep_ends, is_over, wait_lem}

-- It wakes up for the sequence 2, then for 3 and 4.
abbrev sleeps : List Sleep
sleeps =
    record { events = acknowledged 2 ∷ []; timed_out = false; spurious = false }
    ∷ record { events = acknowledged 3 ∷ acknowledged 4 ∷ []; timed_out = false; spurious = false }
    ∷ []

wait_for_3 :
    wait 3 acksync_init sleeps
    ≡ returned wait_ok (record { stopped = false; acked = 4; signalled = true })
unfolding wait
wait_for_3 = refl

wait_for_5 :
    wait 5 acksync_init sleeps ≡ sleeping (record { stopped = false; acked = 4; signalled = true })
unfolding wait
wait_for_5 = refl

wait_lem_example :
    Waits 3 (is_over 3 acksync_init || any_sleep_ends 3 sleeps) (wait 3 acksync_init sleeps)
wait_lem_example =
    wait_lem 3 acksync_init sleeps ((omega arith, tt), ((omega arith, (omega arith, tt)), tt))
