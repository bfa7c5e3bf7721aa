-- ===== src/Controller/Tests.antt =====
-- A concrete schedule of the controller.
use cicy_agent_adr.Prelude.{
  ℕ, ◌≤◌, ◌<◌, ◌≡◌, ◌⊎◌, inl, inr, refl, arith, length, ◌∷◌, [], List, true, false, Bool, Option,
  none, some,
}
use cicy_agent_adr.Prelude.Memory.{Buffer, memcpy, slice}
use cicy_agent_adr.VecDeque.{Heap, Result, ok, out_of_memory, reserve, push_noresize, pop}
use cicy_agent_adr.ControlMsg.{ControlMsg, back_or_screen_on, rotate_device, type_of, is_droppable}
use cicy_agent_adr.ControlMsg.Serialize.{serialize}
use cicy_agent_adr.Controller.{
  Controller, Action, push_msg, stop, take_msg, send, limit, new_controller, push_message,
  with_alloc, step, run,
}
use cicy_agent_adr.VecDeque.Refine.{IsAtMost}
use cicy_agent_adr.Controller.Push.{IsQueue, Appended, push_message_lem}
use cicy_agent_adr.Controller.Fifo.{Inv}
use cicy_agent_adr.Controller.Runs.{run_lem}

abbrev heap : Heap ControlMsg
heap = record { item_size = 64; alloc = λ n. true; garbage = λ i. rotate_device }

abbrev blank : Buffer
blank _ = 7

-- A queue of 60 messages and room for 64.
abbrev busy : Controller
busy = record {
  queue = record { cap = 64; origin = 0; size = 60; items = λ i. rotate_device };
  stopped = false;
  waiting = false;
  current = none;
  buf = blank;
  sent = [];
  ended = none;
}

busy-IsQueue : IsQueue heap busy.queue
busy-IsQueue = record {
  ring = record {
    allocated = inr (omega arith);
    bounded = omega arith;
    held = omega arith;
    inside = inl (omega arith);
  };
  room = omega arith;
}

push_message_lem_example :
    (60 < limit
      → (c' : Controller) × (push_message heap busy (λ n. false) rotate_device ≡ ok (c', true))
        × Appended heap busy rotate_device c')
    × (limit ≤ 60
        → is_droppable rotate_device ≡ true
        → push_message heap busy (λ n. false) rotate_device ≡ ok (busy, false))
    × (limit ≤ 60
        → is_droppable rotate_device ≡ false
        → ((c' : Controller) × (push_message heap busy (λ n. false) rotate_device ≡ ok (c', true))
            × Appended heap busy rotate_device c')
          ⊎ (◌≡◌ {A = ℕ} 60 64
              × IsAtMost (with_alloc heap (λ n. false)) busy.queue
              × (push_message heap busy (λ n. false) rotate_device ≡ ok (busy, false))))
push_message_lem_example =
    push_message_lem heap (omega arith) busy (λ n. false) rotate_device busy-IsQueue

abbrev schedule : List Action
schedule =
    take_msg
    ∷ push_msg (λ n. true) (back_or_screen_on 1)
    ∷ take_msg
    ∷ push_msg (λ n. true) rotate_device
    ∷ send 2
    ∷ take_msg
    ∷ send 0
    ∷ take_msg
    ∷ stop
    ∷ []

-- The bytes written, and how the thread ended.
abbrev outcome : Result Controller → Option (List ℕ × Option Bool × ℕ)
outcome (ok c) = elim (run heap c schedule) [
  | ok (c', pushed) ↦ some (c'.sent, c'.ended, length pushed)
  | _ ↦ none
]
outcome _ = none

schedule_runs : outcome (new_controller heap blank) ≡ some (4 ∷ 1 ∷ [], some false, 2)
unfolding new_controller run step push_message push_noresize pop reserve serialize type_of slice
    memcpy
schedule_runs = refl

run_lem_example :
    ((c : Controller) × (c' : Controller) × (pushed : List ControlMsg) × (new_controller heap blank
        ≡ ok c)
      × (run heap c schedule ≡ ok (c', pushed))
      × Inv heap pushed c')
    ⊎ (new_controller heap blank ≡ out_of_memory)
run_lem_example = run_lem heap blank schedule (omega arith) (omega arith)
