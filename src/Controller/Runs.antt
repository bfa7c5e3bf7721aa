-- ===== src/Controller/Runs.antt =====
-- Every schedule of the controller from `sc_controller_init` on.
use cicy_agent_adr.Prelude.{
  ◌+◌, ◌≡◌, ◌⊎◌, inl, inr, refl, sym, ap, ◌∙◌, subst, false, none, List, [], ◌∷◌, ◌++◌, arith,
  append-nil, append_assoc,
}
use cicy_agent_adr.Prelude.Memory.{Buffer}
use cicy_agent_adr.VecDeque.{Heap, ok, out_of_memory, init}
use cicy_agent_adr.VecDeque.Contents.{contents, IsValid}
use cicy_agent_adr.Prelude.Window.{window}
use cicy_agent_adr.VecDeque.Refine.{reserve_lem}
use cicy_agent_adr.ControlMsg.{ControlMsg}
use cicy_agent_adr.Controller.{
  Controller, Action, push_msg, stop, wake, take_msg, send, limit, new_controller, stop_controller,
  thread_step, step, run,
}
use cicy_agent_adr.Controller.Push.{IsRoomy, push_message_cases}
use cicy_agent_adr.Controller.Fifo.{
  Inv, AllSendableActions, IsSendableAction, AllSendable, wires, pushed-Inv, stop-Inv, wake-Inv,
  thread-Inv,
}

-- A step adds to the messages pushed before.
abbrev StepGoes : Heap ControlMsg → List ControlMsg → Controller → Action → Type 0
StepGoes heap pushed c a =
    (c' : Controller) × (added : List ControlMsg) × (step heap c a ≡ ok (c', added))
    × Inv heap (pushed ++ added) c'

module _ (heap : Heap ControlMsg) (roomy : IsRoomy heap) (pushed : List ControlMsg) (c : Controller)
    (h : Inv heap pushed c) where
  same : (c' : Controller) → Inv heap pushed c' → Inv heap (pushed ++ []) c'
  same c' = subst (λ t. Inv heap t c') (sym (append-nil pushed))

  thread-StepGoes :
      (a : Action)
      → ((r : Controller)
          → thread_step c c.ended c.waiting c.current a ≡ ok r
          → step heap c a ≡ ok (r, []))
      → StepGoes heap pushed c a
  thread-StepGoes a s =
      let (c', e, i) =
        thread-Inv heap pushed c c.ended c.waiting c.current a roomy h refl refl refl in
      (c', [], s c' e, same c' i)

  step-Inv : (a : Action) → IsSendableAction a → StepGoes heap pushed c a
  unfolding step
  step-Inv (push_msg alloc msg) s = elim (push_message_cases heap roomy c alloc msg h.valid) [
    | inl (c', e, a) ↦ (c', msg ∷ [], rw (e, step), pushed-Inv heap pushed c msg c' s h a)
    | inr e ↦ (c, [], rw (e, step), same c h)
  ]
  step-Inv stop s = (stop_controller c, [], refl, same _ (stop-Inv heap pushed c h))
  step-Inv wake s = (record c { waiting = false }, [], refl, same _ (wake-Inv heap pushed c h))
  step-Inv take_msg s = thread-StepGoes take_msg (λ r e. rw (e, step))
  step-Inv (send n) s = thread-StepGoes (send n) (λ r e. rw (e, step))

run-Inv :
    (heap : Heap ControlMsg) (roomy : IsRoomy heap) (pushed : List ControlMsg) (c : Controller)
    (actions : List Action)
    → Inv heap pushed c
    → AllSendableActions actions
    → (c' : Controller) × (later : List ControlMsg) × (run heap c actions ≡ ok (c', later))
      × Inv heap (pushed ++ later) c'
unfolding run
run-Inv heap roomy pushed c [] h s =
    (c, [], refl, subst (λ t. Inv heap t c) (sym (append-nil pushed)) h)
run-Inv heap roomy pushed c (a ∷ actions) h s =
    let (c1, added, e1, h1) = step-Inv heap roomy pushed c h a s.0 in
    let (c2, later, e2, h2) = run-Inv heap roomy (pushed ++ added) c1 actions h1 s.1 in
    (
      c2,
      added ++ later,
      rw (e1, run, e2),
      subst (λ t. Inv heap t c2) (append_assoc pushed added later) h2,
    )

init-IsValid : (heap : Heap ControlMsg) → IsValid heap (init heap.garbage)
init-IsValid heap = record {
  allocated = inl refl;
  bounded = omega arith;
  held = omega arith;
  inside = inr (refl, refl);
}

-- A new controller, if there is memory for its queue.
pub new_controller-Inv :
    (heap : Heap ControlMsg) (buf : Buffer)
    → IsRoomy heap
    → ((c : Controller) × (new_controller heap buf ≡ ok c) × Inv heap [] c)
      ⊎ (new_controller heap buf ≡ out_of_memory)
unfolding new_controller
new_controller-Inv heap buf roomy =
    elim (reserve_lem heap (omega arith) (init heap.garbage) (init-IsValid heap) (limit + 4)
      roomy) [
        | inr (p, n, e) ↦ inr (rw (e, new_controller))
        | inl (q, e, items, valid, room, size_eq) ↦
            let none_yet : contents q ≡ [] = items ∙ unfold contents window in refl in
            inl (
              record {
                queue = q;
                stopped = false;
                waiting = false;
                current = none;
                buf = buf;
                sent = [];
                ended = none;
              },
              rw (e, new_controller),
              record {
                valid = record { ring = valid; room = omega arith };
                lost = [];
                bytes = ap wires none_yet;
                alive = λ a. refl;
                sendable = subst AllSendable (sym none_yet) tt;
                sendable_hand = tt;
                asleep = λ a. cc;
              },
            )
      ]

-- From `sc_controller_init`, unless there is no memory for the queue, every schedule of pushes of
-- sendable messages (whose texts are of bytes and start at a character, and whose floats can be
-- converted), of stops, of wake-ups and of steps of the thread, whatever `net_send_all`
-- returns, runs without a failed assertion or a read outside a text. At its end the invariant
-- holds of the messages that were pushed: the bytes written, those that the thread still has or
-- lost by a failed write, and those of the queue are the bytes of the pushed messages in order;
-- nothing is lost before the thread ends; and the thread waits only on an empty queue while it is
-- neither stopped nor ended.
pub run_lem :
    (heap : Heap ControlMsg) (buf : Buffer) (actions : List Action)
    → IsRoomy heap
    → AllSendableActions actions
    → ((c : Controller) × (c' : Controller) × (pushed : List ControlMsg) × (new_controller heap buf
          ≡ ok c)
        × (run heap c actions ≡ ok (c', pushed))
        × Inv heap pushed c')
      ⊎ (new_controller heap buf ≡ out_of_memory)
run_lem heap buf actions roomy s = elim (new_controller-Inv heap buf roomy) [
  | inr e ↦ inr e
  | inl (c, e, h) ↦
      let (c', pushed, r, h') = run-Inv heap roomy [] c actions h s in inl (c, c', pushed, e, r, h')
]
