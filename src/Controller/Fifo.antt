-- ===== src/Controller/Fifo.antt =====
-- The bytes that the controller thread writes are those of the pushed messages, in order.
use cicy_agent_adr.Prelude.{
  ℕ, ◌≡◌, ◌≢◌, inl, inr, refl, sym, ap, ◌∙◌, subst, Bool, true, false, Option, none, some, List, [],
  ◌∷◌, ◌++◌, length, arith, Bool-cases, append-nil, append_assoc, if◌then◌else◌,
}
use cicy_agent_adr.Prelude.Memory.{slice, memcpy, slice-memcpy}
use cicy_agent_adr.VecDeque.{VecDeque, Heap, Result, ok, is_empty, pop}
use cicy_agent_adr.VecDeque.Contents.{contents}
use cicy_agent_adr.VecDeque.Refine.{pop_refines}
use cicy_agent_adr.ControlMsg.{ControlMsg}
use cicy_agent_adr.ControlMsg.Wire.{wire_pos, wire, IsSendable}
use cicy_agent_adr.ControlMsg.Exact.{serialize-wire}
use cicy_agent_adr.Controller.{
  Controller, Action, push_msg, take_msg, send, stop_controller, take_message, send_message,
  thread_step,
}
use cicy_agent_adr.Controller.Push.{IsQueue, IsRoomy, Appended}
use native.Mathlib.Decide.{ℕ_discrete}

-- The bytes of a sequence of messages.
abbrev pub wires : List ControlMsg → List ℕ
wires [] = []
wires (m ∷ ms) = wire m ++ wires ms

abbrev pub AllSendable : List ControlMsg → Type 0
AllSendable [] = Unit {0}
AllSendable (m ∷ ms) = IsSendable m × AllSendable ms

-- The message in the thread's hands.
abbrev pub in_hand : Option ControlMsg → List ControlMsg
in_hand none = []
in_hand (some msg) = msg ∷ []

-- The messages that a schedule offers can be sent.
abbrev pub IsSendableAction : Action → Type 0
IsSendableAction (push_msg _ msg) = IsSendable msg
IsSendableAction _ = Unit {0}

abbrev pub AllSendableActions : List Action → Type 0
AllSendableActions [] = Unit {0}
AllSendableActions (a ∷ actions) = IsSendableAction a × AllSendableActions actions

wires-append : (ms ns : List ControlMsg) → wires (ms ++ ns) ≡ wires ms ++ wires ns
wires-append [] ns = refl
wires-append (m ∷ ms) ns =
    ap (λ t. wire m ++ t) (wires-append ms ns) ∙ sym (append_assoc (wire m) (wires ms) (wires ns))

AllSendable-append :
    (ms : List ControlMsg) (m : ControlMsg)
    → AllSendable ms
    → IsSendable m
    → AllSendable (ms ++ (m ∷ []))
AllSendable-append [] m h k = (k, tt)
AllSendable-append (n ∷ ms) m h k = (h.0, AllSendable-append ms m h.1 k)

-- What holds between two steps, after `pushed` has been pushed. While the thread has not ended,
-- what it has not written yet is the message in its hands and the queue; and it waits only while
-- it has nothing to do.
pub record Inv (heap : Heap ControlMsg) (pushed : List ControlMsg) (c : Controller) : Type 0 where
  pub valid : IsQueue heap c.queue
  pub lost : List ℕ
  pub bytes : c.sent ++ (lost ++ wires (contents c.queue)) ≡ wires pushed
  pub alive : c.ended ≡ none → lost ≡ wires (in_hand c.current)
  pub sendable : AllSendable (contents c.queue)
  pub sendable_hand : AllSendable (in_hand c.current)
  pub asleep :
      c.waiting ≡ true
      → (c.queue.size ≡ 0) × (c.stopped ≡ false) × (c.current ≡ none) × (c.ended ≡ none)

module _ (heap : Heap ControlMsg) (pushed : List ControlMsg) where
  pub pushed-Inv :
      (c : Controller) (msg : ControlMsg) (c' : Controller)
      → IsSendable msg
      → Inv heap pushed c
      → Appended heap c msg c'
      → Inv heap (pushed ++ (msg ∷ [])) c'
  pushed-Inv c msg c' s h a = subst (Inv heap (pushed ++ (msg ∷ []))) (sym a.frame) after
    where
      after :
          Inv heap
            (pushed ++ (msg ∷ []))
            (record c { queue = a.queue; waiting = if is_empty c.queue then false else c.waiting })
      after = record {
        valid = a.valid;
        lost = h.lost;
        bytes =
            ap (λ t. c.sent ++ (h.lost ++ t))
              (ap wires a.added ∙ wires-append (contents c.queue) (msg ∷ []))
            ∙ ap (λ t. c.sent ++ t)
                (sym (append_assoc h.lost (wires (contents c.queue)) (wires (msg ∷ []))))
            ∙ sym (append_assoc c.sent (h.lost ++ wires (contents c.queue)) (wires (msg ∷ [])))
            ∙ ap (λ t. t ++ wires (msg ∷ [])) h.bytes
            ∙ sym (wires-append pushed (msg ∷ []));
        alive = h.alive;
        sendable =
            subst AllSendable (sym a.added)
              (AllSendable-append (contents c.queue) msg h.sendable s);
        sendable_hand = h.sendable_hand;
        asleep = λ w. ground (arith, h.asleep);
      }

  pub stop-Inv : (c : Controller) → Inv heap pushed c → Inv heap pushed (stop_controller c)
  unfolding stop_controller
  stop-Inv c h = record {
    valid = h.valid;
    lost = h.lost;
    bytes = h.bytes;
    alive = h.alive;
    sendable = h.sendable;
    sendable_hand = h.sendable_hand;
    asleep = λ w. cc;
  }

  pub wake-Inv :
      (c : Controller) → Inv heap pushed c → Inv heap pushed (record c { waiting = false })
  wake-Inv c h = record {
    valid = h.valid;
    lost = h.lost;
    bytes = h.bytes;
    alive = h.alive;
    sendable = h.sendable;
    sendable_hand = h.sendable_hand;
    asleep = λ w. cc;
  }

take_stopped :
    (c : Controller) → c.stopped ≡ true → take_message c ≡ ok (record c { ended = some false })
unfolding take_message
take_stopped c s = ground arith

take_none :
    (c : Controller)
    → c.stopped ≡ false
    → c.queue.size ≡ 0
    → take_message c ≡ ok (record c { waiting = true })
unfolding take_message
take_none c s z = ground arith

take_some :
    (c : Controller) (msg : ControlMsg) (q : VecDeque ControlMsg)
    → c.stopped ≡ false
    → c.queue.size ≢ 0
    → pop c.queue ≡ ok (msg, q)
    → take_message c ≡ ok (record c { queue = q; current = some msg })
unfolding take_message
take_some c msg q s nz p = ground arith

-- The written buffer starts with the bytes of the message.
slice-wire :
    (c : Controller) (msg : ControlMsg)
    → slice (memcpy c.buf 0 (wire msg)) 0 (length (wire msg)) ≡ wire msg
slice-wire c msg = slice-memcpy c.buf 0 (wire msg)

send_whole :
    (c : Controller) (msg : ControlMsg) (w : ℕ)
    → IsSendable msg
    → w ≡ length (wire msg)
    → send_message c msg w
      ≡ ok (record c {
        current = none;
        buf = memcpy c.buf 0 (wire msg);
        sent = c.sent ++ slice (memcpy c.buf 0 (wire msg)) 0 (length (wire msg));
      })
unfolding send_message
send_whole c msg w s e = ground (arith, serialize-wire msg c.buf s, wire_pos msg)

send_part :
    (c : Controller) (msg : ControlMsg) (w : ℕ)
    → IsSendable msg
    → w ≢ length (wire msg)
    → send_message c msg w
      ≡ ok (record c { current = none; buf = memcpy c.buf 0 (wire msg); ended = some false })
unfolding send_message
send_part c msg w s e = ground (arith, serialize-wire msg c.buf s, wire_pos msg)

module _ (heap : Heap ControlMsg) (pushed : List ControlMsg) where
  -- The outcome of a step of the thread.
  abbrev pub Goes : Result Controller → Type 0
  Goes r = (c' : Controller) × (r ≡ ok c') × Inv heap pushed c'

  take-Inv :
      (c : Controller)
      → IsRoomy heap
      → Inv heap pushed c
      → c.ended ≡ none
      → c.waiting ≡ false
      → c.current ≡ none
      → Goes (take_message c)
  take-Inv c roomy h e w k = elim (Bool-cases c.stopped) [
    | inl s ↦ (
      record c { ended = some false },
      take_stopped c s,
      record {
        valid = h.valid;
        lost = h.lost;
        bytes = h.bytes;
        alive = λ a. cc;
        sendable = h.sendable;
        sendable_hand = h.sendable_hand;
        asleep = λ a. cc;
      },
    )
    | inr s ↦ elim (ℕ_discrete c.queue.size 0) [
      | yes z ↦ (
        record c { waiting = true },
        take_none c s z,
        record {
          valid = h.valid;
          lost = h.lost;
          bytes = h.bytes;
          alive = h.alive;
          sendable = h.sendable;
          sendable_hand = h.sendable_hand;
          asleep = λ a. (z, s, k, e);
        },
      )
      | no nz ↦
          let (msg, q, p, items, ring, cap_eq) =
            pop_refines heap (omega arith) c.queue h.valid.ring nz in
          let all : AllSendable (msg ∷ contents q) = subst AllSendable items h.sendable in
          let none_lost : h.lost ≡ [] = h.alive e ∙ ap (λ t. wires (in_hand t)) k in
          (
            record c { queue = q; current = some msg },
            take_some c msg q s nz p,
            record {
              valid = record { ring = ring; room = omega (arith, h.valid.room) };
              lost = wire msg ++ [];
              bytes =
                  ap (λ t. c.sent ++ t)
                    (append_assoc (wire msg) [] (wires (contents q))
                      ∙ ap wires (sym items)
                      ∙ ap (λ t. t ++ wires (contents c.queue)) (sym none_lost))
                  ∙ h.bytes;
              alive = λ a. refl;
              sendable = all.1;
              sendable_hand = (all.0, tt);
              asleep = λ a. cc;
            },
          )
    ]
  ]

  send-Inv :
      (c : Controller) (msg : ControlMsg) (w : ℕ)
      → Inv heap pushed c
      → c.ended ≡ none
      → c.waiting ≡ false
      → c.current ≡ some msg
      → Goes (send_message c msg w)
  send-Inv c msg w h e a k =
      let s : IsSendable msg = (subst (λ t. AllSendable (in_hand t)) k h.sendable_hand).0 in
      let lost_eq : h.lost ≡ wire msg =
        h.alive e ∙ ap (λ t. wires (in_hand t)) k ∙ append-nil (wire msg) in
      elim (ℕ_discrete w (length (wire msg))) [
        | yes all ↦ (
          _,
          send_whole c msg w s all,
          record {
            valid = h.valid;
            lost = [];
            bytes =
                append_assoc c.sent (slice (memcpy c.buf 0 (wire msg)) 0 (length (wire msg)))
                  (wires (contents c.queue))
                ∙ ap (λ t. c.sent ++ (t ++ wires (contents c.queue)))
                    (slice-wire c msg ∙ sym lost_eq)
                ∙ h.bytes;
            alive = λ b. refl;
            sendable = h.sendable;
            sendable_hand = tt;
            asleep = λ b. cc;
          },
        )
        | no part ↦ (
          _,
          send_part c msg w s part,
          record {
            valid = h.valid;
            lost = h.lost;
            bytes = h.bytes;
            alive = λ b. cc;
            sendable = h.sendable;
            sendable_hand = tt;
            asleep = λ b. cc;
          },
        )
      ]

  pub thread-Inv :
      (c : Controller) (o : Option Bool) (b : Bool) (m : Option ControlMsg) (a : Action)
      → IsRoomy heap
      → Inv heap pushed c
      → c.ended ≡ o
      → c.waiting ≡ b
      → c.current ≡ m
      → Goes (thread_step c o b m a)
  thread-Inv c none false none take_msg roomy h e w k = take-Inv c roomy h e w k
  thread-Inv c none false (some msg) (send n) roomy h e w k = send-Inv c msg n h e w k
  thread-Inv c _ _ _ _ roomy h e w k = (c, refl, h)
