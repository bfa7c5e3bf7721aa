-- ===== src/Controller.antt =====
-- The controller, scrcpy/app/src/controller.c: threads push control messages on a bounded queue,
-- and the controller thread takes them off and writes them to the control socket.
-- What stands between a lock and an unlock of the mutex is one step.
pub mod Push
pub mod Fifo
pub mod Runs
mod Tests
use cicy_agent_adr.Prelude.{
  ℕ, ◌+◌, Bool, true, false, not, Option, none, some, List, [], ◌∷◌, ◌++◌, ltb, ◌==◌, if◌then◌else◌,
}
use cicy_agent_adr.Prelude.Memory.{Memory, Buffer, slice}
use cicy_agent_adr.VecDeque.{
  VecDeque, Heap, Result, ok, out_of_memory, asserted, init, is_empty, reserve, push_noresize, push,
  pop,
}
use cicy_agent_adr.ControlMsg.{ControlMsg, is_droppable}
use cicy_agent_adr.ControlMsg.Serialize.{serialize}

-- SC_CONTROL_MSG_QUEUE_LIMIT
abbrev pub limit : ℕ
limit = 60

-- The fields of `struct sc_controller` that change, and the local state of its thread: whether it
-- waits on `msg_cond`, the message in its hands, `serialized_msg`, the bytes that it has written,
-- and the `error` that it passed to `on_ended`.
pub record Controller : Type 0 where
  pub queue : VecDeque ControlMsg
  pub stopped : Bool
  pub waiting : Bool
  pub current : Option ControlMsg
  pub buf : Buffer
  pub sent : List ℕ
  pub ended : Option Bool

-- `sc_controller_init`, as far as the queue goes; `start` is a thread that has not run yet.
unfoldable pub new_controller : Heap ControlMsg → Buffer → Result Controller
new_controller heap buf = elim (reserve heap (init heap.garbage) (limit + 4)) [
  | ok q ↦ ok (record {
    queue = q;
    stopped = false;
    waiting = false;
    current = none;
    buf = buf;
    sent = [];
    ended = none;
  })
  | out_of_memory ↦ out_of_memory
  | asserted ↦ asserted
]

-- A call of the environment or a step of the thread.
pub data Action : Type 0 where
  push_msg : (alloc : ℕ → Bool) (msg : ControlMsg) → Action
  stop : Action
  wake : Action
  take_msg : Action
  send : (w : ℕ) → Action

-- The allocator at one call.
abbrev pub with_alloc : Heap ControlMsg → (ℕ → Bool) → Heap ControlMsg
with_alloc heap alloc = record heap { alloc = alloc }

module _ (heap : Heap ControlMsg) where
  -- `sc_controller_push_msg`: the controller and whether the message was pushed. A signal ends the
  -- thread's wait.
  unfoldable pub push_message : Controller → (ℕ → Bool) → ControlMsg → Result (Controller × Bool)
  push_message c alloc msg =
      let was_empty = is_empty c.queue in
      let queued : Result (Controller × Bool) = elim (push_noresize c.queue msg) [
        | ok q ↦ ok (record c { queue = q; waiting = if was_empty then false else c.waiting }, true)
        | out_of_memory ↦ out_of_memory
        | asserted ↦ asserted
      ] in
      let kept : Result (Controller × Bool) = elim (push (with_alloc heap alloc) c.queue msg) [
        | ok q ↦ ok (record c { queue = q }, true)
        | out_of_memory ↦ ok (c, false)
        | asserted ↦ asserted
      ] in
      if ltb c.queue.size limit
      then queued
      else if not (is_droppable msg)
      then kept
      else ok (c, false)

-- `sc_controller_stop`
unfoldable pub stop_controller : Controller → Controller
stop_controller c = record c { stopped = true; waiting = false }

-- The locked part of a round of `run_controller`: it stops, waits or takes a message.
unfoldable pub take_message : Controller → Result Controller
take_message c =
    let taken : Result Controller = elim (pop c.queue) [
      | ok (msg, q) ↦ ok (record c { queue = q; current = some msg })
      | out_of_memory ↦ out_of_memory
      | asserted ↦ asserted
    ] in
    if c.stopped
    then ok (record c { ended = some false })
    else if is_empty c.queue
    then ok (record c { waiting = true })
    else taken

-- `process_msg` and the end of the round, where `net_send_all` returns `w` (-1 is 2 ^ 64 - 1).
-- `asserted` is also a read outside a text.
unfoldable pub send_message : Controller → ControlMsg → ℕ → Result Controller
send_message c msg w = elim (serialize msg c.buf) [
  | none ↦ asserted
  | some (buf, len) ↦
      if len == 0
      then ok (record c { current = none; buf = buf; ended = some true })
      else if w == len
      then ok (record c { current = none; buf = buf; sent = c.sent ++ slice buf 0 len })
      else ok (record c { current = none; buf = buf; ended = some false })
]

-- Where the thread is: it can take a step in its state only.
abbrev pub thread_step :
    Controller → Option Bool → Bool → Option ControlMsg → Action → Result Controller
thread_step c none false none take_msg = take_message c
thread_step c none false (some msg) (send w) = send_message c msg w
thread_step c _ _ _ _ = ok c

module _ (heap : Heap ControlMsg) where
  -- One action: the new state, and the message that it added to the queue.
  unfoldable pub step : Controller → Action → Result (Controller × List ControlMsg)
  unfolding push_message stop_controller take_message send_message
  step c (push_msg alloc msg) = elim (push_message heap c alloc msg) [
    | ok (c', pushed) ↦ ok (c', if pushed then msg ∷ [] else [])
    | out_of_memory ↦ out_of_memory
    | asserted ↦ asserted
  ]
  step c stop = ok (stop_controller c, [])
  step c wake = ok (record c { waiting = false }, [])
  step c a = elim (thread_step c c.ended c.waiting c.current a) [
    | ok c' ↦ ok (c', [])
    | out_of_memory ↦ out_of_memory
    | asserted ↦ asserted
  ]

  -- A schedule: the last state, and the messages that were pushed, in order.
  unfoldable pub run : Controller → List Action → Result (Controller × List ControlMsg)
  run c [] = ok (c, [])
  run c (a ∷ actions) = elim (step c a) [
    | out_of_memory ↦ out_of_memory
    | asserted ↦ asserted
    | ok (c', added) ↦ elim (run c' actions) [
      | out_of_memory ↦ out_of_memory
      | asserted ↦ asserted
      | ok (c'', later) ↦ ok (c'', added ++ later)
    ]
  ]
