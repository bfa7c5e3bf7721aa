-- ===== src/Controller/Push.antt =====
-- `sc_controller_push_msg` on every branch.
use cicy_agent_adr.Prelude.{
  ℕ, ◌+◌, ◌≤◌, ◌<◌, ◌≡◌, ◌⊎◌, inl, inr, refl, Bool, true, false, [], ◌∷◌, ◌++◌, arith, ltb,
  Bool-cases, if◌then◌else◌,
}
use cicy_agent_adr.VecDeque.{VecDeque, Heap, ok, max_cap, is_empty}
use cicy_agent_adr.VecDeque.Contents.{contents, IsValid, push_noresize_lem}
use cicy_agent_adr.VecDeque.Refine.{IsAtMost, push_refines}
use cicy_agent_adr.ControlMsg.{ControlMsg, is_droppable}
use cicy_agent_adr.Controller.{Controller, limit, push_message, with_alloc}
use native.Mathlib.Decide.{dec_lt}

-- The queue is a valid ring, with room for as many messages as the limit.
pub record IsQueue (heap : Heap ControlMsg) (q : VecDeque ControlMsg) : Type 0 where
  pub ring : IsValid heap q
  pub room : limit ≤ q.cap

-- The item size leaves room for a queue.
abbrev pub IsRoomy : Heap ControlMsg → Type 0
IsRoomy heap = limit + 4 ≤ max_cap heap

with_alloc-IsValid :
    (heap : Heap ControlMsg) (alloc alloc' : ℕ → Bool) (q : VecDeque ControlMsg)
    → IsValid (with_alloc heap alloc) q
    → IsValid (with_alloc heap alloc') q
with_alloc-IsValid heap alloc alloc' q h = record {
  allocated = h.allocated;
  bounded = h.bounded;
  held = h.held;
  inside = h.inside;
}

-- The message stands behind those queued before; the thread is woken if there was none.
pub record Appended (heap : Heap ControlMsg) (c : Controller) (msg : ControlMsg) (c' : Controller)
    : Type 0 where
  pub queue : VecDeque ControlMsg
  pub frame :
      c' ≡ record c { queue = queue; waiting = if is_empty c.queue then false else c.waiting }
  pub added : contents queue ≡ contents c.queue ++ (msg ∷ [])
  pub valid : IsQueue heap queue

module _ (heap : Heap ControlMsg) (roomy : IsRoomy heap) (c : Controller) (alloc : ℕ → Bool)
    (msg : ControlMsg) (h : IsQueue heap c.queue) where
  below_limit :
      c.queue.size < limit
      → (c' : Controller) × (push_message heap c alloc msg ≡ ok (c', true)) × Appended heap c msg c'
  unfolding push_message
  below_limit p =
      let test : ltb c.queue.size limit ≡ true = ground arith in
      let (q, e, added, valid, cap_eq) =
        push_noresize_lem heap c.queue msg h.ring (λ f. omega (arith, f, h.room)) in
      (
        _,
        rw (test, e, push_message),
        record {
          queue = q;
          frame = refl;
          added = added;
          valid = record { ring = valid; room = omega (arith, h.room) };
        },
      )

  dropped :
      limit ≤ c.queue.size → is_droppable msg ≡ true → push_message heap c alloc msg ≡ ok (c, false)
  unfolding push_message
  dropped p d = let test : ltb c.queue.size limit ≡ false = ground arith in rw (test, d)

  kept :
      limit ≤ c.queue.size
      → is_droppable msg ≡ false
      → ((c' : Controller) × (push_message heap c alloc msg ≡ ok (c', true))
          × Appended heap c msg c')
        ⊎ ((c.queue.size ≡ c.queue.cap)
            × IsAtMost (with_alloc heap alloc) c.queue
            × (push_message heap c alloc msg ≡ ok (c, false)))
  unfolding push_message
  kept p d =
      let test : ltb c.queue.size limit ≡ false = ground arith in
      let busy : is_empty c.queue ≡ false = ground arith in
      elim (push_refines (with_alloc heap alloc) (omega arith) c.queue
        (with_alloc-IsValid heap heap.alloc alloc c.queue h.ring) msg) [
          | inr (full, why, e) ↦ inr (full, why, rw (test, d, e, push_message))
          | inl (q, e, added, valid, more) ↦ inl (
            record c { queue = q },
            rw (test, d, e, push_message),
            record {
              queue = q;
              frame = rw busy;
              added = added;
              valid = record {
                ring = with_alloc-IsValid heap alloc heap.alloc q valid;
                room = omega (arith, h.room);
              };
            },
          )
        ]

  -- Below the limit a message is always appended, and the thread is woken if the queue was empty.
  -- At or above the limit a droppable message is discarded, and any other is appended unless the
  -- queue is full and it either has the greatest capacity or the allocator has no block of a capacity
  -- half as large again. A discarded message changes nothing, and on no path
  -- does an assertion fail.
  pub push_message_lem :
      (c.queue.size < limit
        → (c' : Controller) × (push_message heap c alloc msg ≡ ok (c', true))
          × Appended heap c msg c')
      × (limit ≤ c.queue.size
          → is_droppable msg ≡ true
          → push_message heap c alloc msg ≡ ok (c, false))
      × (limit ≤ c.queue.size
          → is_droppable msg ≡ false
          → ((c' : Controller) × (push_message heap c alloc msg ≡ ok (c', true))
              × Appended heap c msg c')
            ⊎ ((c.queue.size ≡ c.queue.cap)
                × IsAtMost (with_alloc heap alloc) c.queue
                × (push_message heap c alloc msg ≡ ok (c, false))))
  push_message_lem = (below_limit, dropped, kept)

  -- Either way the call returns.
  pub push_message_cases :
      ((c' : Controller) × (push_message heap c alloc msg ≡ ok (c', true)) × Appended heap c msg c')
      ⊎ (push_message heap c alloc msg ≡ ok (c, false))
  push_message_cases = elim (dec_lt c.queue.size limit) [
    | yes p ↦ inl (below_limit p)
    | no p ↦ elim (Bool-cases (is_droppable msg)) [
      | inl d ↦ inr (dropped (omega arith) d)
      | inr d ↦ elim (kept (omega arith) d) [ inl r ↦ inl r | inr (full, why, e) ↦ inr e ]
    ]
  ]
