-- ===== src/VecDeque.antt =====
-- The growable ring of scrcpy/app/src/util/vecdeque.h, `struct SC_VECDEQUE(type)`.
-- The macros that may allocate take the allocator as an argument; a failed assertion is a result.
pub mod Contents
pub mod Grow
pub mod Refine
mod Tests
use cicy_agent_adr.Prelude.{
  ℕ, ◌+◌, ◌-◌, ◌*◌, ◌/◌, ◌%◌, ◌^◌, ◌≤◌, ◌<◌, min, Bool, true, false, List, leb, ltb, ◌==◌,
  if◌then◌else◌,
}
use cicy_agent_adr.Prelude.Memory.{Memory, store, memcpy, slice}
use Prim.Native.Nat.{max}

pub record VecDeque {ℓ} (A : Type ℓ) : Type ℓ where
  pub cap : ℕ
  pub origin : ℕ
  pub size : ℕ
  pub items : Memory A

-- What the platform gives: `sizeof` an item, whether `malloc` or `realloc` returns a block of so
-- many bytes, and what stands in a new block.
pub record Heap {ℓ} (A : Type ℓ) : Type ℓ where
  pub item_size : ℕ
  pub alloc : ℕ → Bool
  pub garbage : Memory A

-- `false` of the source is `out_of_memory`; `asserted` is a failed `assert`.
pub data Result {ℓ} (A : Type ℓ) : Type ℓ where
  ok : A → Result A
  out_of_memory : Result A
  asserted : Result A

abbrev pub mincap : ℕ
mincap = 10

-- `CLAMP(V, X, Y)` of common.h
abbrev pub clamp : ℕ → ℕ → ℕ → ℕ
clamp v x y = min (max v x) y

abbrev pub growsize : ℕ → ℕ
growsize value = value + value / 2

module _ {ℓ} {A : Type ℓ} where
  -- `sc_vecdeque_init`
  abbrev pub init : Memory A → VecDeque A
  init items = record { cap = 0; origin = 0; size = 0; items = items }

  abbrev pub is_empty : VecDeque A → Bool
  is_empty v = v.size == 0

  abbrev pub is_full : VecDeque A → Bool
  is_full v = v.size == v.cap

module _ {ℓ} {A : Type ℓ} (heap : Heap A) where
  -- SIZE_MAX / 2 / sizeof(item)
  abbrev pub max_cap : ℕ
  max_cap = (2 ^ 64 - 1) / 2 / heap.item_size

  -- What is copied to a new block: the items up to the end of the array, then those at its front.
  unfoldable pub copied : VecDeque A → Memory A
  unfolding memcpy slice
  copied v =
      let right_len = min v.size (v.cap - v.origin) in
      let right = memcpy heap.garbage 0 (slice v.items v.origin right_len) in
      if ltb right_len v.size
      then memcpy right right_len (slice v.items 0 (v.size - right_len))
      else right

  -- `sc_vecdeque_reallocdata_` and `sc_vecdeque_realloc_`
  unfoldable pub realloc : VecDeque A → ℕ → Result (VecDeque A)
  unfolding copied
  realloc v newcap =
      if leb newcap v.cap
      then asserted
      else if leb (v.origin + v.size) v.cap
      then (if heap.alloc (newcap * heap.item_size)
          then ok (record v { cap = newcap })
          else out_of_memory)
      else if v.size == 0
      then asserted
      else if heap.alloc (newcap * heap.item_size)
      then (if min v.size (v.cap - v.origin) == 0
          then asserted
          else ok (record v { cap = newcap; origin = 0; items = copied v }))
      else out_of_memory

  -- `sc_vecdeque_reserve`
  unfoldable pub reserve : VecDeque A → ℕ → Result (VecDeque A)
  unfolding realloc
  reserve v wanted =
      let least = max wanted mincap in
      if ltb max_cap wanted
      then asserted
      else if leb least v.cap
      then ok v
      else if leb least max_cap
      then realloc v (clamp (growsize v.cap) least max_cap)
      else out_of_memory

  -- `sc_vecdeque_grow_`
  unfoldable pub grow : VecDeque A → Result (VecDeque A)
  unfolding realloc
  grow v =
      if ltb v.cap max_cap then realloc v (clamp (growsize v.cap) mincap max_cap) else out_of_memory

  -- `sc_vecdeque_grow_if_needed_`
  unfoldable pub grow_if_needed : VecDeque A → Result (VecDeque A)
  unfolding grow
  grow_if_needed v = if is_full v then grow v else ok v

module _ {ℓ} {A : Type ℓ} where
  -- `sc_vecdeque_push_noresize`
  unfoldable pub push_noresize : VecDeque A → A → Result (VecDeque A)
  push_noresize v item =
      if is_full v
      then asserted
      else ok (record v {
        size = v.size + 1;
        items = store v.items ((v.origin + (v.size + 1) - 1) % v.cap) item;
      })

  -- `sc_vecdeque_pop`: the item and what is left.
  unfoldable pub pop : VecDeque A → Result (A × VecDeque A)
  pop v =
      if is_empty v
      then asserted
      else ok (v.items v.origin, record v { origin = (v.origin + 1) % v.cap; size = v.size - 1 })

module _ {ℓ} {A : Type ℓ} (heap : Heap A) where
  -- `sc_vecdeque_push`
  unfoldable pub push : VecDeque A → A → Result (VecDeque A)
  unfolding grow_if_needed push_noresize
  push v item = elim (grow_if_needed heap v) [
    | ok v' ↦ push_noresize v' item
    | out_of_memory ↦ out_of_memory
    | asserted ↦ asserted
  ]
