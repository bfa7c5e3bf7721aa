-- ===== src/Vector.antt =====
-- The growable array of scrcpy/app/src/util/vector.h, `struct SC_VECTOR(type)`.
-- `sc_vector_insert`, which casts the item to `size_t`, and `sc_vector_index_of` are left out. The sum
-- of a size and of the number of items given, which are in memory, does not wrap round `size_t`.
pub mod Blocks
pub mod Room
pub mod Edit
pub mod Rotate
pub mod Rotation
pub mod Move
mod Tests
use cicy_agent_adr.Prelude.{
  ℕ, zero, suc, ◌+◌, ◌-◌, ◌*◌, ◌/◌, ◌^◌, Bool, true, false, ◌&&◌, Option, none, some, List, length,
  min, ltb, leb, ◌==◌, if◌then◌else◌,
}
use cicy_agent_adr.Prelude.Memory.{Memory, store, memcpy, slice}
use Prim.Native.Nat.{max}

pub record Vector {ℓ} (A : Type ℓ) : Type ℓ where
  pub cap : ℕ
  pub size : ℕ
  pub items : Memory A

-- What the platform gives: `sizeof` an item, whether `reallocarray` returns a block of so many items,
-- and what stands in the new part of a block.
pub record Heap {ℓ} (A : Type ℓ) : Type ℓ where
  pub item_size : ℕ
  pub alloc : ℕ → Bool
  pub garbage : Memory A

-- SC_VECTOR_MINCAP_
abbrev pub mincap : ℕ
mincap = 10

-- `sc_vector_clamp_`, over `sc_vector_min_` and `sc_vector_max_`
abbrev pub clamp : ℕ → ℕ → ℕ → ℕ
clamp x low high = max low (min high x)

-- `sc_vector_growsize_`
abbrev pub growsize : ℕ → ℕ
growsize value = value + value / 2

-- `memmove(&m[to], &m[from], n)`
abbrev pub memmove {ℓ} : {A : Type ℓ} → Memory A → (to from n : ℕ) → Memory A
memmove m to from n = memcpy m to (slice m from n)

module _ {ℓ} {A : Type ℓ} where
  -- `sc_vector_init`
  abbrev pub init : Memory A → Vector A
  init items = record { cap = 0; size = 0; items = items }

  -- `sc_vector_remove_slice_noshrink`
  unfoldable pub remove_slice_noshrink : Vector A → (index count : ℕ) → Vector A
  remove_slice_noshrink v index count = record v {
    items =
        if ltb (index + count) v.size
        then memmove v.items index (index + count) (v.size - index - count)
        else v.items;
    size = v.size - count;
  }

  -- `sc_vector_swap_remove`
  unfoldable pub swap_remove : Vector A → ℕ → Vector A
  swap_remove v index = record v {
    items = store v.items index (v.items (v.size - 1));
    size = v.size - 1;
  }

  -- Behind the reservation of `sc_vector_push`, and so on for the others.
  unfoldable pub pushed : A → Vector A × Bool → Vector A × Bool
  pushed item (v, true) = (record v { items = store v.items v.size item; size = v.size + 1 }, true)
  pushed item (v, false) = (v, false)

  unfoldable pub pushed_all : List A → Vector A × Bool → Vector A × Bool
  pushed_all given (v, true) =
      (record v { items = memcpy v.items v.size given; size = v.size + length given }, true)
  pushed_all given (v, false) = (v, false)

  unfoldable pub hole_in : (index count : ℕ) → Vector A × Bool → Vector A × Bool
  hole_in index count (v, true) = (
    record v {
      items =
          if ltb index v.size
          then memmove v.items (index + count) index (v.size - index)
          else v.items;
      size = v.size + count;
    },
    true,
  )
  hole_in index count (v, false) = (v, false)

  -- Behind the hole of `sc_vector_insert_all`.
  unfoldable pub filled : ℕ → List A → Vector A × Bool → Vector A × Bool
  filled index given (v, true) = (record v { items = memcpy v.items index given }, true)
  filled index given (v, false) = (v, false)

module _ {ℓ} {A : Type ℓ} (heap : Heap A) where
  -- SIZE_MAX / 2 / sizeof(item)
  abbrev pub max_cap : ℕ
  max_cap = (2 ^ 64 - 1) / 2 / heap.item_size

  -- `sc_vector_realloc_`: the items that fit are kept.
  unfoldable pub realloc : Vector A → ℕ → Vector A × Bool
  realloc v count =
      if heap.alloc count
      then (
        record {
          cap = count;
          size = min v.size count;
          items = memcpy heap.garbage 0 (slice v.items 0 (min v.cap count));
        },
        true,
      )
      else (v, false)

  -- `sc_vector_resize_`
  unfoldable pub resize : Vector A → ℕ → Vector A × Bool
  unfolding realloc
  resize v newcap =
      if v.cap == newcap
      then (v, true)
      else if ltb 0 newcap
      then realloc v newcap
      else (init heap.garbage, true)

  -- `sc_vector_reserve`
  unfoldable pub reserve : Vector A → ℕ → Vector A × Bool
  unfolding realloc
  reserve v wanted =
      let least = max wanted mincap in
      if leb least v.cap
      then (v, true)
      else if leb least max_cap
      then realloc v (clamp (growsize v.cap) least max_cap)
      else (v, false)

  -- `sc_vector_shrink_to_fit`
  unfoldable pub shrink_to_fit : Vector A → Vector A
  unfolding resize
  shrink_to_fit v = (resize v v.size).0

  -- `sc_vector_autoshrink`
  unfoldable pub autoshrink : Vector A → Vector A
  unfolding resize
  autoshrink v =
      if ltb mincap v.cap && leb (growsize (v.size + 5)) v.cap
      then (resize v (max (v.size + 5) mincap)).0
      else v

  -- `sc_vector_push`
  unfoldable pub push : Vector A → A → Vector A × Bool
  unfolding reserve pushed
  push v item = pushed item (reserve v (v.size + 1))

  -- `sc_vector_push_all`
  unfoldable pub push_all : Vector A → List A → Vector A × Bool
  unfolding reserve pushed_all
  push_all v given = pushed_all given (reserve v (v.size + length given))

  -- `sc_vector_insert_hole`
  unfoldable pub insert_hole : Vector A → (index count : ℕ) → Vector A × Bool
  unfolding reserve hole_in
  insert_hole v index count = hole_in index count (reserve v (v.size + count))

  -- `sc_vector_insert_all`
  unfoldable pub insert_all : Vector A → ℕ → List A → Vector A × Bool
  unfolding insert_hole filled
  insert_all v index given = filled index given (insert_hole v index (length given))

  -- `sc_vector_remove_slice`; `sc_vector_remove` has the count 1.
  unfoldable pub remove_slice : Vector A → (index count : ℕ) → Vector A
  unfolding remove_slice_noshrink autoshrink
  remove_slice v index count = autoshrink (remove_slice_noshrink v index count)
