-- ===== src/Vector/Edit.antt =====
-- What insertions and removals do to the items of a vector.
use cicy_agent_adr.Prelude.{
  ℕ, ◌+◌, ◌-◌, ◌≤◌, ◌<◌, ◌≡◌, refl, sym, ap, ◌∙◌, subst, Bool, true, false, false≢true, ◌&&◌, List,
  ◌++◌, length, take, drop, ltb, leb, ◌==◌, arith, if◌then◌else◌,
}
use cicy_agent_adr.Prelude.Memory.{memcpy, slice}
use Prim.Native.Nat.{max}
use cicy_agent_adr.Vector.{
  Vector, Heap, mincap, growsize, memmove, init, remove_slice_noshrink, realloc, resize, reserve,
  autoshrink, insert_hole, insert_all, hole_in, filled, remove_slice,
}
use cicy_agent_adr.Vector.Blocks.{moved_always, inserted_items, removed_items}
use cicy_agent_adr.Vector.Room.{
  contents, IsValid, Kept, Reserved, Refused, realloc-Reserved, reserve-Reserved,
}

module _ {ℓ} {A : Type ℓ} where
  -- From a block with room for both.
  insert_in :
      (v w : Vector A) (index : ℕ) (given : List A)
      → index ≤ v.size
      → Kept v w (v.size + length given)
      → slice
          (memcpy
            (if ltb index w.size
              then memmove w.items (index + length given) index (w.size - index)
              else w.items)
            index
            given)
          0
          (w.size + length given)
        ≡ take index (contents v) ++ (given ++ drop index (contents v))
  unfolding contents
  insert_in v w index given h k =
      ap (λ m. slice (memcpy m index given) 0 (w.size + length given))
        (moved_always w.items (index + length given) index (w.size - index) (ltb index w.size)
          (λ e. ground (arith, e)))
      ∙ inserted_items w.items w.size index given (omega (arith, h, k.same_size))
      ∙ ap (λ xs. take index xs ++ (given ++ drop index xs)) k.same_items

module _ {ℓ} {A : Type ℓ} (heap : Heap A) where
  -- An insertion; or no change, when there are more items than there can be, or the vector has no
  -- room for them and the allocator has no larger block.
  abbrev pub Inserted : Vector A → ℕ → List A → Vector A × Bool → Type ℓ
  Inserted v index given (w, true) =
      IsValid w × (contents w ≡ take index (contents v) ++ (given ++ drop index (contents v)))
  Inserted v index given (w, false) = (w ≡ v) × Refused heap v (v.size + length given)

  -- `sc_vector_insert_all` at an index within the vector puts the items between those before the
  -- index and those from it on, and the vector stays in its block. It changes nothing and reports a
  -- failure only if the vector has no room for the items, and either they are more than the
  -- greatest capacity or the allocator has no block of the larger capacity that is asked for.
  pub insert_all_lem :
      (v : Vector A) (index : ℕ) (given : List A)
      → IsValid v
      → index ≤ v.size
      → Inserted v index given (insert_all heap v index given)
  unfolding insert_all insert_hole contents slice
  insert_all_lem v index given h l =
      branch (reserve heap v (v.size + length given))
        (reserve-Reserved heap v (v.size + length given) h (omega arith))
    where
      branch :
          (o : Vector A × Bool)
          → Reserved (Refused heap v (v.size + length given)) v (v.size + length given) o
          → Inserted v index given (filled index given (hole_in index (length given) o))
      branch (w, true) k = (
        record { in_block = omega (arith, k.same_size, k.has_room) },
        insert_in v w index given l k,
      )
      branch (w, false) k = k

  -- Shrinking keeps the items.
  resize_less :
      (v : Vector A) (count : ℕ)
      → IsValid v
      → v.size ≤ count
      → 0 < count
      → IsValid (resize heap v count).0 × (contents (resize heap v count).0 ≡ contents v)
  unfolding resize
  resize_less v count h l p =
      branch (v.cap == count) (ltb 0 count) (realloc heap v count) (ground (arith, p))
        (realloc-Reserved heap v count h l)
    where
      branch :
          (b c : Bool) (o : Vector A × Bool)
          → c ≡ true
          → Reserved (heap.alloc count ≡ false) v count o
          → IsValid (if b then (v, true) else if c then o else (init heap.garbage, true)).0
            × (contents (if b then (v, true) else if c then o else (init heap.garbage, true)).0
                ≡ contents v)
      branch true c o e k = (h, refl)
      branch false true (w, true) e k = (k.valid, k.same_items)
      branch false true (w, false) e (k, r) = (subst IsValid (sym k) h, ap contents k)
      branch false false o e k = absurd (false≢true e)

  autoshrink_lem :
      (v : Vector A)
      → IsValid v
      → IsValid (autoshrink heap v) × (contents (autoshrink heap v) ≡ contents v)
  unfolding autoshrink
  autoshrink_lem v h = branch (ltb mincap v.cap && leb (growsize (v.size + 5)) v.cap)
    where
      branch :
          (b : Bool)
          → IsValid (if b then (resize heap v (max (v.size + 5) mincap)).0 else v)
            × (contents (if b then (resize heap v (max (v.size + 5) mincap)).0 else v) ≡ contents v)
      branch true = resize_less v (max (v.size + 5) mincap) h (omega arith) (omega arith)
      branch false = (h, refl)

  -- `sc_vector_remove_slice`, and `sc_vector_remove` with the count 1, take the items of the slice
  -- out of the vector and keep the others in order, whether or not the block is made smaller and
  -- even when its reallocation fails; the vector stays in its block.
  pub remove_slice_lem :
      (v : Vector A) (index count : ℕ)
      → IsValid v
      → index + count ≤ v.size
      → IsValid (remove_slice heap v index count)
        × (contents (remove_slice heap v index count)
            ≡ take index (contents v) ++ drop (index + count) (contents v))
  unfolding remove_slice remove_slice_noshrink contents
  remove_slice_lem v index count h l =
      let shrunk =
        autoshrink_lem (remove_slice_noshrink v index count)
          (record { in_block = omega (arith, h.in_block) }) in
      (
        shrunk.0,
        shrunk.1
            ∙ ap (λ m. slice m 0 (v.size - count))
                (moved_always v.items index (index + count) (v.size - index - count)
                  (ltb (index + count) v.size) (λ e. ground (arith, e)))
            ∙ removed_items v.items v.size index count l,
      )
