-- ===== src/Vector/Room.antt =====
-- The vector as the list of its items, and the room in its block.
use cicy_agent_adr.Prelude.{
  ℕ, ◌≤◌, ◌<◌, ◌≡◌, ◌⊎◌, inl, inr, refl, sym, ap, ◌∙◌, Bool, true, false, List, length, take, min,
  leb, leb→le, arith, if◌then◌else◌,
}
use cicy_agent_adr.Prelude.Memory.{
  memcpy, slice, slice_cong, slice-memcpy, length-slice, take-slice,
}
use Prim.Native.Nat.{max}
use cicy_agent_adr.Vector.{Vector, Heap, mincap, clamp, growsize, max_cap, realloc, reserve}

module _ {ℓ} {A : Type ℓ} where
  -- The items in order.
  unfoldable pub contents : Vector A → List A
  contents v = slice v.items 0 v.size

  pub record IsValid (v : Vector A) : Type 0 where
    pub in_block : v.size ≤ v.cap

  -- A block of another size that has room for the items has the same items.
  pub record Kept (v w : Vector A) (room : ℕ) : Type ℓ where
    pub valid : IsValid w
    pub same_size : w.size ≡ v.size
    pub same_items : contents w ≡ contents v
    pub has_room : room ≤ w.cap

  kept : (v : Vector A) (room : ℕ) → IsValid v → room ≤ v.cap → Kept v v room
  kept v room h l = record { valid = h; same_size = refl; same_items = refl; has_room = l }

  -- More room, or no change when there is a reason for a failure.
  abbrev pub Reserved : Type 0 → Vector A → ℕ → Vector A × Bool → Type ℓ
  Reserved Reason v wanted (w, true) = Kept v w wanted
  Reserved Reason v wanted (w, false) = (w ≡ v) × Reason

  larger : (v w : Vector A) (room less : ℕ) → less ≤ room → Kept v w room → Kept v w less
  larger v w room less l k = record {
    valid = k.valid;
    same_size = k.same_size;
    same_items = k.same_items;
    has_room = omega (arith, l, k.has_room);
  }

  Reserved-less :
      {P Q : Type 0} (v : Vector A) (room less : ℕ) (o : Vector A × Bool)
      → less ≤ room
      → (P → Q)
      → Reserved P v room o
      → Reserved Q v less o
  Reserved-less v room less (w, true) l f k = larger v w room less l k
  Reserved-less v room less (w, false) l f (e, r) = (e, f r)

module _ {ℓ} {A : Type ℓ} (heap : Heap A) where
  -- The room of a vector that `sc_vector_reserve` asks the allocator for.
  abbrev pub larger_cap : Vector A → ℕ → ℕ
  larger_cap v wanted = max (max wanted mincap) (min (max_cap heap) (growsize v.cap))

  -- Why there is no room for as many items as are wanted: they are more than there can be, or the
  -- vector is to be made larger and the allocator has no block for it.
  abbrev pub Refused : Vector A → ℕ → Type 0
  Refused v wanted =
      (v.cap < max wanted mincap)
      × ((max_cap heap < max wanted mincap) ⊎ (heap.alloc (larger_cap v wanted) ≡ false))

  moved-Kept :
      (v : Vector A) (count : ℕ)
      → IsValid v
      → v.size ≤ count
      → Kept v
          (record {
            cap = count;
            size = min v.size count;
            items = memcpy heap.garbage 0 (slice v.items 0 (min v.cap count));
          })
          count
  unfolding contents
  moved-Kept v count h l =
      let whole : min v.size count ≡ v.size = omega (arith, l) in
      let n : ℕ = min v.cap count in
      let block : slice (memcpy heap.garbage 0 (slice v.items 0 n)) 0 n ≡ slice v.items 0 n =
        slice_cong (memcpy heap.garbage 0 (slice v.items 0 n)) 0 0 n (length (slice v.items 0 n))
          refl (sym (length-slice v.items 0 n))
        ∙ slice-memcpy heap.garbage 0 (slice v.items 0 n) in
      record {
        valid = record { in_block = omega (arith, l) };
        same_size = whole;
        same_items =
            slice_cong (memcpy heap.garbage 0 (slice v.items 0 n)) 0 0 (min v.size count) v.size
              refl whole
            ∙ sym (
                take-slice (memcpy heap.garbage 0 (slice v.items 0 n)) 0 n v.size
                  (omega (arith, l, h.in_block)))
            ∙ ap (take v.size) block
            ∙ take-slice v.items 0 n v.size (omega (arith, l, h.in_block));
        has_room = omega arith;
      }

  pub realloc-Reserved :
      (v : Vector A) (count : ℕ)
      → IsValid v
      → v.size ≤ count
      → Reserved (heap.alloc count ≡ false) v count (realloc heap v count)
  unfolding realloc
  realloc-Reserved v count h l = branch (heap.alloc count) refl
    where
      branch :
          (b : Bool)
          → heap.alloc count ≡ b
          → Reserved (heap.alloc count ≡ false) v count (
              if b
              then (
                record {
                  cap = count;
                  size = min v.size count;
                  items = memcpy heap.garbage 0 (slice v.items 0 (min v.cap count));
                },
                true,
              )
              else (v, false))
      branch true e = moved-Kept v count h l
      branch false e = (refl, e)

  pub reserve-Reserved :
      (v : Vector A) (wanted : ℕ)
      → IsValid v
      → v.size ≤ wanted
      → Reserved (Refused v wanted) v wanted (reserve heap v wanted)
  unfolding reserve
  reserve-Reserved v wanted h l =
      branch (leb (max wanted mincap) v.cap) (leb (max wanted mincap) (max_cap heap)) refl refl
    where
      count : ℕ
      count = clamp (growsize v.cap) (max wanted mincap) (max_cap heap)

      branch :
          (b c : Bool)
          → leb (max wanted mincap) v.cap ≡ b
          → leb (max wanted mincap) (max_cap heap) ≡ c
          → Reserved
              (Refused v wanted)
              v
              wanted
              (if b then (v, true) else if c then realloc heap v count else (v, false))
      branch true c e f =
          let fits : max wanted mincap ≤ v.cap = leb→le _ _ e in
          kept v wanted h (omega (arith, fits))
      branch false true e f =
          let little : v.cap < max wanted mincap = ground (arith, e) in
          Reserved-less v count wanted (realloc heap v count) (omega arith) (λ r. (little, inr r))
            (realloc-Reserved v count h (omega (arith, l)))
      branch false false e f =
          let little : v.cap < max wanted mincap = ground (arith, e) in
          let much : max_cap heap < max wanted mincap = ground (arith, f) in
          (refl, (little, inl much))
