-- ===== src/VecDeque/Refine.antt =====
-- The ring of util/vecdeque.h as a queue: what `sc_vecdeque_reserve`, `sc_vecdeque_push` and
-- `sc_vecdeque_pop` do to the items, on every branch.
use cicy_agent_adr.Prelude.{
  ℕ, ◌*◌, ◌≤◌, ◌<◌, ◌≡◌, ◌≢◌, ◌⊎◌, inl, inr, refl, ap, ◌∙◌, [], ◌∷◌, ◌++◌, arith, leb, ltb, true,
  false,
}
use cicy_agent_adr.VecDeque.{
  VecDeque, Heap, ok, out_of_memory, mincap, max_cap, clamp, growsize, reserve, grow,
  grow_if_needed, is_full, push_noresize, push, pop,
}
use cicy_agent_adr.VecDeque.Contents.{contents, IsValid, push_noresize_lem, pop_lem}
use cicy_agent_adr.VecDeque.Grow.{realloc-Grown}
use native.Mathlib.Decide.{dec_le, dec_lt, ℕ_discrete}
use Prim.Native.Nat.{max}

module _ {ℓ} {A : Type ℓ} where
  -- The allocator has no block for so many items.
  abbrev pub HasNoBlock : Heap A → ℕ → Type 0
  HasNoBlock heap newcap = heap.alloc (newcap * heap.item_size) ≡ false

  -- Why a ring cannot grow: it is as large as can be, or there is no larger block.
  abbrev pub IsAtMost : Heap A → VecDeque A → Type 0
  IsAtMost heap v =
      (max_cap heap ≤ v.cap) ⊎ HasNoBlock heap (clamp (growsize v.cap) mincap (max_cap heap))

module _ {ℓ} {A : Type ℓ} (heap : Heap A) (small : mincap ≤ max_cap heap) (v : VecDeque A)
    (h : IsValid heap v) where
  -- On a valid ring, for a capacity that is not beyond the greatest: `reserve` fails no assertion.
  -- It returns a valid ring with room for that many items, the same items in the same order; or the
  -- ring was too small, the allocator has no block of the larger capacity, and it reports that
  -- there is no memory.
  pub reserve_lem :
      (wanted : ℕ)
      → wanted ≤ max_cap heap
      → ((v' : VecDeque A) × (reserve heap v wanted ≡ ok v')
          × (contents v' ≡ contents v)
          × IsValid heap v'
          × (wanted ≤ v'.cap)
          × (v'.size ≡ v.size))
        ⊎ ((v.cap < max wanted mincap)
            × HasNoBlock heap (clamp (growsize v.cap) (max wanted mincap) (max_cap heap))
            × (reserve heap v wanted ≡ out_of_memory))
  unfolding reserve
  reserve_lem wanted w =
      let in_range : ltb (max_cap heap) wanted ≡ false = ground arith in
      elim (dec_le (max wanted mincap) v.cap) [
        | yes p ↦
            let enough : leb (max wanted mincap) v.cap ≡ true = ground arith in
            inl (v, rw (in_range, enough), refl, h, omega arith, refl)
        | no p ↦
            let little : leb (max wanted mincap) v.cap ≡ false = ground arith in
            let fits : leb (max wanted mincap) (max_cap heap) ≡ true = ground arith in
            let newcap = clamp (growsize v.cap) (max wanted mincap) (max_cap heap) in
            elim (realloc-Grown heap v newcap h (omega arith) (omega arith) (omega arith)) [
              | inl (v', e, c, valid, cap_eq, size_eq) ↦
                  inl (v', rw (in_range, little, fits) e, c, valid, omega arith, size_eq)
              | inr (n, e) ↦ inr (omega arith, n, rw (in_range, little, fits) e)
            ]
      ]

  grow_lem :
      v.size ≡ v.cap
      → ((v' : VecDeque A) × (grow heap v ≡ ok v')
          × (contents v' ≡ contents v)
          × IsValid heap v'
          × (v.cap < v'.cap)
          × (v'.size ≡ v.size))
        ⊎ (IsAtMost heap v × (grow heap v ≡ out_of_memory))
  unfolding grow
  grow_lem full = elim (dec_lt v.cap (max_cap heap)) [
    | no p ↦
        let most : ltb v.cap (max_cap heap) ≡ false = ground arith in
        inr (inl (omega (arith, p)), rw most)
    | yes p ↦
        let fits : ltb v.cap (max_cap heap) ≡ true = ground arith in
        let newcap = clamp (growsize v.cap) mincap (max_cap heap) in
        elim (realloc-Grown heap v newcap h (omega (arith, h)) (omega arith) (omega arith)) [
          | inl (v', e, c, valid, cap_eq, size_eq) ↦
              inl (v', rw fits e, c, valid, omega (arith, h), size_eq)
          | inr (n, e) ↦ inr (inr n, rw fits e)
        ]
  ]

  grow_if_full : v.size ≡ v.cap → grow_if_needed heap v ≡ grow heap v
  unfolding grow_if_needed
  grow_if_full full = let is_so : is_full v ≡ true = ground arith in rw is_so

  grow_if_room : v.size ≢ v.cap → grow_if_needed heap v ≡ ok v
  unfolding grow_if_needed
  grow_if_room ne = let room : is_full v ≡ false = ground arith in rw room

  push_grown :
      (x : A) (w : VecDeque A) → grow_if_needed heap v ≡ ok w → push heap v x ≡ push_noresize w x
  unfolding push
  push_grown x w e = rw (e, push)

  push_refused : (x : A) → grow_if_needed heap v ≡ out_of_memory → push heap v x ≡ out_of_memory
  unfolding push
  push_refused x e = rw (e, push)

  -- On a valid ring `push` fails no assertion: it appends the item behind the others and keeps the
  -- ring valid, and never loses capacity; or the ring was full, it has the greatest capacity or the
  -- allocator has no block of a capacity half as large again, and it reports that there is no
  -- memory.
  pub push_refines :
      (x : A)
      → ((v' : VecDeque A) × (push heap v x ≡ ok v')
          × (contents v' ≡ contents v ++ (x ∷ []))
          × IsValid heap v'
          × (v.cap ≤ v'.cap))
        ⊎ ((v.size ≡ v.cap) × IsAtMost heap v × (push heap v x ≡ out_of_memory))
  push_refines x = elim (ℕ_discrete v.size v.cap) [
    | no ne ↦
        let (v', e, c, valid, cap_eq) = push_noresize_lem heap v x h ne in
        inl (v', push_grown x v (grow_if_room ne) ∙ e, c, valid, omega arith)
    | yes full ↦ elim (grow_lem full) [
      | inr (why, e) ↦ inr (full, why, push_refused x (grow_if_full full ∙ e))
      | inl (w, e, c, valid, more, size_eq) ↦
          let (v', p, d, valid', cap_eq) = push_noresize_lem heap w x valid (λ q. omega arith) in
          inl (
            v',
            push_grown x w (grow_if_full full ∙ e) ∙ p,
            d ∙ ap (λ t. t ++ (x ∷ [])) c,
            valid',
            omega arith,
          )
    ]
  ]

  -- On a valid ring that is not empty `pop` returns the first of the items, leaves the others in
  -- their order, and keeps the ring valid and its capacity.
  pub pop_refines :
      v.size ≢ 0
      → (x : A) × (v' : VecDeque A) × (pop v ≡ ok (x, v'))
        × (contents v ≡ x ∷ contents v')
        × IsValid heap v'
        × (v'.cap ≡ v.cap)
  pop_refines ne = pop_lem heap v h ne
