-- ===== src/VecDeque/Grow.antt =====
-- Reallocation of the ring of util/vecdeque.h: the items stay, in their order.
use cicy_agent_adr.Prelude.{
  ℕ, ◌+◌, ◌-◌, ◌*◌, ◌≤◌, ◌<◌, ◌≡◌, ◌⊎◌, inl, inr, refl, sym, ap, ◌∙◌, min, true, false, ◌++◌,
  length, arith, Bool-cases, ltb, leb, length-append,
}
use cicy_agent_adr.Prelude.Memory.{
  Memory, memcpy, slice, slice_cong, slice-memcpy, memcpy-memcpy, length-slice,
}
use cicy_agent_adr.Prelude.Window.{window-eq-slice, window_round}
use cicy_agent_adr.VecDeque.{
  VecDeque, Heap, Result, ok, out_of_memory, copied, mincap, max_cap, realloc,
}
use cicy_agent_adr.VecDeque.Contents.{contents, IsValid}
use native.Mathlib.Decide.{dec_le}

module _ {ℓ} {A : Type ℓ} where
  -- Two slices copied one behind the other.
  slices_copied :
      (m n : Memory A) (a b k l : ℕ)
      → slice (memcpy (memcpy n 0 (slice m a k)) k (slice m b l)) 0 (k + l)
        ≡ slice m a k ++ slice m b l
  slices_copied m n a b k l =
      ap (λ t. slice t 0 (k + l))
        (memcpy-memcpy n 0 k (slice m a k) (slice m b l) (omega (arith, length-slice m a k)))
      ∙ slice_cong _ 0 0 (k + l) (length (slice m a k ++ slice m b l)) refl (
          omega (
            arith,
            length-append (slice m a k) (slice m b l),
            length-slice m a k,
            length-slice m b l,
          ))
      ∙ slice-memcpy n 0 (slice m a k ++ slice m b l)

  -- More room for the same items, or the allocator has no block of the new size.
  abbrev pub Grown : Heap A → VecDeque A → ℕ → Result (VecDeque A) → Type ℓ
  Grown heap v newcap r =
      ((v' : VecDeque A) × (r ≡ ok v')
        × (contents v' ≡ contents v)
        × IsValid heap v'
        × (v'.cap ≡ newcap)
        × (v'.size ≡ v.size))
      ⊎ ((heap.alloc (newcap * heap.item_size) ≡ false) × (r ≡ out_of_memory))

module _ {ℓ} {A : Type ℓ} (heap : Heap A) (v : VecDeque A) (newcap : ℕ) (h : IsValid heap v)
    (more : v.cap < newcap) (least : mincap ≤ newcap) (fits : newcap ≤ max_cap heap) where
  in_place : v.origin + v.size ≤ v.cap → Grown heap v newcap (realloc heap v newcap)
  unfolding realloc contents
  in_place p =
      let grows : leb newcap v.cap ≡ false = ground arith in
      let stays : leb (v.origin + v.size) v.cap ≡ true = ground arith in
      elim (Bool-cases (heap.alloc (newcap * heap.item_size))) [
        | inr no_block ↦ inr (no_block, rw (grows, stays, no_block))
        | inl block ↦ inl (
          record v { cap = newcap },
          rw (grows, stays, block),
          window-eq-slice v.items newcap v.origin v.size (omega arith)
              ∙ sym (window-eq-slice v.items v.cap v.origin v.size p),
          record {
            allocated = inr least;
            bounded = fits;
            held = omega (arith, h);
            inside = inl (omega (arith, h));
          },
          refl,
          refl,
        )
      ]

  copied_lem :
      v.cap < v.origin + v.size
      → slice (copied heap v) 0 v.size
        ≡ slice v.items v.origin (v.cap - v.origin) ++ slice v.items 0 (v.size - (v.cap - v.origin))
  unfolding copied
  copied_lem p =
      let e : min v.size (v.cap - v.origin) ≡ v.cap - v.origin = omega arith in
      let l : ltb (v.cap - v.origin) v.size ≡ true = ground (arith, h) in
      rw (e, l)
        (slice_cong _ 0 0 v.size (v.cap - v.origin + (v.size - (v.cap - v.origin))) refl
            (omega (arith, h))
          ∙ slices_copied v.items heap.garbage v.origin 0 (v.cap - v.origin)
              (v.size - (v.cap - v.origin)))

  moved : v.cap < v.origin + v.size → Grown heap v newcap (realloc heap v newcap)
  unfolding realloc contents
  moved p = elim (Bool-cases (heap.alloc (newcap * heap.item_size))) [
    | inr no_block ↦ inr (no_block, ground (arith, h))
    | inl block ↦ inl (
      record v { cap = newcap; origin = 0; items = copied heap v },
      ground (arith, h),
      window-eq-slice (copied heap v) newcap 0 v.size (omega (arith, h))
          ∙ copied_lem p
          ∙ sym
              (window_round v.items v.cap v.origin v.size (omega (arith, h)) h.held (omega arith)),
      record {
        allocated = inr least;
        bounded = fits;
        held = omega (arith, h);
        inside = inl (omega arith);
      },
      refl,
      refl,
    )
  ]

  -- The asserted conditions hold, and the items are kept in their order.
  pub realloc-Grown : Grown heap v newcap (realloc heap v newcap)
  realloc-Grown = elim (dec_le (v.origin + v.size) v.cap) [
    | yes p ↦ in_place p
    | no p ↦ moved (omega arith)
  ]
