-- ===== src/VecDeque/Contents.antt =====
-- The items of a ring of util/vecdeque.h, oldest first, and its representation invariant.
use cicy_agent_adr.Prelude.{
  ◌+◌, ◌-◌, ◌%◌, ◌≤◌, ◌<◌, ◌≡◌, ◌≢◌, ◌⊎◌, inl, ap, ◌∙◌, refl, List, [], ◌∷◌, ◌++◌, length, arith,
}
use cicy_agent_adr.Prelude.Memory.{store}
use cicy_agent_adr.Prelude.Window.{window, length-window, mod_cases, window-store, window_first}
use cicy_agent_adr.VecDeque.{VecDeque, Heap, mincap, max_cap, push_noresize, pop, ok}

module _ {ℓ} {A : Type ℓ} where
  unfoldable pub contents : VecDeque A → List A
  contents v = window v.items v.cap v.origin v.size

  pub length-contents : (v : VecDeque A) → length (contents v) ≡ v.size
  unfolding contents
  length-contents v = length-window v.items v.cap v.origin v.size

-- Nothing is allocated yet, or at least `mincap` items are.
pub record IsValid {ℓ} {A : Type ℓ} (heap : Heap A) (v : VecDeque A) : Type 0 where
  pub allocated : (v.cap ≡ 0) ⊎ (mincap ≤ v.cap)
  pub bounded : v.cap ≤ max_cap heap
  pub held : v.size ≤ v.cap
  pub inside : (v.origin < v.cap) ⊎ ((v.cap ≡ 0) × (v.origin ≡ 0))

module _ {ℓ} {A : Type ℓ} where
  pub push_noresize_lem :
      (heap : Heap A) (v : VecDeque A) (x : A)
      → IsValid heap v
      → v.size ≢ v.cap
      → (v' : VecDeque A) × (push_noresize v x ≡ ok v')
        × (contents v' ≡ contents v ++ (x ∷ []))
        × IsValid heap v'
        × (v'.cap ≡ v.cap)
  unfolding push_noresize contents window
  push_noresize_lem heap v x h ne = (
    record v { size = v.size + 1; items = store v.items ((v.origin + (v.size + 1) - 1) % v.cap) x },
    ground arith,
    ap (λ i. window (store v.items (i % v.cap) x) v.cap v.origin (v.size + 1)) (omega arith)
        ∙ window-store v.items v.cap v.origin v.size x (omega arith) (omega arith),
    record {
      allocated = h.allocated;
      bounded = h.bounded;
      held = omega (arith, h);
      inside = h.inside;
    },
    refl,
  )

  pub pop_lem :
      (heap : Heap A) (v : VecDeque A)
      → IsValid heap v
      → v.size ≢ 0
      → (x : A) × (v' : VecDeque A) × (pop v ≡ ok (x, v'))
        × (contents v ≡ x ∷ contents v')
        × IsValid heap v'
        × (v'.cap ≡ v.cap)
  unfolding pop contents
  pop_lem heap v h ne = (
    v.items v.origin,
    record v { origin = (v.origin + 1) % v.cap; size = v.size - 1 },
    ground arith,
    window_first v.items v.cap v.origin v.size (omega arith) ne,
    record {
      allocated = h.allocated;
      bounded = h.bounded;
      held = omega (arith, h);
      inside = inl (omega (arith, mod_cases v.cap v.origin 1 (omega arith) (omega arith)));
    },
    refl,
  )
