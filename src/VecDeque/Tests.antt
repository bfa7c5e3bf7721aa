-- ===== src/VecDeque/Tests.antt =====
-- Concrete rings.
use cicy_agent_adr.Prelude.{ℕ, ◌≤◌, ◌<◌, ◌≡◌, ◌⊎◌, inl, inr, refl, arith, ◌∷◌, [], ◌++◌, List, true}
use cicy_agent_adr.Prelude.Window.{window}
use cicy_agent_adr.VecDeque.{
  VecDeque, Heap, Result, ok, out_of_memory, mincap, max_cap, clamp, growsize, reserve, push, pop,
}
use cicy_agent_adr.VecDeque.Contents.{contents, IsValid}
use cicy_agent_adr.VecDeque.Refine.{HasNoBlock, IsAtMost, reserve_lem, push_refines, pop_refines}
use Prim.Native.Nat.{max}

abbrev heap : Heap ℕ
heap = record { item_size = 8; alloc = λ n. true; garbage = λ i. 99 }

-- Ten items, 3 to 12, that go round the end of the array.
abbrev full : VecDeque ℕ
full = record { cap = 10; origin = 3; size = 10; items = λ i. i }

full-IsValid : IsValid heap full
full-IsValid = record {
  allocated = inr (omega arith);
  bounded = omega arith;
  held = omega arith;
  inside = inl (omega arith);
}

abbrev contents_of : Result (VecDeque ℕ) → List ℕ
contents_of (ok v) = contents v
contents_of _ = []

push_runs : contents_of (push heap full 42) ≡ 3 ∷ 4 ∷ 5 ∷ 6 ∷ 7 ∷ 8 ∷ 9 ∷ 0 ∷ 1 ∷ 2 ∷ 42 ∷ []
unfolding push contents window
push_runs = refl

reserve_lem_example :
    ((v' : VecDeque ℕ) × (reserve heap full 12 ≡ ok v')
      × (contents v' ≡ contents full)
      × IsValid heap v'
      × (12 ≤ v'.cap)
      × (v'.size ≡ 10))
    ⊎ ((10 < max 12 mincap)
        × HasNoBlock heap (clamp (growsize 10) (max 12 mincap) (max_cap heap))
        × (reserve heap full 12 ≡ out_of_memory))
reserve_lem_example = reserve_lem heap (omega arith) full full-IsValid 12 (omega arith)

push_refines_example :
    ((v' : VecDeque ℕ) × (push heap full 42 ≡ ok v')
      × (contents v' ≡ contents full ++ (42 ∷ []))
      × IsValid heap v'
      × (10 ≤ v'.cap))
    ⊎ (◌≡◌ {A = ℕ} 10 10 × IsAtMost heap full × (push heap full 42 ≡ out_of_memory))
push_refines_example = push_refines heap (omega arith) full full-IsValid 42

pop_refines_example :
    (x : ℕ) × (v' : VecDeque ℕ) × (pop full ≡ ok (x, v'))
    × (contents full ≡ x ∷ contents v')
    × IsValid heap v'
    × (v'.cap ≡ 10)
pop_refines_example = pop_refines heap (omega arith) full full-IsValid (omega arith)
