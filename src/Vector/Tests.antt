-- ===== src/Vector/Tests.antt =====
-- A vector of three items in a block of three.
use cicy_agent_adr.Prelude.{◌+◌, ℕ, ◌≡◌, refl, true, [], ◌∷◌, ◌++◌, take, drop, arith}
use cicy_agent_adr.Prelude.Memory.{of_list, slice, memcpy}
use cicy_agent_adr.Vector.{Vector, Heap, insert_all, remove_slice}
use cicy_agent_adr.Vector.Rotate.{move_slice}
use cicy_agent_adr.Vector.Move.{move_slice_lem}
use cicy_agent_adr.Vector.Room.{contents, IsValid}
use cicy_agent_adr.Vector.Edit.{Inserted, insert_all_lem, remove_slice_lem}

abbrev three : Vector ℕ
three = record { cap = 3; size = 3; items = of_list (5 ∷ 6 ∷ 7 ∷ []) }

three-IsValid : IsValid three
three-IsValid = record { in_block = omega arith }

abbrev heap : Heap ℕ
heap = record { item_size = 8; alloc = λ n. true; garbage = λ i. 0 }

inserted_three : contents (insert_all heap three 1 (8 ∷ 9 ∷ [])).0 ≡ 5 ∷ 8 ∷ 9 ∷ 6 ∷ 7 ∷ []
unfolding contents insert_all slice memcpy
inserted_three = refl

insert_all_lem_example : Inserted heap three 1 (8 ∷ 9 ∷ []) (insert_all heap three 1 (8 ∷ 9 ∷ []))
insert_all_lem_example = insert_all_lem heap three 1 (8 ∷ 9 ∷ []) three-IsValid (omega arith)

remove_slice_lem_example :
    IsValid (remove_slice heap three 0 2)
    × (contents (remove_slice heap three 0 2)
        ≡ take 0 (contents three) ++ drop (0 + 2) (contents three))
remove_slice_lem_example = remove_slice_lem heap three 0 2 three-IsValid (omega arith)

abbrev six : Vector ℕ
six = record { cap = 10; size = 6; items = of_list (1 ∷ 2 ∷ 3 ∷ 4 ∷ 5 ∷ 6 ∷ []) }

-- The example of the comment on `sc_char_array_rotate_left`.
moved_six : contents (move_slice six 4 2 0) ≡ 5 ∷ 6 ∷ 1 ∷ 2 ∷ 3 ∷ 4 ∷ []
unfolding contents move_slice slice
moved_six = refl

move_slice_lem_example :
    contents (move_slice six 1 2 3)
    ≡ take 3 (take 1 (contents six) ++ drop (1 + 2) (contents six))
      ++ (take 2 (drop 1 (contents six))
          ++ drop 3 (take 1 (contents six) ++ drop (1 + 2) (contents six)))
move_slice_lem_example = move_slice_lem six 1 2 3 (omega arith) (omega arith)
