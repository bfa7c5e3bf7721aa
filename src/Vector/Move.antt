-- ===== src/Vector/Move.antt =====
-- A slice that is moved within a vector: it is taken out of the list of the items, and put back at
-- its target.
use cicy_agent_adr.Prelude.{
  ℕ, ◌+◌, ◌-◌, ◌≤◌, ◌<◌, ◌≡◌, inl, inr, refl, sym, ap, ap₂, ◌∙◌, Bool, true, false, ◌++◌, length,
  take, drop, get_or, ltb, ltb→lt, arith, if◌then◌else◌,
}
use cicy_agent_adr.Prelude.Memory.{
  Memory, memcpy, memcpy_below, memcpy_above, slice, slice_cong, slice_congr, slice-memcpy,
  length-slice, get_or-slice, take-slice, drop-slice,
}
use native.Mathlib.Decide.{dec_lt}
use cicy_agent_adr.Vector.{Vector, memmove}
use cicy_agent_adr.Vector.Room.{contents}
use cicy_agent_adr.Vector.Blocks.{slice-memmove, inserted_items, removed_items}
use cicy_agent_adr.Vector.Rotate.{rotate_left, rotate_right, array_move, move_slice}
use cicy_agent_adr.Vector.Rotation.{rotate_left_front, rotate_left_back, rotate_left_outside}

module _ {ℓ} {A : Type ℓ} where
  -- The items of a block with a part moved, one by one.
  memmove_inside :
      (m : Memory A) (to from n j : ℕ) → j < n → memmove m to from n (to + j) ≡ m (from + j)
  memmove_inside m to from n j h =
      sym (get_or-slice (memmove m to from n) to n j (m 0) h)
      ∙ ap (λ xs. get_or xs j (m 0)) (slice-memmove m to from n)
      ∙ get_or-slice m from n j (m 0) h

  memcpy_inside :
      (m m' : Memory A) (to from n j : ℕ)
      → j < n
      → memcpy m to (slice m' from n) (to + j) ≡ m' (from + j)
  memcpy_inside m m' to from n j h =
      sym (get_or-slice (memcpy m to (slice m' from n)) to n j (m 0) h)
      ∙ ap (λ xs. get_or xs j (m 0))
          (slice_cong (memcpy m to (slice m' from n)) to to n (length (slice m' from n)) refl
              (sym (length-slice m' from n))
            ∙ slice-memcpy m to (slice m' from n))
      ∙ get_or-slice m' from n j (m 0) h

-- A block of `size` items whose slice `index .. index + count - 1` goes to `target`.
module _ {ℓ} {A : Type ℓ} (m : Memory A) (size index count target : ℕ) (h : index + count ≤ size)
    (k : target + count ≤ size) where
  rest : Memory A
  rest = memmove m index (index + count) (size - index - count)

  put : Memory A
  put =
      memcpy (memmove rest (target + count) target (size - count - target)) target
        (slice m index count)

  rest_low : (j : ℕ) → j < index → rest j ≡ m j
  unfolding rest
  rest_low j l = memcpy_below m index (slice m (index + count) (size - index - count)) j l

  rest_high : (j : ℕ) → index ≤ j → j < size - count → rest j ≡ m (j + count)
  unfolding rest
  rest_high j l p =
      ap rest (omega (arith, l))
      ∙ memmove_inside m index (index + count) (size - index - count) (j - index)
          (omega (arith, l, p))
      ∙ ap m (omega (arith, l))

  put_low : (j : ℕ) → j < target → put j ≡ rest j
  unfolding put
  put_low j l =
      memcpy_below (memmove rest (target + count) target (size - count - target)) target
        (slice m index count) j l
      ∙ memcpy_below rest (target + count) (slice rest target (size - count - target)) j
          (omega (arith, l))

  put_mid : (j : ℕ) → target ≤ j → j < target + count → put j ≡ m (index + (j - target))
  unfolding put
  put_mid j l p =
      ap put (omega (arith, l))
      ∙ memcpy_inside (memmove rest (target + count) target (size - count - target)) m target index
          count (j - target) (omega (arith, l, p))

  put_high : (j : ℕ) → target + count ≤ j → j < size → put j ≡ rest (j - count)
  unfolding put
  put_high j l p =
      memcpy_above (memmove rest (target + count) target (size - count - target)) target
        (slice m index count) j (omega (arith, l, length-slice m index count))
      ∙ ap (memmove rest (target + count) target (size - count - target)) (omega (arith, l))
      ∙ memmove_inside rest (target + count) target (size - count - target) (j - target - count)
          (omega (arith, l, p))
      ∙ ap rest (omega (arith, l))

  -- To the right.
  right_put :
      (j : ℕ)
      → j < size
      → index < target
      → rotate_left m index (target - index + count) count j ≡ put j
  right_put j s t = elim (dec_lt j index) [
    | yes p ↦
        rotate_left_outside m index len count j (omega arith) (inl p)
        ∙ sym (put_low j (omega (arith, p, t)) ∙ rest_low j p)
    | no p ↦ elim (dec_lt j target) [
      | yes q ↦
          ap turned (omega (arith, p))
          ∙ rotate_left_front m index len count (j - index) (omega arith) (omega (arith, p, q, t))
          ∙ ap m (omega (arith, p))
          ∙ sym (put_low j q ∙ rest_high j (omega (arith, p)) (omega (arith, q, k)))
      | no q ↦ elim (dec_lt j (target + count)) [
        | yes r ↦
            ap turned (omega (arith, p))
            ∙ rotate_left_back m index len count (j - index) (omega arith) (omega (arith, p, q, t))
                (omega (arith, p, q, r, t))
            ∙ ap (λ x. m (index + x)) (omega (arith, p, q, r, t))
            ∙ sym (put_mid j (omega (arith, q)) r)
        | no r ↦
            rotate_left_outside m index len count j (omega arith) (inr (omega (arith, r, t)))
            ∙ ap m (omega (arith, r))
            ∙ sym (
                put_high j (omega (arith, r)) s
                ∙ rest_high (j - count) (omega (arith, r, t)) (omega (arith, r, s)))
      ]
    ]
  ]
    where
      len : ℕ
      len = target - index + count

      turned : Memory A
      turned = rotate_left m index len count

  -- To the left, or to where it is.
  left_put :
      (j : ℕ)
      → j < size
      → target ≤ index
      → rotate_right m target (index - target + count) count j ≡ put j
  unfolding rotate_right
  left_put j s t = elim (dec_lt j target) [
    | yes p ↦
        rotate_left_outside m target len d j (omega arith) (inl p)
        ∙ sym (put_low j p ∙ rest_low j (omega (arith, p, t)))
    | no p ↦ elim (dec_lt j (target + count)) [
      | yes q ↦
          ap turned (omega (arith, p))
          ∙ rotate_left_front m target len d (j - target) (omega arith) (omega (arith, p, q, t))
          ∙ ap m (omega (arith, p, t))
          ∙ sym (put_mid j (omega (arith, p)) q)
      | no q ↦ elim (dec_lt j (index + count)) [
        | yes r ↦
            ap turned (omega (arith, p))
            ∙ rotate_left_back m target len d (j - target) (omega arith) (omega (arith, p, q, t))
                (omega (arith, p, q, r, t))
            ∙ ap m (omega (arith, p, q, r, t))
            ∙ sym (put_high j (omega (arith, q)) s ∙ rest_low (j - count) (omega (arith, q, r)))
        | no r ↦
            rotate_left_outside m target len d j (omega arith) (inr (omega (arith, r, t)))
            ∙ ap m (omega (arith, r))
            ∙ sym (
                put_high j (omega (arith, q)) s
                ∙ rest_high (j - count) (omega (arith, r)) (omega (arith, r, s)))
      ]
    ]
  ]
    where
      len : ℕ
      len = index - target + count

      d : ℕ
      d = len - count

      turned : Memory A
      turned = rotate_left m target len d

  array_move-put : (j : ℕ) → j < size → array_move m index count target j ≡ put j
  unfolding array_move
  array_move-put j s = branch (ltb index target) refl
    where
      branch :
          (b : Bool)
          → ltb index target ≡ b
          → (if b
                then rotate_left m index (target - index + count) count
                else rotate_right m target (index - target + count) count)
              j
            ≡ put j
      branch true e = right_put j s (ltb→lt _ _ e)
      branch false e = left_put j s (ground (arith, e))

  put_items :
      slice put 0 size
      ≡ take target (slice rest 0 (size - count))
        ++ (slice m index count ++ drop target (slice rest 0 (size - count)))
  unfolding put
  put_items =
      slice_cong put 0 0 size (size - count + count) refl (omega (arith, h))
      ∙ ap
          (λ n.
            slice
              (memcpy (memmove rest (target + n) target (size - count - target)) target
                (slice m index count))
              0 (size - count + n))
          (sym (length-slice m index count))
      ∙ inserted_items rest (size - count) target (slice m index count) (omega (arith, k))

-- `sc_vector_move_slice`, and `sc_vector_move` with the count 1, on a slice and a target within the
-- vector: the three reversals have the effect of taking the slice out of the list of the items and
-- putting it back, in order, so that its first item stands at the target.
pub move_slice_lem {ℓ} :
    {A : Type ℓ} (v : Vector A) (index count target : ℕ)
    → index + count ≤ v.size
    → target + count ≤ v.size
    → contents (move_slice v index count target)
      ≡ take target (take index (contents v) ++ drop (index + count) (contents v))
        ++ (take count (drop index (contents v))
            ++ drop target (take index (contents v) ++ drop (index + count) (contents v)))
unfolding contents move_slice rest
move_slice_lem v index count target h k =
    slice_congr (array_move v.items index count target) (put v.items v.size index count target h k)
      0 v.size (λ j _ l. array_move-put v.items v.size index count target h k j (omega (arith, l)))
    ∙ put_items v.items v.size index count target h k
    ∙ ap₂ (λ xs ys. take target xs ++ (ys ++ drop target xs))
        (removed_items v.items v.size index count h)
        (sym (
          ap (take count) (drop-slice v.items 0 v.size index (omega (arith, h)))
          ∙ take-slice v.items (0 + index) (v.size - index) count (omega (arith, h))
          ∙ slice_cong v.items (0 + index) index count count (omega arith) refl))
