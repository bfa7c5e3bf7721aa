-- ===== src/Vector/Blocks.antt =====
-- Blocks of memory with a part moved, as lists.
use cicy_agent_adr.Prelude.{
  ℕ, ◌+◌, ◌-◌, ◌≤◌, ◌≡◌, inl, inr, refl, sym, ap, ap₂, ◌∙◌, Bool, true, false, List, ◌++◌, length,
  take, drop, arith, if◌then◌else◌,
}
use cicy_agent_adr.Prelude.Memory.{
  Memory, memcpy, slice, slice_split, slice_cong, slice-memcpy, slice-memcpy_apart, length-slice,
  take-slice, drop-slice,
}
use cicy_agent_adr.Vector.{memmove}

module _ {ℓ} {A : Type ℓ} where
  -- Nothing is moved from the end.
  pub moved_always :
      (m : Memory A) (to from n : ℕ)
      → (b : Bool) → (b ≡ false → n ≡ 0)
      → (if b then memmove m to from n else m) ≡ memmove m to from n
  unfolding memcpy slice
  moved_always m to from n true h = refl
  moved_always m to from n false h = sym (ap (memmove m to from) (h refl))

  -- What was moved stands at its new place.
  pub slice-memmove :
      (m : Memory A) (to from n : ℕ) → slice (memmove m to from n) to n ≡ slice m from n
  slice-memmove m to from n =
      slice_cong (memmove m to from n) to to n (length (slice m from n)) refl
        (sym (length-slice m from n))
      ∙ slice-memcpy m to (slice m from n)

  front_slice :
      (m : Memory A) (size index : ℕ) → index ≤ size → slice m 0 index ≡ take index (slice m 0 size)
  front_slice m size index h = sym (take-slice m 0 size index h)

  back_slice :
      (m : Memory A) (size index : ℕ)
      → index ≤ size
      → slice m index (size - index) ≡ drop index (slice m 0 size)
  back_slice m size index h =
      slice_cong m index (0 + index) (size - index) (size - index) (omega arith) refl
      ∙ sym (drop-slice m 0 size index h)

  pub inserted_items :
      (m : Memory A) (size index : ℕ) (given : List A)
      → index ≤ size
      → slice
          (memcpy (memmove m (index + length given) index (size - index)) index given)
          0
          (size + length given)
        ≡ take index (slice m 0 size) ++ (given ++ drop index (slice m 0 size))
  inserted_items m size index given h =
      slice_cong m₂ 0 0 (size + k) (index + (k + n)) refl (omega (arith, h))
      ∙ slice_split m₂ 0 index (k + n)
      ∙ ap₂ ◌++◌ front (
          slice_cong m₂ (0 + index) index (k + n) (k + n) (omega arith) refl
          ∙ slice_split m₂ index k n
          ∙ ap₂ ◌++◌ (slice-memcpy m₁ index given) back)
    where
      k : ℕ
      k = length given

      n : ℕ
      n = size - index

      m₁ : Memory A
      m₁ = memmove m (index + k) index n

      m₂ : Memory A
      m₂ = memcpy m₁ index given

      front : slice m₂ 0 index ≡ take index (slice m 0 size)
      front =
          slice-memcpy_apart m₁ index given 0 index (inl (omega arith))
          ∙ slice-memcpy_apart m (index + k) (slice m index n) 0 index (inl (omega arith))
          ∙ front_slice m size index h

      back : slice m₂ (index + k) n ≡ drop index (slice m 0 size)
      back =
          slice-memcpy_apart m₁ index given (index + k) n (inr (omega arith))
          ∙ slice-memmove m (index + k) index n
          ∙ back_slice m size index h

  pub removed_items :
      (m : Memory A) (size index count : ℕ)
      → index + count ≤ size
      → slice (memmove m index (index + count) (size - index - count)) 0 (size - count)
        ≡ take index (slice m 0 size) ++ drop (index + count) (slice m 0 size)
  removed_items m size index count h =
      slice_cong m₁ 0 0 (size - count) (index + n) refl (omega (arith, h))
      ∙ slice_split m₁ 0 index n
      ∙ ap₂ ◌++◌
          (slice-memcpy_apart m index (slice m (index + count) n) 0 index (inl (omega arith))
            ∙ front_slice m size index (omega (arith, h)))
          (slice_cong m₁ (0 + index) index n n (omega arith) refl
            ∙ slice-memmove m index (index + count) n
            ∙ slice_cong m (index + count) (index + count) n (size - (index + count)) refl
                (omega arith)
            ∙ back_slice m size (index + count) h)
    where
      n : ℕ
      n = size - index - count

      m₁ : Memory A
      m₁ = memmove m index (index + count) n
