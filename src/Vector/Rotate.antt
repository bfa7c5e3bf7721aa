-- ===== src/Vector/Rotate.antt =====
-- The moves of a slice within an array, scrcpy/app/src/util/vector.h: three reversals rotate.
-- The source moves characters, with all sizes multiplied by that of an item; here it moves items.
use cicy_agent_adr.Prelude.{
  ℕ, zero, suc, ◌+◌, ◌-◌, ◌*◌, ◌/◌, ◌≤◌, ◌<◌, ◌≡◌, ◌⊎◌, inl, inr, refl, sym, ap, ◌∙◌, ltb, arith,
  if◌then◌else◌,
}
use cicy_agent_adr.Prelude.Memory.{Memory, store, store_ne, store_self}
use cicy_agent_adr.Vector.{Vector}
use native.Mathlib.Decide.{dec_lt}

module _ {ℓ} {A : Type ℓ} where
  -- The loop of `sc_char_array_reverse` at `i`, with `n` exchanges left; the array starts at `o`.
  unfoldable pub reverse_loop : Memory A → (o len i n : ℕ) → Memory A
  reverse_loop m o len i zero = m
  reverse_loop m o len i (suc n) =
      reverse_loop (store (store m (o + i) (m (o + (len - i - 1)))) (o + (len - i - 1)) (m (o + i)))
        o len (suc i) n

  -- `sc_char_array_reverse`
  unfoldable pub array_reverse : Memory A → (o len : ℕ) → Memory A
  unfolding reverse_loop
  array_reverse m o len = reverse_loop m o len 0 (len / 2)

  -- `sc_char_array_rotate_left`
  unfoldable pub rotate_left : Memory A → (o len distance : ℕ) → Memory A
  unfolding array_reverse
  rotate_left m o len distance =
      array_reverse (array_reverse (array_reverse m o distance) (o + distance) (len - distance)) o
        len

  -- `sc_char_array_rotate_right`
  unfoldable pub rotate_right : Memory A → (o len distance : ℕ) → Memory A
  unfolding rotate_left
  rotate_right m o len distance = rotate_left m o len (len - distance)

  -- `sc_char_array_move`
  unfoldable pub array_move : Memory A → (index count target : ℕ) → Memory A
  unfolding rotate_left rotate_right
  array_move m index count target =
      if ltb index target
      then rotate_left m index (target - index + count) count
      else rotate_right m target (index - target + count) count

  -- `sc_vector_move_slice`, and `sc_vector_move` with the count 1
  unfoldable pub move_slice : Vector A → (index count target : ℕ) → Vector A
  unfolding array_move
  move_slice v index count target = record v { items = array_move v.items index count target }

  exchanged : Memory A → (o len i : ℕ) → Memory A
  exchanged m o len i =
      store (store m (o + i) (m (o + (len - i - 1)))) (o + (len - i - 1)) (m (o + i))

  exchanged_ne :
      (m : Memory A) (o len i j : ℕ)
      → (j ≡ o + i → ⊥)
      → (j ≡ o + (len - i - 1) → ⊥)
      → exchanged m o len i j ≡ m j
  unfolding exchanged
  exchanged_ne m o len i j p q =
      store_ne (store m (o + i) (m (o + (len - i - 1)))) (o + (len - i - 1)) j (m (o + i)) q
      ∙ store_ne m (o + i) j (m (o + (len - i - 1))) p

  exchanged_high :
      (m : Memory A) (o len i : ℕ) → exchanged m o len i (o + (len - i - 1)) ≡ m (o + i)
  unfolding exchanged
  exchanged_high m o len i =
      store_self (store m (o + i) (m (o + (len - i - 1)))) (o + (len - i - 1)) (m (o + i))

  exchanged_low :
      (m : Memory A) (o len i : ℕ)
      → 2 * i + 2 ≤ len
      → exchanged m o len i (o + i) ≡ m (o + (len - i - 1))
  unfolding exchanged
  exchanged_low m o len i h =
      store_ne (store m (o + i) (m (o + (len - i - 1)))) (o + (len - i - 1)) (o + i) (m (o + i))
        (λ e. omega (arith, e, h))
      ∙ store_self m (o + i) (m (o + (len - i - 1)))

  -- What the loop leaves as it is.
  reverse_outside :
      (m : Memory A) (o len i n j : ℕ)
      → 2 * (i + n) ≤ len
      → (j < o + i) ⊎ (((o + i + n ≤ j) × (j + i + n < o + len)) ⊎ (o + len ≤ j + i))
      → reverse_loop m o len i n j ≡ m j
  unfolding reverse_loop exchanged
  reverse_outside m o len i zero j h p = refl
  reverse_outside m o len i (suc n) j h p =
      reverse_outside (exchanged m o len i) o len (suc i) n j (omega (arith, h))
        (ground (arith, h, p))
      ∙ exchanged_ne m o len i j (λ e. omega (arith, e, h, p)) (λ e. omega (arith, e, h, p))

  -- What it turns round.
  reverse_inside :
      (m : Memory A) (o len i n a : ℕ)
      → 2 * (i + n) ≤ len
      → ((i ≤ a) × (a < i + n)) ⊎ ((len ≤ a + i + n) × (a + i < len))
      → reverse_loop m o len i n (o + a) ≡ m (o + (len - a - 1))
  unfolding reverse_loop exchanged
  reverse_inside m o len i zero a h p = absurd (omega (arith, h, p))
  reverse_inside m o len i (suc n) a h p = elim (dec_lt i a) [
    | no d ↦ low d
    | yes e ↦ elim (dec_lt (a + i + 1) len) [
      | no d ↦ high e d
      | yes f ↦
          reverse_inside (exchanged m o len i) o len (suc i) n a (omega (arith, h))
            (ground (arith, h, p, e, f))
          ∙ exchanged_ne m o len i (o + (len - a - 1)) (λ g. omega (arith, g, f))
              (λ g. omega (arith, g, e, f))
    ]
  ]
    where
      next : Memory A
      next = exchanged m o len i

      low : ¬ (i < a) → reverse_loop next o len (suc i) n (o + a) ≡ m (o + (len - a - 1))
      low d =
          reverse_outside next o len (suc i) n (o + a) (omega (arith, h)) (inl (omega (arith, d)))
          ∙ ap next (ap (λ k. o + k) (same d))
          ∙ exchanged_low m o len i (omega (arith, h))
          ∙ ap (λ k. m (o + (len - k - 1))) (sym (same d))
        where
          same : ¬ (i < a) → a ≡ i
          same d' = omega (arith, d', p, h)

      high :
          i < a
          → ¬ (a + i + 1 < len)
          → reverse_loop next o len (suc i) n (o + a) ≡ m (o + (len - a - 1))
      high e d =
          reverse_outside next o len (suc i) n (o + a) (omega (arith, h))
            (inr (inr (omega (arith, d))))
          ∙ ap (λ k. next (o + k)) (last d)
          ∙ exchanged_high m o len i
          ∙ ap (λ k. m (o + k)) (first d)
        where
          last : ¬ (a + i + 1 < len) → a ≡ len - i - 1
          last d' = omega (arith, d', e, p, h)

          first : ¬ (a + i + 1 < len) → i ≡ len - a - 1
          first d' = omega (arith, d', e, p, h)

  pub array_reverse_outside :
      (m : Memory A) (o len j : ℕ) → (j < o) ⊎ (o + len ≤ j) → array_reverse m o len j ≡ m j
  unfolding array_reverse
  array_reverse_outside m o len j h =
      reverse_outside m o len 0 (len / 2) j (omega arith) (ground (arith, h))

  pub array_reverse_inside :
      (m : Memory A) (o len a : ℕ) → a < len → array_reverse m o len (o + a) ≡ m (o + (len - a - 1))
  unfolding array_reverse
  array_reverse_inside m o len a h = elim (dec_lt a (len / 2)) [
    | yes p ↦
        reverse_inside m o len 0 (len / 2) a (omega arith) (inl (omega arith, omega (arith, p)))
    | no p ↦ elim (dec_lt (a + len / 2) len) [
      | yes q ↦
          reverse_outside m o len 0 (len / 2) (o + a) (omega arith)
            (inr (inl (omega (arith, p), omega (arith, q))))
          ∙ ap (λ k. m (o + k)) (middle p q)
      | no q ↦
          reverse_inside m o len 0 (len / 2) a (omega arith)
            (inr (omega (arith, q), omega (arith, h)))
    ]
  ]
    where
      middle : ¬ (a < len / 2) → a + len / 2 < len → a ≡ len - a - 1
      middle p q = omega (arith, p, q)
