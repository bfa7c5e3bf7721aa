-- ===== src/Vector/Rotation.antt =====
-- Where a rotation of an array takes its items.
use cicy_agent_adr.Prelude.{ℕ, ◌+◌, ◌-◌, ◌≤◌, ◌<◌, ◌≡◌, ◌⊎◌, inl, inr, ap, ◌∙◌, arith}
use cicy_agent_adr.Prelude.Memory.{Memory}
use cicy_agent_adr.Vector.Rotate.{
  array_reverse, rotate_left, array_reverse_outside, array_reverse_inside,
}

module _ {ℓ} {A : Type ℓ} where
  -- A rotation to the left.
  pub rotate_left_front :
      (m : Memory A) (o len d a : ℕ)
      → d ≤ len
      → a < len - d
      → rotate_left m o len d (o + a) ≡ m (o + (a + d))
  unfolding rotate_left
  rotate_left_front m o len d a h l =
      array_reverse_inside m₂ o len a (omega (arith, l))
      ∙ ap m₂ first
      ∙ array_reverse_inside m₁ (o + d) (len - d) (len - a - 1 - d) (omega (arith, l))
      ∙ array_reverse_outside m o d (o + d + (len - d - (len - a - 1 - d) - 1)) (inr (omega arith))
      ∙ ap m second
    where
      m₁ : Memory A
      m₁ = array_reverse m o d

      m₂ : Memory A
      m₂ = array_reverse m₁ (o + d) (len - d)

      first : o + (len - a - 1) ≡ o + d + (len - a - 1 - d)
      first = omega (arith, h, l)

      second : o + d + (len - d - (len - a - 1 - d) - 1) ≡ o + (a + d)
      second = omega (arith, h, l)

  pub rotate_left_back :
      (m : Memory A) (o len d a : ℕ)
      → d ≤ len
      → len - d ≤ a
      → a < len
      → rotate_left m o len d (o + a) ≡ m (o + (a + d - len))
  unfolding rotate_left
  rotate_left_back m o len d a h l k =
      array_reverse_inside m₂ o len a k
      ∙ array_reverse_outside m₁ (o + d) (len - d) (o + (len - a - 1))
          (inl (omega (arith, h, l, k)))
      ∙ array_reverse_inside m o d (len - a - 1) (omega (arith, h, l, k))
      ∙ ap (λ j. m (o + j)) place
    where
      m₁ : Memory A
      m₁ = array_reverse m o d

      m₂ : Memory A
      m₂ = array_reverse m₁ (o + d) (len - d)

      place : d - (len - a - 1) - 1 ≡ a + d - len
      place = omega (arith, h, l, k)

  pub rotate_left_outside :
      (m : Memory A) (o len d j : ℕ)
      → d ≤ len
      → (j < o) ⊎ (o + len ≤ j)
      → rotate_left m o len d j ≡ m j
  unfolding rotate_left
  rotate_left_outside m o len d j h p =
      array_reverse_outside m₂ o len j p
      ∙ array_reverse_outside m₁ (o + d) (len - d) j (ground (arith, h, p))
      ∙ array_reverse_outside m o d j (ground (arith, h, p))
    where
      m₁ : Memory A
      m₁ = array_reverse m o d

      m₂ : Memory A
      m₂ = array_reverse m₁ (o + d) (len - d)
