-- ===== src/Prelude/Window.antt =====
-- A ring in addressable storage: the items from an index on, going round at a capacity.
use cicy_agent_adr.Prelude.Lists.{length}
use cicy_agent_adr.Prelude.Memory.{Memory, slice, store, store_ne, store_self}
use Prim.Native.Nat.{ℕ, zero, suc, ◌+◌, ◌-◌, ◌%◌, ◌≤◌, ◌<◌}
use mathlib.Core.Path.{◌≡◌, refl, sym, ap, ap₂, ◌∙◌}
use mathlib.Core.Logic.{◌≢◌, ◌⊎◌, inl, inr}
use mathlib.Core.List.{List, [], ◌∷◌, ◌++◌}
use native.Mathlib.Nat.{mod-eq_of_lt, mod-eq-sub-mod, mod-add-mod, add-zero}
use native.Mathlib.Decide.{dec_lt}
use native.Mathlib.Omega.{arith}

-- Where a step of at most one round leads.
pub mod_cases :
    (size i j : ℕ)
    → i < size
    → j ≤ size
    → ((i + j < size) × ((i + j) % size ≡ i + j))
      ⊎ ((size ≤ i + j) × ((i + j) % size + size ≡ i + j))
mod_cases size i j h p = elim (dec_lt (i + j) size) [
  | yes q ↦ inl (q, mod-eq_of_lt q)
  | no q ↦ inr (
    omega arith,
    omega (
      arith,
      mod-eq-sub-mod {n = i + j} {m = size} (omega arith),
      mod-eq_of_lt {n = i + j - size} {m = size} (omega arith),
    ),
  )
]

-- Fewer than `size` steps round lead elsewhere.
pub mod_ne : (size i j n : ℕ) → i < size → j < n → n < size → (i + j) % size ≢ (i + n) % size
mod_ne size i j n h p q e =
    omega (arith, mod_cases size i j h (omega arith), mod_cases size i n h (omega arith))

module _ {ℓ} {A : Type ℓ} where
  -- the items at `i % size .. (i + n - 1) % size`
  unfoldable pub window : Memory A → ℕ → ℕ → ℕ → List A
  window m size i zero = []
  window m size i (suc n) = m (i % size) ∷ window m size (i + 1) n

  pub length-window : (m : Memory A) (size i n : ℕ) → length (window m size i n) ≡ n
  unfolding window
  length-window m size i zero = refl
  length-window m size i (suc n) = ap suc (length-window m size (i + 1) n)

  pub window_cong :
      (m : Memory A) (size i j n k : ℕ) → i ≡ j → n ≡ k → window m size i n ≡ window m size j k
  window_cong m size i j n k p q = cc

  -- A window depends on the items in it only.
  pub window_congr :
      (m m' : Memory A) (size i n : ℕ)
      → ((j : ℕ) → j < n → m ((i + j) % size) ≡ m' ((i + j) % size))
      → window m size i n ≡ window m' size i n
  unfolding window
  window_congr m m' size i zero h = refl
  window_congr m m' size i (suc n) h =
      ap₂ ◌∷◌
        (ap (λ k. m (k % size)) (omega arith)
          ∙ h 0 (omega arith)
          ∙ ap (λ k. m' (k % size)) (omega arith))
        (window_congr m m' size (i + 1) n (λ j p.
          ap (λ k. m (k % size)) (omega arith)
          ∙ h (suc j) (omega arith)
          ∙ ap (λ k. m' (k % size)) (omega arith)))

  -- A window splits at any point.
  pub window_split :
      (m : Memory A) (size i n k : ℕ)
      → window m size i (n + k) ≡ window m size i n ++ window m size (i + n) k
  unfolding window
  window_split m size i zero k = window_cong m size i (i + 0) (0 + k) k (omega arith) (omega arith)
  window_split m size i (suc n) k =
      window_cong m size i i (suc n + k) (suc (n + k)) refl (omega arith)
      ∙ ap (λ t. m (i % size) ∷ t)
          (window_split m size (i + 1) n k
            ∙ ap (λ t. window m size (i + 1) n ++ t)
                (window_cong m size (i + 1 + n) (i + suc n) k k (omega arith) refl))

  -- One step round.
  pub window_mod : (m : Memory A) (size i n : ℕ) → window m size (i % size) n ≡ window m size i n
  unfolding window
  window_mod m size i zero = refl
  window_mod m size i (suc n) =
      ap₂ ◌∷◌
        (ap m (
          ap (λ t. t % size) (sym (add-zero (i % size)))
          ∙ mod-add-mod i size 0
          ∙ ap (λ t. t % size) (add-zero i)))
        (sym (window_mod m size (i % size + 1) n)
          ∙ ap (λ t. window m size t n) (mod-add-mod i size 1)
          ∙ window_mod m size (i + 1) n)

  -- A window that does not reach the end is a slice.
  pub window-eq-slice :
      (m : Memory A) (size i n : ℕ) → i + n ≤ size → window m size i n ≡ slice m i n
  unfolding window slice
  window-eq-slice m size i zero h = refl
  window-eq-slice m size i (suc n) h =
      ap₂ ◌∷◌ (ap m (mod-eq_of_lt (omega arith))) (window-eq-slice m size (i + 1) n (omega arith))

  -- A window that goes round is two slices.
  pub window_round :
      (m : Memory A) (size i n : ℕ)
      → i < size
      → n ≤ size
      → size ≤ i + n
      → window m size i n ≡ slice m i (size - i) ++ slice m 0 (n - (size - i))
  window_round m size i n h q l =
      window_cong m size i i n (size - i + (n - (size - i))) refl (omega arith)
      ∙ window_split m size i (size - i) (n - (size - i))
      ∙ ap₂ ◌++◌ (window-eq-slice m size i (size - i) (omega arith)) (
          sym (window_mod m size (i + (size - i)) (n - (size - i)))
          ∙ window_cong m size ((i + (size - i)) % size) 0 (n - (size - i)) (n - (size - i))
              (omega (arith, mod_cases size i (size - i) h (omega arith))) refl
          ∙ window-eq-slice m size 0 (n - (size - i)) (omega arith))

  -- The item just past a window extends it.
  pub window-store :
      (m : Memory A) (size i n : ℕ) (x : A)
      → i < size
      → n < size
      → window (store m ((i + n) % size) x) size i (n + 1) ≡ window m size i n ++ (x ∷ [])
  unfolding window
  window-store m size i n x h p =
      window_split (store m ((i + n) % size) x) size i n 1
      ∙ ap₂ ◌++◌
          (window_congr (store m ((i + n) % size) x) m size i n
            (λ j q. store_ne m ((i + n) % size) ((i + j) % size) x (mod_ne size i j n h q p)))
          (ap (λ t. t ∷ []) (store_self m ((i + n) % size) x))

  -- The first item of a window.
  pub window_first :
      (m : Memory A) (size i n : ℕ)
      → i < size
      → n ≢ 0
      → window m size i n ≡ m i ∷ window m size ((i + 1) % size) (n - 1)
  unfolding window
  window_first m size i zero h ne = absurd (ne refl)
  window_first m size i (suc n) h ne = ap₂ ◌∷◌ (ap m (mod-eq_of_lt h)) (
      sym (window_mod m size (i + 1) n)
      ∙ window_cong m size ((i + 1) % size) ((i + 1) % size) n (suc n - 1) refl (omega arith))
