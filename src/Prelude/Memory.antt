-- ===== src/Prelude/Memory.antt =====
-- Addressable storage: what a C array or buffer holds, as a function of the index.
-- A write out of the range that the program owns is not ruled out here: the bounds are theorems.
use cicy_agent_adr.Prelude.Tests.{◌==◌, if◌then◌else◌}
use cicy_agent_adr.Prelude.Lists.{length, get_or, take, drop, replicate}
use Prim.Native.Nat.{ℕ, zero, suc, ◌+◌, ◌-◌, ◌≤◌, ◌<◌}
use mathlib.Core.Path.{◌≡◌, refl, ap, ap₂, ◌∙◌, fun_ext}
use mathlib.Core.Logic.{◌≢◌, ◌⊎◌, inl, inr}
use mathlib.Core.List.{List, [], ◌∷◌, ◌++◌}
use native.Mathlib.Decide.{dec_le}
use native.Mathlib.Omega.{arith}

abbrev pub Memory {ℓ} : Type ℓ → Type ℓ
Memory A = ℕ → A

-- A buffer of bytes.
abbrev pub Buffer : Type 0
Buffer = Memory ℕ

-- The storage that starts at offset `i`, as `&buf[i]` or `buf + i`.
abbrev pub offset {ℓ} : {A : Type ℓ} → Memory A → ℕ → Memory A
offset m i j = m (i + j)

abbrev pub of_list : List ℕ → Buffer
of_list xs i = get_or xs i 0

module _ {ℓ} {A : Type ℓ} where
  -- `m[i] = v`
  abbrev pub store : Memory A → ℕ → A → Memory A
  store m i v j = if j == i then v else m j

  -- `memcpy(&m[i], xs, length xs)`
  unfoldable pub memcpy : Memory A → ℕ → List A → Memory A
  memcpy m i [] = m
  memcpy m i (x ∷ xs) = memcpy (store m i x) (i + 1) xs

  -- `memset(&m[i], v, n)`
  unfoldable pub memset : Memory A → ℕ → A → ℕ → Memory A
  memset m i v zero = m
  memset m i v (suc n) = memset (store m i v) (i + 1) v n

  -- the items at `i .. i + n - 1`
  unfoldable pub slice : Memory A → ℕ → ℕ → List A
  slice m i zero = []
  slice m i (suc n) = m i ∷ slice m (i + 1) n

  pub store_ne : (m : Memory A) (i j : ℕ) (v : A) → j ≢ i → store m i v j ≡ m j
  store_ne m i j v h = ground arith

  pub store_self : (m : Memory A) (i : ℕ) (v : A) → store m i v i ≡ v
  store_self m i v = ground arith

  pub memcpy_below : (m : Memory A) (i : ℕ) (xs : List A) (j : ℕ) → j < i → memcpy m i xs j ≡ m j
  unfolding memcpy
  memcpy_below m i [] j h = refl
  memcpy_below m i (x ∷ xs) j h =
      memcpy_below (store m i x) (i + 1) xs j (omega arith) ∙ ground arith

  pub memcpy_above :
      (m : Memory A) (i : ℕ) (xs : List A) (j : ℕ) → i + length xs ≤ j → memcpy m i xs j ≡ m j
  unfolding memcpy
  memcpy_above m i [] j h = refl
  memcpy_above m i (x ∷ xs) j h =
      memcpy_above (store m i x) (i + 1) xs j (omega arith) ∙ ground arith

  pub memset_outside :
      (m : Memory A) (i : ℕ) (v : A) (n j : ℕ) → (j < i) ⊎ (i + n ≤ j) → memset m i v n j ≡ m j
  unfolding memset
  memset_outside m i v zero j h = refl
  memset_outside m i v (suc n) j h =
      memset_outside (store m i v) (i + 1) v n j (ground arith) ∙ ground arith

  pub length-slice : (m : Memory A) (i n : ℕ) → length (slice m i n) ≡ n
  unfolding slice
  length-slice m i zero = refl
  length-slice m i (suc n) = ap suc (length-slice m (i + 1) n)

  -- A slice depends on the items in its range only.
  pub slice_congr :
      (m m' : Memory A) (i n : ℕ)
      → ((j : ℕ) → i ≤ j → j < i + n → m j ≡ m' j)
      → slice m i n ≡ slice m' i n
  unfolding slice
  slice_congr m m' i zero h = refl
  slice_congr m m' i (suc n) h =
      ap₂ ◌∷◌ (h i (omega arith) (omega arith))
        (slice_congr m m' (i + 1) n (λ j p q. h j (omega arith) (omega arith)))

  -- What was copied in is read back.
  pub slice-memcpy : (m : Memory A) (i : ℕ) (xs : List A) → slice (memcpy m i xs) i (length xs) ≡ xs
  unfolding memcpy slice
  slice-memcpy m i [] = refl
  slice-memcpy m i (x ∷ xs) =
      ap₂ ◌∷◌ (memcpy_below (store m i x) (i + 1) xs i (omega arith) ∙ ground arith)
        (slice-memcpy (store m i x) (i + 1) xs)

  pub slice_cong : (m : Memory A) (a b c d : ℕ) → a ≡ b → c ≡ d → slice m a c ≡ slice m b d
  slice_cong m a b c d p q = cc

  -- A slice splits at any point.
  pub slice_split :
      (m : Memory A) (i n k : ℕ) → slice m i (n + k) ≡ slice m i n ++ slice m (i + n) k
  unfolding slice
  slice_split m i zero k = slice_cong m i (i + 0) (0 + k) k (omega arith) (omega arith)
  slice_split m i (suc n) k =
      slice_cong m i i (suc n + k) (suc (n + k)) (omega arith) (omega arith)
      ∙ ap (λ xs. m i ∷ xs)
          (slice_split m (i + 1) n k
            ∙ ap (λ t. slice m (i + 1) n ++ t)
                (slice_cong m (i + 1 + n) (i + suc n) k k (omega arith) refl))

  -- Copying elsewhere leaves a slice as it is.
  pub slice-memcpy_apart :
      (m : Memory A) (a : ℕ) (xs : List A) (i n : ℕ)
      → (i + n ≤ a) ⊎ (a + length xs ≤ i)
      → slice (memcpy m a xs) i n ≡ slice m i n
  slice-memcpy_apart m a xs i n h = slice_congr (memcpy m a xs) m i n (λ j p q. apart h j p q)
    where
      apart :
          (i + n ≤ a) ⊎ (a + length xs ≤ i) → (j : ℕ) → i ≤ j → j < i + n → memcpy m a xs j ≡ m j
      apart (inl l) j p q = memcpy_below m a xs j (omega arith)
      apart (inr r) j p q = memcpy_above m a xs j (omega arith)

  -- Two copies side by side are one.
  pub memcpy-memcpy :
      (m : Memory A) (i k : ℕ) (xs ys : List A)
      → k ≡ i + length xs
      → memcpy (memcpy m i xs) k ys ≡ memcpy m i (xs ++ ys)
  unfolding memcpy
  memcpy-memcpy m i k [] ys e = ap (λ a. memcpy m a ys) (omega arith)
  memcpy-memcpy m i k (x ∷ xs) ys e = memcpy-memcpy (store m i x) (i + 1) k xs ys (omega arith)

  store_comm :
      (m : Memory A) (i k : ℕ) (v w : A) → i < k → store (store m k w) i v ≡ store (store m i v) k w
  store_comm m i k v w h = fun_ext (λ j. ground arith)

  -- A store below a copy may be made before it.
  pub store-memcpy :
      (m : Memory A) (i k : ℕ) (v : A) (xs : List A)
      → i < k
      → store (memcpy m k xs) i v ≡ memcpy (store m i v) k xs
  unfolding memcpy
  store-memcpy m i k v [] h = refl
  store-memcpy m i k v (x ∷ xs) h =
      store-memcpy (store m k x) i (k + 1) v xs (omega arith)
      ∙ ap (λ t. memcpy t (k + 1) xs) (store_comm m i k v x h)

  -- The items of a slice, one by one and in parts.
  pub get_or-slice :
      (m : Memory A) (i n j : ℕ) (d : A) → j < n → get_or (slice m i n) j d ≡ m (i + j)
  unfolding slice
  get_or-slice m i zero j d h = absurd (omega arith)
  get_or-slice m i (suc n) zero d h = ap m (omega arith)
  get_or-slice m i (suc n) (suc j) d h =
      get_or-slice m (i + 1) n j d (omega arith) ∙ ap m (omega arith)

  pub take-slice : (m : Memory A) (i n k : ℕ) → k ≤ n → take k (slice m i n) ≡ slice m i k
  unfolding slice
  take-slice m i n zero h = refl
  take-slice m i zero (suc k) h = absurd (omega arith)
  take-slice m i (suc n) (suc k) h = ap (λ t. m i ∷ t) (take-slice m (i + 1) n k (omega arith))

  pub drop-slice :
      (m : Memory A) (i n k : ℕ) → k ≤ n → drop k (slice m i n) ≡ slice m (i + k) (n - k)
  unfolding slice
  drop-slice m i n zero h = slice_cong m i (i + 0) n (n - 0) (omega arith) (omega arith)
  drop-slice m i zero (suc k) h = absurd (omega arith)
  drop-slice m i (suc n) (suc k) h =
      drop-slice m (i + 1) n k (omega arith)
      ∙ slice_cong m (i + 1 + k) (i + suc k) (n - k) (suc n - suc k) (omega arith) (omega arith)

  -- A slice of equal items.
  pub slice-replicate :
      (m : Memory A) (i n : ℕ) (v : A)
      → ((j : ℕ) → i ≤ j → j < i + n → m j ≡ v)
      → slice m i n ≡ replicate n v
  unfolding slice
  slice-replicate m i zero v h = refl
  slice-replicate m i (suc n) v h =
      ap₂ ◌∷◌ (h i (omega arith) (omega arith))
        (slice-replicate m (i + 1) n v (λ j p q. h j (omega arith) (omega arith)))

  pub memset_inside :
      (m : Memory A) (i : ℕ) (v : A) (n j : ℕ) → i ≤ j → j < i + n → memset m i v n j ≡ v
  unfolding memset
  memset_inside m i v zero j p q = absurd (omega arith)
  memset_inside m i v (suc n) j p q = elim (dec_le (i + 1) j) [
    | yes r ↦ memset_inside (store m i v) (i + 1) v n j r (omega arith)
    | no r ↦ memset_outside (store m i v) (i + 1) v n j (inl (omega arith)) ∙ ground arith
  ]
