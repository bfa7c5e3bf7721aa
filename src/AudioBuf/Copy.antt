-- ===== src/AudioBuf/Copy.antt =====
-- Copies into and out of a ring, in at most two pieces.
use cicy_agent_adr.Prelude.{
  ℕ, zero, suc, ◌+◌, ◌%◌, ◌≤◌, ◌<◌, ◌≡◌, ◌⊎◌, inl, inr, refl, sym, ap, ◌∙◌, List, [], ◌∷◌, ◌++◌,
  append_assoc, append-nil, length, length-append, replicate, arith,
}
use cicy_agent_adr.Prelude.Memory.{Memory, memcpy, memset, store}
use cicy_agent_adr.Prelude.Window.{window, window-store, window_cong, mod_cases}
use native.Mathlib.Decide.{ℕ_discrete}

-- Where the step after a cursor leads.
next_cursor :
    (size i n k : ℕ)
    → i < size
    → n < size
    → k ≡ (i + n) % size
    → k + 1 < size
    → k + 1 ≡ (i + (n + 1)) % size
next_cursor size i n k h p e q =
    omega (arith, mod_cases size i n h (omega arith), mod_cases size i (n + 1) h (omega arith))

module _ {ℓ} {A : Type ℓ} where
  -- Item by item, past a window of `n` items that starts at `i`.
  ring_store : Memory A → ℕ → ℕ → ℕ → List A → Memory A
  ring_store m size i n [] = m
  ring_store m size i n (x ∷ xs) = ring_store (store m ((i + n) % size) x) size i (n + 1) xs

  window-ring_store :
      (m : Memory A) (size i n : ℕ) (xs : List A)
      → i < size
      → n + length xs ≤ size
      → window (ring_store m size i n xs) size i (n + length xs) ≡ window m size i n ++ xs
  unfolding ring_store
  window-ring_store m size i n [] h p =
      window_cong m size i i (n + 0) n refl (omega arith) ∙ sym (append-nil (window m size i n))
  window-ring_store m size i n (x ∷ xs) h p =
      window_cong (ring_store (store m ((i + n) % size) x) size i (n + 1) xs) size i i
        (n + suc (length xs)) (n + 1 + length xs) refl (omega arith)
      ∙ window-ring_store (store m ((i + n) % size) x) size i (n + 1) xs h (omega arith)
      ∙ ap (λ t. t ++ xs) (window-store m size i n x h (omega arith))
      ∙ append_assoc (window m size i n) (x ∷ []) xs

  ring_store-ring_store :
      (m : Memory A) (size i n k : ℕ) (xs ys : List A)
      → k ≡ n + length xs
      → ring_store (ring_store m size i n xs) size i k ys ≡ ring_store m size i n (xs ++ ys)
  unfolding ring_store
  ring_store-ring_store m size i n k [] ys e = ap (λ t. ring_store m size i t ys) (omega arith)
  ring_store-ring_store m size i n k (x ∷ xs) ys e =
      ring_store-ring_store (store m ((i + n) % size) x) size i (n + 1) k xs ys (omega arith)

  -- One piece.
  memcpy-ring_store :
      (m : Memory A) (size i n k : ℕ) (xs : List A)
      → i < size
      → n + length xs ≤ size
      → (length xs ≡ 0) ⊎ (k ≡ (i + n) % size)
      → k + length xs ≤ size
      → memcpy m k xs ≡ ring_store m size i n xs
  unfolding ring_store memcpy
  memcpy-ring_store m size i n k [] h p e q = refl
  memcpy-ring_store m size i n k (x ∷ xs) h p (inl e) q = absurd (omega arith)
  memcpy-ring_store m size i n k (x ∷ xs) h p (inr e) q =
      ap (λ t. memcpy (store m t x) (k + 1) xs) e
      ∙ memcpy-ring_store (store m ((i + n) % size) x) size i (n + 1) (k + 1) xs h (omega arith)
          (later (ℕ_discrete (length xs) 0)) (omega arith)
    where
      later : Dec (length xs ≡ 0) → (length xs ≡ 0) ⊎ (k + 1 ≡ (i + (n + 1)) % size)
      later (yes l) = inl l
      later (no l) = inr (next_cursor size i n k h (omega arith) e (omega arith))

  -- A copy in two pieces, the second from the start of the ring when the first reaches its end.
  pub window-pieces :
      (m : Memory A) (size i n c : ℕ) (xs ys : List A)
      → i < size
      → n + length xs + length ys ≤ size
      → c ≡ (i + n) % size
      → c + length xs ≤ size
      → (length ys ≡ 0) ⊎ (c + length xs ≡ size)
      → window (memcpy (memcpy m c xs) 0 ys) size i (n + length xs + length ys)
        ≡ window m size i n ++ (xs ++ ys)
  window-pieces m size i n c xs ys h p e q r =
      let total : n + length xs + length ys ≡ n + length (xs ++ ys) =
        omega (arith, length-append xs ys) in
      ap (λ t. window (memcpy t 0 ys) size i (n + length xs + length ys))
        (memcpy-ring_store m size i n c xs h (omega arith) (inr e) q)
      ∙ ap (λ t. window t size i (n + length xs + length ys))
          (memcpy-ring_store (ring_store m size i n xs) size i (n + length xs) 0 ys h (omega arith)
            (around r) (omega arith))
      ∙ ap (λ t. window t size i (n + length xs + length ys))
          (ring_store-ring_store m size i n (n + length xs) xs ys refl)
      ∙ ap (λ t. window (ring_store m size i n (xs ++ ys)) size i t) total
      ∙ window-ring_store m size i n (xs ++ ys) h (omega (arith, length-append xs ys))
    where
      around :
          (length ys ≡ 0) ⊎ (c + length xs ≡ size)
          → (length ys ≡ 0) ⊎ (0 ≡ (i + (n + length xs)) % size)
      around (inl l) = inl l
      around (inr l) = inr (
          omega (
            arith,
            mod_cases size i n h (omega arith),
            mod_cases size i (n + length xs) h (omega arith),
          ))

  -- A fill is a copy of equal items.
  pub memset-memcpy :
      (m : Memory A) (i : ℕ) (v : A) (n : ℕ) → memset m i v n ≡ memcpy m i (replicate n v)
  unfolding memset memcpy
  memset-memcpy m i v zero = refl
  memset-memcpy m i v (suc n) = memset-memcpy (store m i v) (i + 1) v n
