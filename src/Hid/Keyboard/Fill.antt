-- ===== src/Hid/Keyboard/Fill.antt =====
-- The loop of hid_keyboard.c that writes the pressed keys.
use cicy_agent_adr.Prelude.{
  ℕ, zero, suc, ◌+◌, ◌-◌, ◌≤◌, ◌<◌, ◌≡◌, ◌⊎◌, inl, inr, refl, sym, ap, ap₂, ◌∙◌, true, false, List,
  [], ◌∷◌, ◌++◌, length, replicate, arith, Bool-cases, leb, if◌then◌else◌,
}
use cicy_agent_adr.Prelude.Memory.{
  Buffer, store, memset, memcpy, memset_inside, memset_outside, store_ne, slice, slice-memcpy,
  slice-replicate, slice_split, slice_cong, memcpy_below, memcpy_above,
}
use cicy_agent_adr.Binary.{u8}
use cicy_agent_adr.Hid.Keyboard.{Keys, max_keys, fill_keys}
use native.Mathlib.Decide.{dec_le}

-- The pressed keys among `i .. i + n - 1`, in order.
unfoldable pub pressed_keys : Keys → ℕ → ℕ → List ℕ
pressed_keys keys i zero = []
pressed_keys keys i (suc n) =
    let rest = pressed_keys keys (i + 1) n in if keys i then i ∷ rest else rest

-- Up to six keys, then zeros; more keys than that are the error "roll over" six times.
unfoldable pub key_bytes : List ℕ → List ℕ
key_bytes pressed =
    if leb (length pressed) max_keys
    then pressed ++ replicate (max_keys - length pressed) 0
    else replicate max_keys 1

module _ (keys : Keys) (n i count : ℕ) (bytes : Buffer) where
  fill_up :
      keys i ≡ true
      → count < max_keys
      → fill_keys keys (suc n) i count bytes
        ≡ fill_keys keys n (i + 1) (count + 1) (store bytes (2 + count) (u8 i))
  unfolding fill_keys
  fill_up up h = let room : leb max_keys count ≡ false = ground arith in rw (up, room)

  fill_full :
      keys i ≡ true
      → max_keys ≤ count
      → fill_keys keys (suc n) i count bytes ≡ memset bytes 2 1 max_keys
  unfolding fill_keys
  fill_full up h = let full : leb max_keys count ≡ true = ground arith in rw (up, full)

  fill_down :
      keys i ≡ false → fill_keys keys (suc n) i count bytes ≡ fill_keys keys n (i + 1) count bytes
  unfolding fill_keys
  fill_down down = rw down

  pressed_up : keys i ≡ true → pressed_keys keys i (suc n) ≡ i ∷ pressed_keys keys (i + 1) n
  unfolding pressed_keys
  pressed_up up = rw up

  pressed_down : keys i ≡ false → pressed_keys keys i (suc n) ≡ pressed_keys keys (i + 1) n
  unfolding pressed_keys
  pressed_down down = rw down

-- With room for all of the keys, they are copied.
pub few_keys :
    (keys : Keys) (n i count : ℕ) (bytes : Buffer)
    → i + n ≤ 256
    → count + length (pressed_keys keys i n) ≤ max_keys
    → fill_keys keys n i count bytes ≡ memcpy bytes (2 + count) (pressed_keys keys i n)
unfolding fill_keys memcpy pressed_keys
few_keys keys zero i count bytes r h = refl
few_keys keys (suc n) i count bytes r h = elim (Bool-cases (keys i)) [
  | inl up ↦
      let e = pressed_up keys n i count bytes up in
      let l = ap (λ t. length t) e in
      let byte : u8 i ≡ i = ground arith in
      fill_up keys n i count bytes up (omega (arith, l))
      ∙ few_keys keys n (i + 1) (count + 1) (store bytes (2 + count) (u8 i)) (omega arith)
          (omega (arith, l))
      ∙ ap₂ (λ b a. memcpy (store bytes (2 + count) b) a (pressed_keys keys (i + 1) n)) byte
          (omega arith)
      ∙ sym (ap (λ t. memcpy bytes (2 + count) t) e)
  | inr down ↦
      let e = pressed_down keys n i count bytes down in
      fill_down keys n i count bytes down
      ∙ few_keys keys n (i + 1) count bytes (omega arith) (omega (arith, ap (λ t. length t) e))
      ∙ sym (ap (λ t. memcpy bytes (2 + count) t) e)
]

-- With more keys than that, the six bytes become the error.
pub many_keys :
    (keys : Keys) (n i count : ℕ) (bytes : Buffer)
    → count ≤ max_keys
    → max_keys < count + length (pressed_keys keys i n)
    → (j : ℕ) → fill_keys keys n i count bytes j ≡ memset bytes 2 1 max_keys j
unfolding memset pressed_keys
many_keys keys zero i count bytes c h j = absurd (omega arith)
many_keys keys (suc n) i count bytes c h j = elim (Bool-cases (keys i)) [
  | inl up ↦ elim (dec_le max_keys count) [
    | yes full ↦ ap (λ f. f j) (fill_full keys n i count bytes up full)
    | no room ↦
        let l = ap (λ t. length t) (pressed_up keys n i count bytes up) in
        let c' : count < 6 = omega arith in
        ap (λ f. f j) (fill_up keys n i count bytes up c')
        ∙ many_keys keys n (i + 1) (count + 1) (store bytes (2 + count) (u8 i)) (omega arith)
            (omega (arith, l)) j
        ∙ overwritten (dec_le 2 j) (dec_le 8 j) c'
  ]
  | inr down ↦
      let l = ap (λ t. length t) (pressed_down keys n i count bytes down) in
      ap (λ f. f j) (fill_down keys n i count bytes down)
      ∙ many_keys keys n (i + 1) count bytes c (omega (arith, l)) j
]
  where
    overwritten :
        Dec (2 ≤ j)
        → Dec (8 ≤ j)
        → count < 6
        → memset (store bytes (2 + count) (u8 i)) 2 1 max_keys j ≡ memset bytes 2 1 max_keys j
    overwritten (no l) g c' =
        memset_outside (store bytes (2 + count) (u8 i)) 2 1 6 j (inl (omega arith))
        ∙ store_ne bytes (2 + count) j (u8 i) (λ e. omega (arith, e))
        ∙ sym (memset_outside bytes 2 1 6 j (inl (omega arith)))
    overwritten (yes l) (yes g) c' =
        memset_outside (store bytes (2 + count) (u8 i)) 2 1 6 j (inr (omega arith))
        ∙ store_ne bytes (2 + count) j (u8 i) (λ e. omega (arith, e))
        ∙ sym (memset_outside bytes 2 1 6 j (inr (omega arith)))
    overwritten (yes l) (no g) c' =
        memset_inside (store bytes (2 + count) (u8 i)) 2 1 6 j l (omega arith)
        ∙ sym (memset_inside bytes 2 1 6 j l (omega arith))

module _ (keys : Keys) (n : ℕ) (bytes : Buffer) where
  -- The loop writes the six bytes of the keys only.
  pub fill_outside : n ≤ 256 → (j : ℕ) → (j < 2) ⊎ (8 ≤ j) → fill_keys keys n 0 0 bytes j ≡ bytes j
  fill_outside r j h = elim (dec_le (length (pressed_keys keys 0 n)) max_keys) [
    | yes few ↦ ap (λ m. m j) (few_keys keys n 0 0 bytes (omega arith) (omega arith)) ∙ copied h few
    | no many ↦
        many_keys keys n 0 0 bytes (omega arith) (omega arith) j ∙ memset_outside bytes 2 1 6 j h
  ]
    where
      copied :
          (j < 2) ⊎ (8 ≤ j)
          → length (pressed_keys keys 0 n) ≤ 6
          → memcpy bytes 2 (pressed_keys keys 0 n) j ≡ bytes j
      copied (inl l) few = memcpy_below bytes 2 (pressed_keys keys 0 n) j l
      copied (inr g) few = memcpy_above bytes 2 (pressed_keys keys 0 n) j (omega arith)

  few_slice :
      (xs : List ℕ)
      → length xs ≤ max_keys
      → ((j : ℕ) → 2 ≤ j → j < 8 → bytes j ≡ 0)
      → slice (memcpy bytes 2 xs) 2 6 ≡ xs ++ replicate (max_keys - length xs) 0
  few_slice xs few z =
      slice_cong (memcpy bytes 2 xs) 2 2 6 (length xs + (6 - length xs)) refl (omega arith)
      ∙ slice_split (memcpy bytes 2 xs) 2 (length xs) (6 - length xs)
      ∙ ap₂ ◌++◌ (slice-memcpy bytes 2 xs) (
          slice-replicate (memcpy bytes 2 xs) (2 + length xs) (6 - length xs) 0
            (λ j p q. memcpy_above bytes 2 xs j p ∙ z j (omega arith) (omega arith)))

  -- The six bytes, when they are zeros before.
  pub fill_slice :
      n ≤ 256
      → ((j : ℕ) → 2 ≤ j → j < 8 → bytes j ≡ 0)
      → slice (fill_keys keys n 0 0 bytes) 2 6 ≡ key_bytes (pressed_keys keys 0 n)
  unfolding key_bytes
  fill_slice r z = elim (dec_le (length (pressed_keys keys 0 n)) max_keys) [
    | yes few ↦
        let t : leb (length (pressed_keys keys 0 n)) max_keys ≡ true = ground arith in
        ap (λ m. slice m 2 6) (few_keys keys n 0 0 bytes (omega arith) (omega arith))
        ∙ few_slice (pressed_keys keys 0 n) few z
        ∙ sym (
            ap
              (λ b.
                if b
                then pressed_keys keys 0 n
                  ++ replicate (max_keys - length (pressed_keys keys 0 n)) 0
                else replicate max_keys 1)
              t)
    | no many ↦
        let t : leb (length (pressed_keys keys 0 n)) max_keys ≡ false = ground arith in
        slice-replicate (fill_keys keys n 0 0 bytes) 2 6 1 (λ j p q.
          many_keys keys n 0 0 bytes (omega arith) (omega arith) j
          ∙ memset_inside bytes 2 1 6 j p q)
        ∙ sym (
            ap
              (λ b.
                if b
                then pressed_keys keys 0 n
                  ++ replicate (max_keys - length (pressed_keys keys 0 n)) 0
                else replicate max_keys 1)
              t)
  ]
