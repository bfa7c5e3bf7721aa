-- ===== src/DeviceMsg/Fields.antt =====
-- The fields of a device message, read off the bytes at the front of a buffer.
use cicy_agent_adr.Prelude.{
  ℕ, ◌+◌, ◌-◌, ◌/◌, ◌%◌, ◌^◌, ◌≤◌, ◌<◌, ◌≡◌, refl, sym, ap, ◌∙◌, List, [], ◌∷◌, ◌++◌, length, take,
  drop, get_or, arith, zero, suc,
}
use cicy_agent_adr.Prelude.Memory.{
  Buffer, offset, slice, get_or-slice, take-slice, drop-slice, slice_cong,
}
use cicy_agent_adr.Binary.{u8, be16, be32, be64, read16be, read32be, read64be}

-- The buffer starts with the first `len` bytes of `xs`.
pub record Holds (buf : Buffer) (len : ℕ) (xs : List ℕ) : Type 0 where
  pub fits : len ≤ length xs
  pub bytes : slice buf 0 len ≡ take len xs

get_or-take : (len : ℕ) (xs : List ℕ) (j : ℕ) → j < len → get_or (take len xs) j 0 ≡ get_or xs j 0
get_or-take zero xs j h = absurd (omega arith)
get_or-take (suc len) [] j h = refl
get_or-take (suc len) (x ∷ xs) zero h = refl
get_or-take (suc len) (x ∷ xs) (suc j) h = get_or-take len xs j (omega arith)

-- A byte of the buffer.
pub byte_at :
    (buf : Buffer) (len : ℕ) (xs : List ℕ) (j : ℕ)
    → Holds buf len xs
    → j < len
    → buf j ≡ get_or xs j 0
byte_at buf len xs j e h =
    ap buf (omega arith)
    ∙ sym (get_or-slice buf 0 len j 0 h)
    ∙ ap (λ t. get_or t j 0) e.bytes
    ∙ get_or-take len xs j h

take-drop-take :
    (i k len : ℕ) (xs : List ℕ) → i + k ≤ len → take k (drop i (take len xs)) ≡ take k (drop i xs)
take-drop-take zero zero len xs h = refl
take-drop-take zero (suc k) zero xs h = absurd (omega arith)
take-drop-take zero (suc k) (suc len) [] h = refl
take-drop-take zero (suc k) (suc len) (x ∷ xs) h =
    ap (λ t. x ∷ t) (take-drop-take zero k len xs (omega arith))
take-drop-take (suc i) k zero xs h = absurd (omega arith)
take-drop-take (suc i) k (suc len) [] h = refl
take-drop-take (suc i) k (suc len) (x ∷ xs) h = take-drop-take i k len xs (omega arith)

-- Some bytes of the buffer.
pub bytes_at :
    (buf : Buffer) (len : ℕ) (xs : List ℕ) (i k : ℕ)
    → Holds buf len xs
    → i + k ≤ len
    → slice buf i k ≡ take k (drop i xs)
bytes_at buf len xs i k e h =
    sym (take-slice buf i (len - i) k (omega arith))
    ∙ ap (take k) (
        slice_cong buf i (0 + i) (len - i) (len - i) (omega arith) refl
        ∙ sym (drop-slice buf 0 len i (omega arith))
        ∙ ap (drop i) e.bytes)
    ∙ take-drop-take i k len xs h

pub take-length-append : (xs ys : List ℕ) → take (length xs) (xs ++ ys) ≡ xs
take-length-append [] ys = refl
take-length-append (x ∷ xs) ys = ap (λ t. x ∷ t) (take-length-append xs ys)

pub read32be_bytes :
    (b : Buffer) (v : ℕ)
    → v < 2 ^ 32
    → b 0 ≡ u8 (v / 2 ^ 24)
    → b 1 ≡ u8 (v / 2 ^ 16)
    → b 2 ≡ u8 (v / 2 ^ 8)
    → b 3 ≡ u8 v
    → read32be b ≡ v
unfolding read32be
read32be_bytes b v h p q r s = omega arith

module _ (buf : Buffer) (len type : ℕ) (rest : List ℕ) where
  -- Four bytes behind the type byte.
  pub length_field :
      (v : ℕ)
      → v < 2 ^ 32
      → 5 ≤ len
      → Holds buf len (type ∷ (be32 v ++ rest))
      → read32be (offset buf 1) ≡ v
  length_field v h l e =
      let at : (j : ℕ) → j < len → buf j ≡ get_or (type ∷ (be32 v ++ rest)) j 0 =
        λ j p. byte_at buf len (type ∷ (be32 v ++ rest)) j e p in
      read32be_bytes (offset buf 1) v h (at 1 (omega arith)) (at 2 (omega arith))
        (at 3 (omega arith)) (at 4 (omega arith))

  -- Eight bytes behind it.
  pub sequence_field :
      (v : ℕ)
      → v < 2 ^ 64
      → 9 ≤ len
      → Holds buf len (type ∷ (be64 v ++ rest))
      → read64be (offset buf 1) ≡ v
  unfolding read64be
  sequence_field v h l e =
      let at : (j : ℕ) → j < len → buf j ≡ get_or (type ∷ (be64 v ++ rest)) j 0 =
        λ j p. byte_at buf len (type ∷ (be64 v ++ rest)) j e p in
      let hi : read32be (offset buf 1) ≡ v / 2 ^ 32 =
        read32be_bytes (offset buf 1) (v / 2 ^ 32) (omega arith) (omega (arith, at 1 (omega arith)))
          (omega (arith, at 2 (omega arith))) (omega (arith, at 3 (omega arith)))
          (omega (arith, at 4 (omega arith))) in
      let lo : read32be (offset buf 5) ≡ v % 2 ^ 32 =
        read32be_bytes (offset buf 5) (v % 2 ^ 32) (omega arith) (omega (arith, at 5 (omega arith)))
          (omega (arith, at 6 (omega arith))) (omega (arith, at 7 (omega arith)))
          (omega (arith, at 8 (omega arith))) in
      omega (arith, hi, lo)

  -- Two fields of two bytes.
  pub word_fields :
      (v w : ℕ)
      → v < 2 ^ 16
      → w < 2 ^ 16
      → 5 ≤ len
      → Holds buf len (type ∷ (be16 v ++ (be16 w ++ rest)))
      → (read16be (offset buf 1) ≡ v) × (read16be (offset buf 3) ≡ w)
  unfolding read16be
  word_fields v w hv hw l e =
      let at : (j : ℕ) → j < len → buf j ≡ get_or (type ∷ (be16 v ++ (be16 w ++ rest))) j 0 =
        λ j p. byte_at buf len (type ∷ (be16 v ++ (be16 w ++ rest))) j e p in
      omega (arith, at 1 (omega arith), at 2 (omega arith), at 3 (omega arith), at 4 (omega arith))
