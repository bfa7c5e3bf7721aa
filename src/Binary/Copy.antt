-- ===== src/Binary/Copy.antt =====
-- The writers of util/binary.h as copies of the bytes of the value.
use cicy_agent_adr.Prelude.{ℕ, ◌+◌, ◌/◌, ◌%◌, ◌^◌, ◌≡◌, arith, ◌∙◌, ap, ◌∷◌, [], refl, ◌++◌}
use cicy_agent_adr.Prelude.Memory.{Buffer, memcpy, store, memcpy-memcpy}
use cicy_agent_adr.Binary.{u8, be16, be32, be64, write16be, write32be, write64be}

memcpy_two :
    (buf : Buffer) (i k a b : ℕ) → k ≡ i + 1 → store (store buf i a) k b ≡ memcpy buf i (a ∷ b ∷ [])
unfolding memcpy
memcpy_two buf i k a b e = cc

pub write16be-memcpy : (buf : Buffer) (i v : ℕ) → write16be buf i v ≡ memcpy buf i (be16 v)
unfolding write16be memcpy
write16be-memcpy buf i v = refl

pub write32be-memcpy : (buf : Buffer) (i v : ℕ) → write32be buf i v ≡ memcpy buf i (be32 v)
unfolding write32be
write32be-memcpy buf i v =
    write16be-memcpy'
    ∙ memcpy-memcpy buf i (i + 2) (u8 (v / 2 ^ 24) ∷ u8 (v / 2 ^ 16) ∷ [])
        (u8 (v / 2 ^ 8) ∷ u8 v ∷ []) refl
  where
    write16be-memcpy' :
        store
          (store
            (store (store buf i (u8 (v / 2 ^ 24))) (i + 1) (u8 (v / 2 ^ 16)))
            (i + 2)
            (u8 (v / 2 ^ 8)))
          (i + 3)
          (u8 v)
        ≡ memcpy
            (memcpy buf i (u8 (v / 2 ^ 24) ∷ u8 (v / 2 ^ 16) ∷ []))
            (i + 2)
            (u8 (v / 2 ^ 8) ∷ u8 v ∷ [])
    write16be-memcpy' = cc (
      memcpy_two buf i (i + 1) (u8 (v / 2 ^ 24)) (u8 (v / 2 ^ 16)) refl,
      memcpy_two (store (store buf i (u8 (v / 2 ^ 24))) (i + 1) (u8 (v / 2 ^ 16))) (i + 2) (i + 3)
          (u8 (v / 2 ^ 8)) (u8 v) (omega arith),
    )

be32-be32 : (v : ℕ) → be32 (v / 2 ^ 32 % 2 ^ 32) ++ be32 (v % 2 ^ 32) ≡ be64 v
be32-be32 v = ground arith

pub write64be-memcpy : (buf : Buffer) (i v : ℕ) → write64be buf i v ≡ memcpy buf i (be64 v)
unfolding write64be
write64be-memcpy buf i v =
    let hi = v / 2 ^ 32 % 2 ^ 32 in
    let lo = v % 2 ^ 32 in
    write32be-memcpy (write32be buf i hi) (i + 4) lo
    ∙ ap (λ m. memcpy m (i + 4) (be32 lo)) (write32be-memcpy buf i hi)
    ∙ memcpy-memcpy buf i (i + 4) (be32 hi) (be32 lo) refl
    ∙ ap (memcpy buf i) (be32-be32 v)
