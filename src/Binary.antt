-- ===== src/Binary.antt =====
-- The byte-order helpers of scrcpy/app/src/util/binary.h.
-- A write stores one byte after the other at fixed offsets; a `uint8_t` store keeps `% 256`.
pub mod RoundTrip
pub mod Fixed
pub mod Copy
mod Tests
use cicy_agent_adr.Prelude.{ℕ, ◌+◌, ◌*◌, ◌/◌, ◌%◌, ◌^◌, List, [], ◌∷◌}
use cicy_agent_adr.Prelude.Memory.{Buffer, store, offset}

-- `(uint8_t) v`
abbrev pub u8 : ℕ → ℕ
u8 v = v % 256

unfoldable pub write16be : Buffer → ℕ → ℕ → Buffer
write16be buf i value = store (store buf i (u8 (value / 2 ^ 8))) (i + 1) (u8 value)

unfoldable pub write16le : Buffer → ℕ → ℕ → Buffer
write16le buf i value = store (store buf i (u8 value)) (i + 1) (u8 (value / 2 ^ 8))

unfoldable pub write32be : Buffer → ℕ → ℕ → Buffer
write32be buf i value =
    store
      (store (store (store buf i (u8 (value / 2 ^ 24))) (i + 1) (u8 (value / 2 ^ 16))) (i + 2)
        (u8 (value / 2 ^ 8)))
      (i + 3) (u8 value)

unfoldable pub write32le : Buffer → ℕ → ℕ → Buffer
write32le buf i value =
    store
      (store (store (store buf i (u8 value)) (i + 1) (u8 (value / 2 ^ 8))) (i + 2)
        (u8 (value / 2 ^ 16)))
      (i + 3) (u8 (value / 2 ^ 24))

-- The calls convert their argument to `uint32_t`.
unfoldable pub write64be : Buffer → ℕ → ℕ → Buffer
unfolding write32be
write64be buf i value =
    write32be (write32be buf i (value / 2 ^ 32 % 2 ^ 32)) (i + 4) (value % 2 ^ 32)

unfoldable pub write64le : Buffer → ℕ → ℕ → Buffer
unfolding write32le
write64le buf i value =
    write32le (write32le buf i (value % 2 ^ 32)) (i + 4) (value / 2 ^ 32 % 2 ^ 32)

-- The operands of `|` have no bit in common, since each stored item is a byte: `+` is their `|`.
unfoldable pub read16be : Buffer → ℕ
read16be buf = buf 0 * 2 ^ 8 + buf 1

unfoldable pub read32be : Buffer → ℕ
read32be buf = buf 0 * 2 ^ 24 + buf 1 * 2 ^ 16 + buf 2 * 2 ^ 8 + buf 3

unfoldable pub read64be : Buffer → ℕ
unfolding read32be
read64be buf = read32be buf * 2 ^ 32 + read32be (offset buf 4)

-- The big-endian bytes of a number, the description that the wire formats use.
abbrev pub be16 : ℕ → List ℕ
be16 v = u8 (v / 2 ^ 8) ∷ u8 v ∷ []

abbrev pub be32 : ℕ → List ℕ
be32 v = u8 (v / 2 ^ 24) ∷ u8 (v / 2 ^ 16) ∷ u8 (v / 2 ^ 8) ∷ u8 v ∷ []

abbrev pub be64 : ℕ → List ℕ
be64 v = u8 (v / 2 ^ 56) ∷ u8 (v / 2 ^ 48) ∷ u8 (v / 2 ^ 40) ∷ u8 (v / 2 ^ 32) ∷ be32 v
