-- ===== src/Binary/RoundTrip.antt =====
-- Reading back what util/binary.h wrote.
use cicy_agent_adr.Prelude.{ℕ, ◌+◌, ◌/◌, ◌%◌, ◌^◌, ◌<◌, ◌≡◌, arith}
use cicy_agent_adr.Prelude.Memory.{Buffer, offset}
use cicy_agent_adr.Binary.{write16be, write32be, write64be}
use cicy_agent_adr.Binary.{read16be, read32be, read64be}

low_half :
    (buf : Buffer) (i b : ℕ)
    → b < 2 ^ 32
    → read32be (offset (offset (write32be buf (i + 4) b) i) 4) ≡ b
unfolding write32be read32be
low_half buf i b h = ground arith

write32be_apart : (buf : Buffer) (i k b : ℕ) → k < 4 → write32be buf (i + 4) b (i + k) ≡ buf (i + k)
unfolding write32be
write32be_apart buf i k b h = ground arith

high_apart :
    (buf : Buffer) (i b : ℕ)
    → read32be (offset (write32be buf (i + 4) b) i) ≡ read32be (offset buf i)
unfolding read32be
high_apart buf i b = omega (
  arith,
  write32be_apart buf i 0 b (omega arith),
  write32be_apart buf i 1 b (omega arith),
  write32be_apart buf i 2 b (omega arith),
  write32be_apart buf i 3 b (omega arith),
)

read32be-write32be :
    (buf : Buffer) (i a : ℕ) → a < 2 ^ 32 → read32be (offset (write32be buf i a) i) ≡ a
unfolding write32be read32be
read32be-write32be buf i a h = ground arith

read64be-write64be :
    (buf : Buffer) (i x : ℕ) → x < 2 ^ 64 → read64be (offset (write64be buf i x) i) ≡ x
unfolding write64be read64be
read64be-write64be buf i x h = omega (
  arith,
  high_apart (write32be buf i (x / 2 ^ 32 % 2 ^ 32)) i (x % 2 ^ 32),
  read32be-write32be buf i (x / 2 ^ 32 % 2 ^ 32) (omega arith),
  low_half (write32be buf i (x / 2 ^ 32 % 2 ^ 32)) i (x % 2 ^ 32) (omega arith),
)

-- Each of the three big-endian readers returns, at the offset of the write, the value that the
-- writer of its width stored, for every value of that width.
pub read-write_be :
    (buf : Buffer) (i v w x : ℕ)
    → v < 2 ^ 16
    → w < 2 ^ 32
    → x < 2 ^ 64
    → (read16be (offset (write16be buf i v) i) ≡ v)
      × (read32be (offset (write32be buf i w) i) ≡ w)
      × (read64be (offset (write64be buf i x) i) ≡ x)
unfolding write16be read16be
read-write_be buf i v w x hv hw hx =
    (ground arith, read32be-write32be buf i w hw, read64be-write64be buf i x hx)
