-- ===== src/Hid/Descriptor.antt =====
-- The USB HID reading of a report descriptor, as far as the size of an input report goes: short
-- items, of which Report Size and Report Count are kept and each Input adds their product.
use cicy_agent_adr.Prelude.{
  ℕ, zero, suc, ◌+◌, ◌*◌, ◌/◌, ◌%◌, List, [], ◌∷◌, take, drop, length, ◌==◌, if◌then◌else◌,
}

-- The bytes of data behind an item's prefix: 0, 1, 2 or 4.
abbrev item_size : ℕ → ℕ
item_size prefix = if prefix % 4 == 3 then 4 else prefix % 4

-- A little-endian number.
little_endian : List ℕ → ℕ
little_endian [] = 0
little_endian (b ∷ bs) = b + 256 * little_endian bs

-- The bits of the inputs of a descriptor, given the current Report Size and Report Count. Each
-- round reads at least the prefix, so a round for each byte is enough.
inputs_from : ℕ → List ℕ → ℕ → ℕ → ℕ
unfolding little_endian
inputs_from zero desc size count = 0
inputs_from (suc rounds) [] size count = 0
inputs_from (suc rounds) (prefix ∷ rest) size count =
    let value = little_endian (take (item_size prefix) rest) in
    let tag = prefix / 4 in
    let after =
      inputs_from rounds (drop (item_size prefix) rest) (if tag == 0x1d then value else size)
        (if tag == 0x25 then value else count) in
    if tag == 0x20 then size * count + after else after

unfoldable pub input_bits : List ℕ → ℕ
unfolding inputs_from
input_bits desc = inputs_from (length desc) desc 0 0

-- The whole bytes that an input report takes.
unfoldable pub input_bytes : List ℕ → ℕ
unfolding input_bits
input_bytes desc = (input_bits desc + 7) / 8
