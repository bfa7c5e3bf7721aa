-- ===== src/ControlMsg/Tests.antt =====
-- Concrete control messages.
use cicy_agent_adr.Prelude.{
  ℕ, ◌≤◌, ◌≡◌, refl, some, none, true, arith, length, ◌∷◌, [], Option, Option,
}
use cicy_agent_adr.Prelude.Memory.{Buffer, memcpy}
use cicy_agent_adr.Str.{utf8_truncation_index}
use cicy_agent_adr.ControlMsg.{ControlMsg, set_clipboard, uhid_create, max_size}
use cicy_agent_adr.ControlMsg.Serialize.{serialize}
use cicy_agent_adr.ControlMsg.Wire.{wire}
use cicy_agent_adr.ControlMsg.Exact.{serialize-wire}
use cicy_agent_adr.ControlMsg.Size.{serialize_bounds}

abbrev blank : Buffer
blank _ = 7

-- A paste of "hé" with sequence number 5.
abbrev paste : ControlMsg
paste = set_clipboard 5 (some (104 ∷ 195 ∷ 169 ∷ [])) true

abbrev create : ControlMsg
create = uhid_create 1 0x18d1 2 (some (97 ∷ 98 ∷ [])) 3 (λ i. 5)

abbrev paste_bytes : Option (Buffer × ℕ) → Option (ℕ × ℕ)
paste_bytes none = none
paste_bytes (some (b, n)) = some (b 16, n)

paste_runs : paste_bytes (serialize paste blank) ≡ some (169, 17)
unfolding serialize utf8_truncation_index
paste_runs = refl

serialize-wire_example :
    serialize paste blank ≡ some (memcpy blank 0 (wire paste), length (wire paste))
serialize-wire_example = serialize-wire paste blank (omega arith)

serialize_bounds_example :
    (buf' : Buffer) × (n : ℕ) × (serialize create blank ≡ some (buf', n))
    × (1 ≤ n)
    × (n ≤ max_size)
    × ((j : ℕ) → n ≤ j → buf' j ≡ blank j)
serialize_bounds_example = serialize_bounds create blank (omega arith) (omega arith)
