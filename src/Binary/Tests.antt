-- ===== src/Binary/Tests.antt =====
-- Concrete values for util/binary.h.
use cicy_agent_adr.Prelude.{◌≡◌, refl, arith, true, false, none, some, ◌∷◌, []}
use cicy_agent_adr.Prelude.Memory.{Buffer, offset, slice}
use cicy_agent_adr.Binary.{write16be, write32be, write64be, write64le, read16be, read32be, read64be}
use cicy_agent_adr.Binary.RoundTrip.{read-write_be}
use cicy_agent_adr.Binary.Fixed.{Float, float_to_u16fp, float_to_i16fp, IsU16, IsI16, fixed_lem}

abbrev zeros : Buffer
zeros _ = 0

write32be_bytes : slice (write32be zeros 1 0x12345678) 1 4 ≡ 0x12 ∷ 0x34 ∷ 0x56 ∷ 0x78 ∷ []
unfolding write32be slice
write32be_bytes = refl

write64le_bytes :
    slice (write64le zeros 0 0x1122334455667788) 0 8
    ≡ 0x88 ∷ 0x77 ∷ 0x66 ∷ 0x55 ∷ 0x44 ∷ 0x33 ∷ 0x22 ∷ 0x11 ∷ []
unfolding write64le slice
write64le_bytes = refl

read-write_be_example :
    (read16be (offset (write16be zeros 3 0x1234) 3) ≡ 0x1234)
    × (read32be (offset (write32be zeros 3 0xdeadbeef) 3) ≡ 0xdeadbeef)
    × (read64be (offset (write64be zeros 3 0x1122334455667788) 3) ≡ 0x1122334455667788)
read-write_be_example =
    read-write_be zeros 3 0x1234 0xdeadbeef 0x1122334455667788 (omega arith) (omega arith)
      (omega arith)

abbrev three_quarters : Float
three_quarters = record { negative = true; mantissa = 3; scale = 2 }

i16_example : float_to_i16fp three_quarters ≡ some 0xa000
unfolding float_to_i16fp
i16_example = refl

abbrev one_half : Float
one_half = record { negative = false; mantissa = 1; scale = 1 }

-- 65535.5 / 65536, a float of 17 bits below 1
abbrev almost_1 : Float
almost_1 = record { negative = false; mantissa = 131071; scale = 17 }

almost_1_fails : float_to_u16fp almost_1 ≡ none
unfolding float_to_u16fp
almost_1_fails = refl

fixed_lem_example :
    IsU16 one_half (float_to_u16fp one_half) × IsI16 three_quarters (float_to_i16fp three_quarters)
fixed_lem_example = fixed_lem one_half three_quarters (refl, omega arith) (omega arith)
