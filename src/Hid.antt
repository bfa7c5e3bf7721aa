-- ===== src/Hid.antt =====
-- HID events, scrcpy/app/src/hid: reports and the descriptors that announce them.
pub mod Descriptor
pub mod Keyboard
pub mod Mouse
pub mod Gamepad
mod Tests
use cicy_agent_adr.Prelude.{ℕ, Bool, not, List, bit_and, ◌==◌}
use cicy_agent_adr.Prelude.Memory.{Buffer}

-- `struct sc_hid_input`
pub record HidInput : Type 0 where
  pub hid_id : ℕ
  pub data_bytes : Buffer
  pub size : ℕ

-- `struct sc_hid_open`: the descriptor stands with its size, as a list.
pub record HidOpen : Type 0 where
  pub hid_id : ℕ
  pub report_desc : List ℕ

-- `struct sc_hid_close`
pub record HidClose : Type 0 where
  pub hid_id : ℕ

-- SC_HID_MAX_SIZE
abbrev pub hid_max_size : ℕ
hid_max_size = 15

-- `x & mask` as a condition.
abbrev pub has_bits : ℕ → ℕ → Bool
has_bits x mask = not (bit_and x mask == 0)
