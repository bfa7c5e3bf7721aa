-- ===== src/Orientation.antt =====
-- Display orientations, scrcpy/app/src/options.h and options.c: a flip, then a rotation.
pub mod Action
use cicy_agent_adr.Prelude.{
  ℕ, ◌+◌, ◌%◌, Bool, not, ◌&&◌, bit_and, bit_or, bit_xor, [], ◌∷◌, get_or, ◌==◌, if◌then◌else◌,
}

-- `enum sc_orientation`
pub data Orientation : Type 0 where
  rotate_0 rotate_90 rotate_180 rotate_270 flip_0 flip_90 flip_180 flip_270 : Orientation

-- The value of an enumerator, and the conversion of a value below 8 to the enumeration.
abbrev pub number : Orientation → ℕ
number rotate_0 = 0
number rotate_90 = 1
number rotate_180 = 2
number rotate_270 = 3
number flip_0 = 4
number flip_90 = 5
number flip_180 = 6
number flip_270 = 7

abbrev pub of_number : ℕ → Orientation
of_number n =
    get_or
      (rotate_0 ∷ rotate_90 ∷ rotate_180 ∷ rotate_270 ∷ flip_0 ∷ flip_90 ∷ flip_180 ∷ flip_270 ∷ [])
      n rotate_0

-- `sc_orientation_is_mirror`
unfoldable pub is_mirror : Orientation → Bool
is_mirror orientation = not (bit_and (number orientation) 4 == 0)

-- `sc_orientation_is_swap`
unfoldable pub is_swap : Orientation → Bool
is_swap orientation = not (bit_and (number orientation) 1 == 0)

-- `sc_orientation_get_rotation`
unfoldable pub get_rotation : Orientation → Orientation
get_rotation orientation = of_number (bit_and (number orientation) 3)

-- `sc_orientation_apply`
unfoldable pub apply : Orientation → Orientation → Orientation
apply src transform =
    let transform_hflip = bit_and (number transform) 4 in
    let transform_rotation = bit_and (number transform) 3 in
    let src_hflip = bit_and (number src) 4 in
    let src_swap = bit_and (number src) 1 in
    let src_rotation =
      (if not (src_swap == 0) && not (transform_hflip == 0)
        then bit_and (number src) 3 + 2
        else bit_and (number src) 3) in
    let result_hflip = bit_xor src_hflip transform_hflip in
    let result_rotation = (transform_rotation + src_rotation) % 4 in
    of_number (bit_or result_hflip result_rotation)
