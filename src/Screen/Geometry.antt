-- ===== src/Screen/Geometry.antt =====
-- The sizes and coordinates of the window, scrcpy/app/src/screen.c.
-- `none` is an overflow of `int` in the product of two sizes, or a division by zero.
use cicy_agent_adr.Prelude.{
  ℕ, suc, ◌-◌, ◌*◌, ◌/◌, ◌%◌, ◌^◌, ◌<◌, Bool, true, ◌&&◌, ◌||◌, Option, none, some, ltb, ◌==◌,
  if◌then◌else◌, min,
}
use cicy_agent_adr.Prelude.Int.{ℤ, pos, negsuc, ◌-ℤ◌, ◌*ℤ◌}
use cicy_agent_adr.Orientation.{
  Orientation, rotate_0, rotate_90, rotate_180, rotate_270, flip_0, flip_90, flip_180, flip_270,
  is_swap,
}

-- `struct sc_size`
pub record Size : Type 0 where
  pub width : ℕ
  pub height : ℕ

-- `struct sc_point`
pub record Point : Type 0 where
  pub x : ℤ
  pub y : ℤ

-- `SDL_Rect`, for `screen->rect`
pub record Rect : Type 0 where
  pub left : ℕ
  pub top : ℕ
  pub across : ℕ
  pub down : ℕ

-- A store to a `uint16_t`.
abbrev pub u16 : ℕ → ℕ
u16 n = n % 2 ^ 16

unfoldable pub get_oriented_size : Size → Orientation → Size
unfolding is_swap
get_oriented_size size orientation =
    if is_swap orientation
    then record { width = size.height; height = size.width }
    else record { width = size.width; height = size.height }

-- DISPLAY_MARGINS
abbrev pub display_margins : ℕ
display_margins = 96

-- From what `SDL_GetDisplayUsableBounds` gives; subtraction stops at 0, as `MAX(0, ...)`.
unfoldable pub get_preferred_display_bounds : Option Size → Option Size
get_preferred_display_bounds none = none
get_preferred_display_bounds (some rect) = some (record {
  width = u16 (rect.width - display_margins);
  height = u16 (rect.height - display_margins);
})

-- `is_optimal_size`, where its products and quotients exist
unfoldable pub is_optimal_size : Size → Size → Bool
is_optimal_size current_size content_size =
    current_size.height == current_size.width * content_size.height / content_size.width
    || current_size.width == current_size.height * content_size.width / content_size.height

-- A content that is not empty, and small enough for its products with a `uint16_t` to be an `int`.
abbrev pub IsProper : Size → Type 0
IsProper size =
    (0 < size.width) × (0 < size.height) × (size.width < 2 ^ 15) × (size.height < 2 ^ 15)

-- Whether they exist: a product of two `uint16_t` is an `int`, and a quotient needs a divisor. The
-- second of each is computed only if the first comparison fails. The other functions compute the
-- same products behind it.
unfoldable pub is_computable : Size → Size → Bool
is_computable current_size content_size =
    (ltb 0 content_size.width && ltb (current_size.width * content_size.height) (2 ^ 31))
    && (current_size.height == current_size.width * content_size.height / content_size.width
        || (ltb 0 content_size.height && ltb (current_size.height * content_size.width) (2 ^ 31)))

-- What is computed behind `is_optimal_size`.
abbrev pub computed : {A : Type 0} → Size → Size → A → Option A
computed current_size content_size a =
    if is_computable current_size content_size then some a else none

-- SDL gives sizes as `int`; they are stored in a `struct sc_size`.
abbrev pub to_size : Size → Size
to_size size = record { width = u16 size.width; height = u16 size.height }

-- The current size, within the bounds of the display if they constrain it.
unfoldable pub limited : Size → Option Size → Size
limited current_size none = current_size
limited current_size (some display_size) = record {
  width = min current_size.width display_size.width;
  height = min current_size.height display_size.height;
}

-- The end of `get_optimal_size`, from `window_size`.
unfoldable pub shrunk : Size → Size → Size
unfolding is_optimal_size
shrunk window_size content_size =
    if is_optimal_size window_size content_size
    then window_size
    else if ltb (content_size.height * window_size.width) (content_size.width * window_size.height)
    then record window_size {
      height = u16 (content_size.height * window_size.width / content_size.width);
    }
    else record window_size {
      width = u16 (content_size.width * window_size.height / content_size.height);
    }

-- The last argument is `SDL_GetDisplayUsableBounds`.
unfoldable pub get_optimal_size : Size → Size → Bool → Option Size → Option Size
unfolding get_preferred_display_bounds limited is_computable shrunk
get_optimal_size current_size content_size within_display_bounds usable =
    let window_size =
      limited current_size
        (if within_display_bounds then get_preferred_display_bounds usable else none) in
    if content_size.width == 0 || content_size.height == 0
    then some current_size
    else computed window_size content_size (shrunk window_size content_size)

unfoldable pub get_initial_optimal_size : Size → ℕ → ℕ → Option Size → Option Size
unfolding get_optimal_size
get_initial_optimal_size content_size req_width req_height usable =
    if req_width == 0 && req_height == 0
    then get_optimal_size content_size content_size true usable
    else if (req_width == 0 && content_size.height == 0)
        || (req_height == 0 && content_size.width == 0)
    then none
    else some (record {
      width =
          if req_width == 0
          then u16 (req_height * content_size.width % 2 ^ 32 / content_size.height)
          else req_width;
      height =
          if req_height == 0
          then u16 (req_width * content_size.height % 2 ^ 32 / content_size.width)
          else req_height;
    })

-- `sc_screen_update_content_rect`, from the size of the drawable
unfoldable pub content_rect : Size → Size → Option Rect
unfolding is_optimal_size is_computable
content_rect drawable_size content_size =
    let rect_h = drawable_size.width * content_size.height / content_size.width in
    let rect_w = drawable_size.height * content_size.width / content_size.height in
    let whole : Rect = record {
      left = 0;
      top = 0;
      across = drawable_size.width;
      down = drawable_size.height;
    } in
    let wide : Rect = record {
      left = 0;
      top = (drawable_size.height - rect_h) / 2;
      across = drawable_size.width;
      down = rect_h;
    } in
    let high : Rect = record {
      left = (drawable_size.width - rect_w) / 2;
      top = 0;
      across = rect_w;
      down = drawable_size.height;
    } in
    computed drawable_size content_size (
      if is_optimal_size drawable_size content_size
      then whole
      else if ltb (content_size.height * drawable_size.width)
          (content_size.width * drawable_size.height)
      then wide
      else high)

-- Division of C, which rounds towards 0.
abbrev pub quot : ℤ → ℕ → ℤ
quot (pos n) d = pos (n / d)
quot (negsuc n) d = pos 0 -ℤ pos (suc n / d)

-- The `switch` of `sc_screen_convert_drawable_to_frame_coords`, on a content of a width and a height
unfoldable pub orient_point : Orientation → Size → Point → Point
orient_point rotate_0 size p = p
orient_point rotate_90 size p = record { x = p.y; y = pos size.width -ℤ p.x }
orient_point rotate_180 size p = record { x = pos size.width -ℤ p.x; y = pos size.height -ℤ p.y }
orient_point rotate_270 size p = record { x = pos size.height -ℤ p.y; y = p.x }
orient_point flip_0 size p = record { x = pos size.width -ℤ p.x; y = p.y }
orient_point flip_90 size p = record { x = pos size.height -ℤ p.y; y = pos size.width -ℤ p.x }
orient_point flip_180 size p = record { x = p.x; y = pos size.height -ℤ p.y }
orient_point flip_270 size p = record { x = p.y; y = p.x }

-- From the drawable to the content. The results are those of the source where they are in the range
-- of `int32_t`.
unfoldable pub scale_point : Size → Rect → Point → Point
unfolding ◌-ℤ◌ ◌*ℤ◌
scale_point content_size rect p = record {
  x = quot ((p.x -ℤ pos rect.left) *ℤ pos content_size.width) rect.across;
  y = quot ((p.y -ℤ pos rect.top) *ℤ pos content_size.height) rect.down;
}

-- `sc_screen_convert_drawable_to_frame_coords`, behind its assertions
unfoldable pub convert_drawable_to_frame_coords : Orientation → Size → Rect → Point → Point
unfolding orient_point scale_point
convert_drawable_to_frame_coords orientation content_size rect p =
    orient_point orientation content_size (scale_point content_size rect p)

-- `sc_screen_hidpi_scale_coords`
unfoldable pub hidpi_scale_coords : Size → Size → Point → Point
unfolding ◌*ℤ◌
hidpi_scale_coords window_size drawable_size p = record {
  x = quot (p.x *ℤ pos drawable_size.width) window_size.width;
  y = quot (p.y *ℤ pos drawable_size.height) window_size.height;
}

-- `sc_screen_convert_window_to_frame_coords`
unfoldable pub convert_window_to_frame_coords :
    Size → Size → Orientation → Size → Rect → Point → Point
unfolding hidpi_scale_coords convert_drawable_to_frame_coords
convert_window_to_frame_coords window_size drawable_size orientation content_size rect p =
    convert_drawable_to_frame_coords orientation content_size rect
      (hidpi_scale_coords window_size drawable_size p)
