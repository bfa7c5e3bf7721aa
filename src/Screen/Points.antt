-- ===== src/Screen/Points.antt =====
-- Where a click on the content falls in the frame.
use cicy_agent_adr.Prelude.{
  ℕ, ◌+◌, ◌-◌, ◌*◌, ◌/◌, ◌≤◌, ◌<◌, ◌≡◌, refl, sym, ap, ap₂, subst, ◌∙◌, arith,
}
use native.Mathlib.Nat.{div-lt_iff_lt-mul, mul_comm, mul-lt-mul_of_pos_left}
use cicy_agent_adr.Prelude.Int.{ℤ, pos, sub_ℕ, ◌-ℤ◌, ◌*ℤ◌}
use cicy_agent_adr.Orientation.{
  Orientation, rotate_0, rotate_90, rotate_180, rotate_270, flip_0, flip_90, flip_180, flip_270,
}
use cicy_agent_adr.Screen.Geometry.{
  Size, Point, Rect, quot, get_oriented_size, orient_point, scale_point,
  convert_drawable_to_frame_coords,
}

difference_lem : (l a : ℕ) → pos (l + a) -ℤ pos l ≡ pos a
unfolding ◌-ℤ◌
difference_lem l a = ground arith

times_lem : (a w : ℕ) → pos a *ℤ pos w ≡ pos (a * w)
unfolding ◌*ℤ◌
times_lem a w =
    let whole : (n : ℕ) → sub_ℕ n 0 ≡ pos n = λ n. ground arith in
    ap₂ sub_ℕ (omega arith) (omega arith) ∙ whole (a * w)

scaled_lem : (l a w n : ℕ) → quot ((pos (l + a) -ℤ pos l) *ℤ pos w) n ≡ pos (a * w / n)
scaled_lem l a w n =
    ap (λ z. quot (z *ℤ pos w) n) (difference_lem l a) ∙ ap (λ z. quot z n) (times_lem a w)

scaled_bound : (a w n : ℕ) → a < n → 0 < w → a * w / n < w
scaled_bound a w n h p =
    (div-lt_iff_lt-mul {k = n} {x = a * w} {y = w} (omega (arith, h))).1
      (omega (arith, mul_comm a w, mul-lt-mul_of_pos_left {m = a} {n = n} {k = w} h p))

abbrev at : ℤ → ℤ → Point
at x y = record { x = x; y = y }

minus_lem : (w x : ℕ) → x ≤ w → pos w -ℤ pos x ≡ pos (w - x)
unfolding ◌-ℤ◌
minus_lem w x h = ground (arith, h)

-- A point of a frame, its right and lower borders included.
pub record IsOnFrame (frame : Size) (p : Point) : Type 0 where
  pub x_number : ℕ
  pub y_number : ℕ
  pub point : p ≡ record { x = pos x_number; y = pos y_number }
  pub x_inside : x_number ≤ frame.width
  pub y_inside : y_number ≤ frame.height

-- A point of the content, turned to the frame.
orient_point-IsOnFrame :
    (o : Orientation) (size : Size) (x y : ℕ)
    → x ≤ size.width
    → y ≤ size.height
    → IsOnFrame (get_oriented_size size o) (orient_point o size (record { x = pos x; y = pos y }))
unfolding orient_point get_oriented_size
orient_point-IsOnFrame rotate_0 size x y h k = record {
  x_number = x;
  y_number = y;
  point = refl;
  x_inside = h;
  y_inside = k;
}
orient_point-IsOnFrame rotate_90 size x y h k = record {
  x_number = y;
  y_number = size.width - x;
  point = ap (at (pos y)) (minus_lem size.width x h);
  x_inside = k;
  y_inside = omega arith;
}
orient_point-IsOnFrame rotate_180 size x y h k = record {
  x_number = size.width - x;
  y_number = size.height - y;
  point = ap₂ at (minus_lem size.width x h) (minus_lem size.height y k);
  x_inside = omega arith;
  y_inside = omega arith;
}
orient_point-IsOnFrame rotate_270 size x y h k = record {
  x_number = size.height - y;
  y_number = x;
  point = ap (λ z. at z (pos x)) (minus_lem size.height y k);
  x_inside = omega arith;
  y_inside = h;
}
orient_point-IsOnFrame flip_0 size x y h k = record {
  x_number = size.width - x;
  y_number = y;
  point = ap (λ z. at z (pos y)) (minus_lem size.width x h);
  x_inside = omega arith;
  y_inside = k;
}
orient_point-IsOnFrame flip_90 size x y h k = record {
  x_number = size.height - y;
  y_number = size.width - x;
  point = ap₂ at (minus_lem size.height y k) (minus_lem size.width x h);
  x_inside = omega arith;
  y_inside = omega arith;
}
orient_point-IsOnFrame flip_180 size x y h k = record {
  x_number = x;
  y_number = size.height - y;
  point = ap (at (pos x)) (minus_lem size.height y k);
  x_inside = h;
  y_inside = omega arith;
}
orient_point-IsOnFrame flip_270 size x y h k = record {
  x_number = y;
  y_number = x;
  point = refl;
  x_inside = k;
  y_inside = h;
}

-- A pixel of the content's rectangle, `a` to the right of its corner and `b` below it, becomes a
-- point of the frame, which is the content turned, for every orientation; the right and the lower
-- border of the frame, one past its last pixels, are not excluded.
pub convert-IsOnFrame :
    (o : Orientation) (content : Size) (rect : Rect) (a b : ℕ)
    → 0 < content.width
    → 0 < content.height
    → a < rect.across
    → b < rect.down
    → IsOnFrame (get_oriented_size content o) (
        convert_drawable_to_frame_coords o content rect
          (record { x = pos (rect.left + a); y = pos (rect.top + b) }))
unfolding convert_drawable_to_frame_coords scale_point
convert-IsOnFrame o content rect a b cw ch h k =
    subst (λ p. IsOnFrame (get_oriented_size content o) (orient_point o content p))
      (sym (
        ap₂ at (scaled_lem rect.left a content.width rect.across)
          (scaled_lem rect.top b content.height rect.down)))
      (orient_point-IsOnFrame o content (a * content.width / rect.across)
        (b * content.height / rect.down)
        (omega (arith, scaled_bound a content.width rect.across h cw))
        (omega (arith, scaled_bound b content.height rect.down k ch)))
