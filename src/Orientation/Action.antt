-- ===== src/Orientation/Action.antt =====
-- `sc_orientation_apply` composes the orientations: it agrees with the way that the screen turns
-- sizes and points.
use cicy_agent_adr.Prelude.{arith, ℕ, ◌≡◌}
use cicy_agent_adr.Prelude.Int.{ℤ, pos, ◌-ℤ◌, int_laws}
use cicy_agent_adr.Orientation.{Orientation, apply}
use cicy_agent_adr.Screen.Geometry.{Size, Point, get_oriented_size, orient_point}

back : (w : ℕ) (x : ℤ) → pos w -ℤ (pos w -ℤ x) ≡ x
back w x = omega int_laws

sizes :
    (s t : Orientation) (size : Size)
    → get_oriented_size (get_oriented_size size s) t ≡ get_oriented_size size (apply s t)
unfolding get_oriented_size apply
sizes s t size = ground arith

points :
    (s t : Orientation) (size : Size) (p : Point)
    → orient_point s
        (get_oriented_size size s)
        (orient_point t (get_oriented_size (get_oriented_size size s) t) p)
      ≡ orient_point (apply s t) (get_oriented_size size (apply s t)) p
unfolding orient_point get_oriented_size apply
points s t size p =
    ground
      (arith, back size.width p.x, back size.height p.x, back size.width p.y, back size.height p.y)

-- To turn a frame by one orientation and the result by another is to turn it by what
-- `sc_orientation_apply` makes of the two: it gives the size of the content, and it takes each point
-- of the content, inside the window or not, to the same point of the frame.
pub apply_lem :
    (s t : Orientation) (size : Size) (p : Point)
    → (get_oriented_size (get_oriented_size size s) t ≡ get_oriented_size size (apply s t))
      × (orient_point s
            (get_oriented_size size s)
            (orient_point t (get_oriented_size (get_oriented_size size s) t) p)
          ≡ orient_point (apply s t) (get_oriented_size size (apply s t)) p)
apply_lem s t size p = (sizes s t size, points s t size p)
