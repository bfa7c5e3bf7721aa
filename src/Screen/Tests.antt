-- ===== src/Screen/Tests.antt =====
-- A phone of 1080 by 2400 pixels in a window.
use cicy_agent_adr.Prelude.{
  ◌+◌, ◌≡◌, refl, Bool, true, false, Option, none, some, List, [], ◌∷◌, arith, ◌>>=◌,
}
use cicy_agent_adr.Prelude.Int.{pos, negsuc}
use cicy_agent_adr.Orientation.{rotate_0, rotate_90, rotate_270, flip_0, flip_90, apply}
use cicy_agent_adr.Orientation.Action.{apply_lem}
use cicy_agent_adr.FrameBuffer.{Frame}
use cicy_agent_adr.Screen.Geometry.{
  Size, Point, Rect, get_oriented_size, orient_point, get_optimal_size, get_initial_optimal_size,
  content_rect, convert_drawable_to_frame_coords,
}
use cicy_agent_adr.Screen.Window.{Env, Request, Screen, display_ok}
use cicy_agent_adr.Screen.{
  Action, push_frame, handle_new_frame, handle_window, maximized, turn, fullscreen, fit,
  pixel_perfect, pause, run, opened,
}
use cicy_agent_adr.Screen.Fit.{IsInside, content_rect-IsInside}
use cicy_agent_adr.Screen.Points.{IsOnFrame, convert-IsOnFrame}
use cicy_agent_adr.Screen.Geometry.{IsProper}
use cicy_agent_adr.Screen.Invariant.{Holds, Inv}
use cicy_agent_adr.Screen.Runs.{screen_run_lem}

abbrev phone : Size
phone = record { width = 1080; height = 2400 }

abbrev desk : Size
desk = record { width = 1920; height = 1080 }

-- The window takes the height that the display leaves.
fit_desk :
    get_optimal_size phone phone true (some desk) ≡ some (record { width = 442; height = 984 })
unfolding get_optimal_size
fit_desk = refl

-- A window and a content of sizes below 2 ^ 16 whose product does not fit an int.
large_overflows :
    get_optimal_size
      (record { width = 48000; height = 20000 })
      (record { width = 20000; height = 45000 })
      false
      none
    ≡ none
unfolding get_optimal_size
large_overflows = refl

phone_rect :
    content_rect desk phone ≡ some (record { left = 717; top = 0; across = 486; down = 1080 })
unfolding content_rect
phone_rect = refl

content_rect-IsInside_example :
    (rect : Rect) × (content_rect desk phone ≡ some rect) × IsInside desk phone rect
content_rect-IsInside_example =
    content_rect-IsInside desk phone (omega arith, omega arith, omega arith, omega arith)
      (omega arith) (omega arith)

flip_after_turn : apply rotate_90 flip_90 ≡ flip_0
unfolding apply
flip_after_turn = refl

abbrev corner : Point
corner = record { x = pos 3; y = negsuc 4 }

apply_lem_example :
    (get_oriented_size (get_oriented_size phone rotate_90) flip_90
      ≡ get_oriented_size phone (apply rotate_90 flip_90))
    × (orient_point rotate_90 (get_oriented_size phone rotate_90) (
          orient_point flip_90
            (get_oriented_size (get_oriented_size phone rotate_90) flip_90)
            corner)
        ≡ orient_point
            (apply rotate_90 flip_90)
            (get_oriented_size phone (apply rotate_90 flip_90))
            corner)
apply_lem_example = apply_lem rotate_90 flip_90 phone corner

-- The leftmost pixels of a screen turned by 90 degrees fall below the last line of the frame.
abbrev turned : Rect
turned = record { left = 0; top = 0; across = 240; down = 108 }

below_the_frame :
    convert_drawable_to_frame_coords rotate_90
      (record { width = 2400; height = 1080 })
      turned
      (record { x = pos 0; y = pos 5 })
    ≡ record { x = pos 50; y = pos 2400 }
unfolding convert_drawable_to_frame_coords
below_the_frame = refl

convert-IsOnFrame_example :
    IsOnFrame (get_oriented_size (record { width = 2400; height = 1080 }) rotate_90) (
      convert_drawable_to_frame_coords rotate_90
        (record { width = 2400; height = 1080 })
        turned
        (record { x = pos (0 + 0); y = pos (0 + 5) }))
convert-IsOnFrame_example =
    convert-IsOnFrame rotate_90 (record { width = 2400; height = 1080 }) turned 0 5 (omega arith)
      (omega arith) (omega arith) (omega arith)

abbrev world : Env
world = record {
  window_size = λ calls. record { width = 442; height = 984 };
  window_position = λ calls. (100, 50);
  drawable_size = λ calls. record { width = 442; height = 984 };
  usable_bounds = λ calls. some desk;
  fullscreen_fails = λ calls. false;
  texture_size_result = λ calls. display_ok;
  texture_result = λ calls. display_ok;
  alloc_frame = λ calls. true;
  ref_frame = λ calls. true;
  push_event = λ calls. true;
  relative_mode = false;
}

abbrev request : Request
request = record { req_x = 10; req_y = 20; req_width = 0; req_height = 0; req_fullscreen = true }

abbrev portrait : Frame
portrait = record { size = phone; picture = 1 }

abbrev landscape : Frame
landscape = record { size = record { width = 2400; height = 1080 }; picture = 2 }

-- The device turns while the window is fullscreen, and the window turns when it leaves that mode.
abbrev actions : List Action
actions =
    push_frame portrait
    ∷ handle_new_frame
    ∷ push_frame landscape
    ∷ push_frame landscape
    ∷ handle_new_frame
    ∷ fullscreen
    ∷ turn rotate_270
    ∷ pause true
    ∷ fit
    ∷ []

phone-IsProper : IsProper phone
phone-IsProper = (omega arith, omega arith, omega arith, omega arith)

landscape-IsProper : IsProper landscape.size
landscape-IsProper = (omega arith, omega arith, omega arith, omega arith)

screen_run_lem_example : Holds Inv (opened request rotate_0 phone >>= run world actions)
screen_run_lem_example = screen_run_lem world request rotate_0 phone actions phone-IsProper (
  phone-IsProper,
  (tt, (landscape-IsProper, (landscape-IsProper, (tt, (tt, (tt, (tt, (tt, tt)))))))),
)

-- A content size after a run, and whether a resize waits.
abbrev outcome : Option Screen → Option (Size × Bool)
outcome none = none
outcome (some s) = some (s.content_size, s.resize_pending)

run-outcome : outcome (opened request rotate_0 phone >>= run world actions) ≡ some (phone, false)
unfolding opened run get_oriented_size get_optimal_size get_initial_optimal_size content_rect
run-outcome = refl

-- The pixel-perfect size does not end a pending resize.
pending_size :
    outcome (
      opened (record request { req_fullscreen = false }) rotate_0 phone
      >>= run world (
          push_frame portrait
          ∷ handle_new_frame
          ∷ handle_window maximized
          ∷ turn rotate_90
          ∷ pixel_perfect
          ∷ []))
    ≡ some (record { width = 2400; height = 1080 }, true)
unfolding opened run get_oriented_size get_initial_optimal_size content_rect
pending_size = refl
