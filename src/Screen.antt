-- ===== src/Screen.antt =====
-- The screen, scrcpy/app/src/screen.c, when it shows a video: its events and the shortcuts that turn
-- and resize it, in any order. `none` is a failed assertion, an overflow or a division by
-- zero.
pub mod Geometry
pub mod Window
pub mod Frames
pub mod Fit
pub mod Invariant
pub mod Modes
pub mod Shown
pub mod Buffered
pub mod Runs
pub mod Points
mod Tests
use cicy_agent_adr.Prelude.{
  ℕ, ◌-◌, Bool, true, false, not, Option, none, some, List, [], ◌∷◌, ◌==◌, if◌then◌else◌, ◌>>=◌,
}
use cicy_agent_adr.Orientation.{Orientation}
use cicy_agent_adr.FrameBuffer.{Frame, no_frame, frame_buffer_init}
use cicy_agent_adr.Screen.Geometry.{Size}
use cicy_agent_adr.Screen.Window.{
  Request, Env, Screen, render, apply_pending_resize, set_orientation, toggle_fullscreen,
  resize_to_fit, resize_to_pixel_perfect, init_size,
}
use cicy_agent_adr.Screen.Frames.{update_frame, set_paused, frame_sink_push}

-- The window events that `sc_screen_handle_event` looks at.
pub data WindowEvent : Type 0 where
  exposed size_changed maximized minimized restored : WindowEvent

-- The branch of SDL_WINDOWEVENT in `sc_screen_handle_event`, with a frame.
unfoldable pub window_event : Env → WindowEvent → Screen → Option Screen
unfolding render apply_pending_resize
window_event env exposed s = render env true s
window_event env size_changed s = render env true s
window_event env maximized s = some (record s { maximized = true })
window_event env minimized s = some (record s { minimized = true })
window_event env restored s = if s.fullscreen then some s else do
  s' ← apply_pending_resize env (record s { maximized = false; minimized = false })
  render env true s'

-- SC_EVENT_NEW_FRAME in `sc_screen_handle_event`, when the queue of events has one; the program
-- ends when a frame cannot be shown, and may go on here.
unfoldable pub new_frame : Env → Screen → Option Screen
unfolding update_frame
new_frame env s = if s.new_frame_events == 0 then some s else do
  updated ← update_frame env (record s { new_frame_events = s.new_frame_events - 1 })
  some updated.0

-- What happens to a screen.
pub data Action : Type 0 where
  push_frame : Frame → Action
  handle_new_frame : Action
  handle_window : WindowEvent → Action
  turn : Orientation → Action
  fullscreen fit pixel_perfect : Action
  pause : Bool → Action

-- Window events are ignored before the first frame, and no shortcut comes then: the window is
-- hidden.
unfoldable pub step : Env → Action → Screen → Option Screen
unfolding frame_sink_push new_frame window_event set_orientation toggle_fullscreen resize_to_fit
    resize_to_pixel_perfect set_paused
step env (push_frame frame) s = some (frame_sink_push env frame s).0
step env handle_new_frame s = new_frame env s
step env (handle_window event) s = if s.has_frame then window_event env event s else some s
step env (turn orientation) s = if s.has_frame then set_orientation env orientation s else some s
step env fullscreen s = if s.has_frame then toggle_fullscreen env s else some s
step env fit s = if s.has_frame then resize_to_fit env s else some s
step env pixel_perfect s = if s.has_frame then some (resize_to_pixel_perfect s) else some s
step env (pause paused) s = if s.has_frame then set_paused env paused s else some s

unfoldable pub run : Env → List Action → Screen → Option Screen
unfolding step
run env [] s = some s
run env (action ∷ actions) s = do s' ← step env action s; run env actions s'

-- `sc_screen_init`, then the event SC_EVENT_SCREEN_INIT_SIZE for the size of the video
unfoldable pub opened : Request → Orientation → Size → Option Screen
unfolding init_size
opened req orientation frame_size = init_size (record {
  req = req;
  fb = frame_buffer_init;
  frame_size = frame_size;
  content_size = record { width = 0; height = 0 };
  resize_pending = false;
  windowed_content_size = record { width = 0; height = 0 };
  orientation = orientation;
  rect = record { left = 0; top = 0; across = 0; down = 0 };
  has_frame = false;
  fullscreen = false;
  maximized = false;
  minimized = false;
  frame = no_frame;
  paused = false;
  resume_frame = none;
  calls = [];
  new_frame_events = 0;
})
