-- ===== src/Screen/Window.antt =====
-- The window of the screen, scrcpy/app/src/screen.c: its state, and how it is resized and turned.
-- `none` is a failed assertion, an overflow of `int` or a division by zero. What SDL and the display answer is chosen by
-- the environment, and may depend on the calls made so far.
use cicy_agent_adr.Prelude.{
  ℕ, ◌+◌, ◌-◌, ◌*◌, ◌/◌, ◌%◌, ◌^◌, Bool, true, false, not, ◌&&◌, ◌||◌, Option, none, some, List, [],
  ◌∷◌, ◌++◌, leb, ◌==◌, if◌then◌else◌, ◌>>=◌,
}
use cicy_agent_adr.Orientation.{Orientation, number}
use cicy_agent_adr.FrameBuffer.{Frame, FrameBuffer}
use cicy_agent_adr.Screen.Geometry.{
  Size, Rect, u16, to_size, get_oriented_size, get_optimal_size, content_rect,
}

-- `enum sc_display_result`
pub data DisplayResult : Type 0 where
  display_ok display_pending display_error : DisplayResult

-- The calls of SDL and of the display.
pub data Call : Type 0 where
  set_size : Size → Call
  set_position : (x y : ℕ) → Call
  set_fullscreen : Bool → Call
  restore_window : Call
  show_window : Call
  capture_mouse : Call
  display_render : Rect → Orientation → Call
  set_texture_size : Size → Call
  update_texture : Frame → Call
  new_frame_event : Call

abbrev pub Calls : Type 0
Calls = List Call

pub record Env : Type 0 where
  pub window_size : Calls → Size
  pub window_position : Calls → ℕ × ℕ
  pub drawable_size : Calls → Size
  pub usable_bounds : Calls → Option Size
  pub fullscreen_fails : Calls → Bool
  pub texture_size_result : Calls → DisplayResult
  pub texture_result : Calls → DisplayResult
  pub alloc_frame : Calls → Bool
  pub ref_frame : Calls → Bool
  pub push_event : Calls → Bool
  pub relative_mode : Bool

-- `screen->req`, the position already replaced by SDL_WINDOWPOS_CENTERED where it is undefined
pub record Request : Type 0 where
  pub req_x : ℕ
  pub req_y : ℕ
  pub req_width : ℕ
  pub req_height : ℕ
  pub req_fullscreen : Bool

-- `struct sc_screen`, with the calls made so far and the number of SC_EVENT_NEW_FRAME in the queue
-- of events
pub record Screen : Type 0 where
  pub req : Request
  pub fb : FrameBuffer
  pub frame_size : Size
  pub content_size : Size
  pub resize_pending : Bool
  pub windowed_content_size : Size
  pub orientation : Orientation
  pub rect : Rect
  pub has_frame : Bool
  pub fullscreen : Bool
  pub maximized : Bool
  pub minimized : Bool
  pub frame : Frame
  pub paused : Bool
  pub resume_frame : Option Frame
  pub calls : Calls
  pub new_frame_events : ℕ

abbrev pub call : Screen → Call → Screen
call s c = record s { calls = s.calls ++ c ∷ [] }

abbrev pub is_windowed : Screen → Bool
is_windowed s = not s.fullscreen && (not s.maximized && not s.minimized)

-- `set_window_size`
unfoldable pub set_window_size : Size → Screen → Option Screen
set_window_size new_size s = if is_windowed s then some (call s (set_size new_size)) else none

-- `sc_screen_update_content_rect`
unfoldable pub update_content_rect : Env → Screen → Option Screen
update_content_rect env s = do
  rect ← content_rect (to_size (env.drawable_size s.calls)) s.content_size
  some (record s { rect = rect })

-- `sc_screen_render`
unfoldable pub render : Env → Bool → Screen → Option Screen
unfolding update_content_rect
render env update s = do
  s' ← (if update then update_content_rect env s else some s)
  some (call s' (display_render s'.rect s'.orientation))

unfoldable pub resize_for_content : Env → Size → Size → Screen → Option Screen
unfolding set_window_size
resize_for_content env old_content_size new_content_size s =
    let window_size = to_size (env.window_size s.calls) in
    let target_size : Size = record {
      width = u16 (window_size.width * new_content_size.width % 2 ^ 32 / old_content_size.width);
      height =
          u16 (window_size.height * new_content_size.height % 2 ^ 32 / old_content_size.height);
    } in
    if old_content_size.width == 0 || old_content_size.height == 0 then none else do
      optimal_size ← get_optimal_size target_size new_content_size true (env.usable_bounds s.calls)
      set_window_size optimal_size s

unfoldable pub set_content_size : Env → Size → Screen → Option Screen
unfolding resize_for_content
set_content_size env new_content_size s = do
  s' ←
      (if is_windowed s
        then resize_for_content env s.content_size new_content_size s
        else if not s.resize_pending
        then some (record s { windowed_content_size = s.content_size; resize_pending = true })
        else some s)
  some (record s' { content_size = new_content_size })

unfoldable pub apply_pending_resize : Env → Screen → Option Screen
unfolding resize_for_content
apply_pending_resize env s =
    if not (is_windowed s) then none else if not s.resize_pending then some s else do
      s' ← resize_for_content env s.windowed_content_size s.content_size s
      some (record s' { resize_pending = false })

-- `sc_screen_set_orientation`
unfoldable pub set_orientation : Env → Orientation → Screen → Option Screen
unfolding set_content_size render
set_orientation env orientation s =
    if number orientation == number s.orientation then some s else do
      s' ← set_content_size env (get_oriented_size s.frame_size orientation) s
      render env true (record s' { orientation = orientation })

-- `sc_screen_init_size`
unfoldable pub init_size : Screen → Option Screen
init_size s =
    if s.has_frame
    then none
    else some (
        call (record s { content_size = get_oriented_size s.frame_size s.orientation })
          (set_texture_size s.frame_size))

-- `sc_screen_toggle_fullscreen`
unfoldable pub toggle_fullscreen : Env → Screen → Option Screen
unfolding apply_pending_resize render
toggle_fullscreen env s =
    let asked = call s (set_fullscreen (not s.fullscreen)) in
    let toggled = record asked { fullscreen = not s.fullscreen } in
    if env.fullscreen_fails asked.calls then some asked else do
      s' ← (if is_windowed toggled then apply_pending_resize env toggled else some toggled)
      render env true s'

-- The end of `sc_screen_resize_to_fit`; a position is the `uint32_t` that the source computes.
unfoldable pub fit_to : ℕ × ℕ → (window_size optimal_size : Size) → Screen → Option Screen
fit_to position window_size optimal_size s =
    let new_x = (position.0 + (window_size.width - optimal_size.width) / 2) % 2 ^ 32 in
    let new_y = (position.1 + (window_size.height - optimal_size.height) / 2) % 2 ^ 32 in
    if leb optimal_size.width window_size.width && leb optimal_size.height window_size.height
    then some (call (call s (set_size optimal_size)) (set_position new_x new_y))
    else none

-- `sc_screen_resize_to_fit`
unfoldable pub resize_to_fit : Env → Screen → Option Screen
unfolding fit_to
resize_to_fit env s =
    let window_size = to_size (env.window_size s.calls) in
    if not (is_windowed s) then some s else do
      optimal_size ← get_optimal_size window_size s.content_size false (env.usable_bounds s.calls)
      fit_to (env.window_position s.calls) window_size optimal_size s

-- `sc_screen_resize_to_pixel_perfect`
unfoldable pub resize_to_pixel_perfect : Screen → Screen
resize_to_pixel_perfect s =
    let restored =
      if s.maximized then record (call s restore_window) { maximized = false } else s in
    if s.fullscreen || s.minimized then s else call restored (set_size s.content_size)
