-- ===== src/Screen/Frames.antt =====
-- Frames on the screen, scrcpy/app/src/screen.c: from the frame buffer to the display.
use cicy_agent_adr.Prelude.{
  ◌+◌, Bool, true, false, not, ◌&&◌, Option, none, some, ◌==◌, if◌then◌else◌, ◌>>=◌,
}
use cicy_agent_adr.FrameBuffer.{Frame, frame_buffer_push, frame_buffer_consume}
use cicy_agent_adr.Screen.Geometry.{Size, get_oriented_size, get_initial_optimal_size}
use cicy_agent_adr.Screen.Window.{
  DisplayResult, display_ok, display_pending, display_error, Env, Screen, call, set_position,
  show_window, capture_mouse, set_texture_size, update_texture, new_frame_event, set_window_size,
  update_content_rect, render, set_content_size, toggle_fullscreen,
}

unfoldable pub prepare_for_frame : Env → Size → Screen → Option (Screen × DisplayResult)
unfolding set_content_size update_content_rect
prepare_for_frame env new_frame_size s =
    if s.frame_size.width == new_frame_size.width && s.frame_size.height == new_frame_size.height
    then some (s, display_ok)
    else do
      s' ←
          set_content_size env (get_oriented_size new_frame_size s.orientation)
            (record s { frame_size = new_frame_size })
      drawn ← update_content_rect env s'
      let sized = call drawn (set_texture_size drawn.frame_size)
      some (sized, env.texture_size_result sized.calls)

-- `sc_screen_show_initial_window`
unfoldable pub show_initial_window : Env → Screen → Option Screen
unfolding set_window_size toggle_fullscreen update_content_rect
show_initial_window env s = do
  size ←
      get_initial_optimal_size s.content_size s.req.req_width s.req.req_height
        (env.usable_bounds s.calls)
  sized ← set_window_size size s
  let placed = call sized (set_position s.req.req_x s.req.req_y)
  s' ← (if s.req.req_fullscreen then toggle_fullscreen env placed else some placed)
  update_content_rect env (call s' show_window)

-- The end of `sc_screen_apply_frame`, behind `sc_display_update_texture`.
unfoldable pub show_frame : Env → Screen → Option Screen
unfolding show_initial_window render
show_frame env s = do
  s' ←
      (if s.has_frame then some s else do
        shown ← show_initial_window env (record s { has_frame = true })
        some (if env.relative_mode then call shown capture_mouse else shown))
  render env false s'

-- Behind `prepare_for_frame`; the boolean is the result of the function.
unfoldable pub texture_frame : Env → Screen × DisplayResult → Option (Screen × Bool)
unfolding show_frame
texture_frame env (s, display_error) = some (s, false)
texture_frame env (s, display_pending) = some (s, true)
texture_frame env (s, display_ok) =
    let asked = call s (update_texture s.frame) in
    elim (env.texture_result asked.calls) [
      | display_error ↦ some (asked, false)
      | display_pending ↦ some (asked, true)
      | display_ok ↦ do s' ← show_frame env asked; some (s', true)
    ]

-- `sc_screen_apply_frame`
unfoldable pub apply_frame : Env → Screen → Option (Screen × Bool)
unfolding prepare_for_frame texture_frame
apply_frame env s = do prepared ← prepare_for_frame env s.frame.size s; texture_frame env prepared

-- The frame is kept for the time when the screen is not paused any more.
unfoldable pub consume_resume : Screen → Option (Screen × Bool)
unfolding frame_buffer_consume
consume_resume s = do
  consumed ← frame_buffer_consume s.fb
  some (record s { fb = consumed.0; resume_frame = some consumed.1 }, true)

-- `sc_screen_update_frame`
unfoldable pub update_frame : Env → Screen → Option (Screen × Bool)
unfolding apply_frame consume_resume
update_frame env s =
    if s.paused
    then elim s.resume_frame [
      | none ↦ if env.alloc_frame s.calls then consume_resume s else some (s, false)
      | some old ↦ consume_resume s
    ]
    else do
      consumed ← frame_buffer_consume s.fb
      apply_frame env (record s { fb = consumed.0; frame = consumed.1 })

-- `sc_screen_set_paused`, behind its first test
unfoldable pub paused_now : Env → Bool → Screen → Option Screen
unfolding apply_frame
paused_now env paused s =
    if s.paused
    then elim s.resume_frame [
      | none ↦ some (record s { paused = paused })
      | some frame ↦ do
        applied ← apply_frame env (record s { frame = frame; resume_frame = none })
        some (record applied.0 { paused = paused })
    ]
    else some (record s { paused = paused })

-- `sc_screen_set_paused`
unfoldable pub set_paused : Env → Bool → Screen → Option Screen
unfolding paused_now
set_paused env paused s = if not paused && not s.paused then some s else paused_now env paused s

-- `sc_screen_frame_sink_push`, called by the decoder
unfoldable pub frame_sink_push : Env → Frame → Screen → Screen × Bool
unfolding frame_buffer_push
frame_sink_push env frame s =
    let pushed = frame_buffer_push s.fb frame in
    let stored = record s { fb = pushed.0 } in
    let posted = call stored new_frame_event in
    if not (env.ref_frame s.calls)
    then (s, false)
    else if pushed.1
    then (stored, true)
    else if env.push_event posted.calls
    then (record posted { new_frame_events = s.new_frame_events + 1 }, true)
    else (posted, false)
