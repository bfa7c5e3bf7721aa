-- ===== src/FrameBuffer.antt =====
-- The frame buffer, scrcpy/app/src/frame_buffer.c: the last frame of the decoder, until the screen
-- consumes it. What stands between a lock and an unlock is one step.
use cicy_agent_adr.Prelude.{ℕ, Bool, true, false, not, Option, none, some, if◌then◌else◌}
use cicy_agent_adr.Screen.Geometry.{Size}

-- What the program uses of an `AVFrame`: its size, as a `struct sc_size` holds it, and which picture it
-- refers to.
pub record Frame : Type 0 where
  pub size : Size
  pub picture : ℕ

-- A frame that was moved away.
abbrev pub no_frame : Frame
no_frame = record { size = record { width = 0; height = 0 }; picture = 0 }

-- `struct sc_frame_buffer`
pub record FrameBuffer : Type 0 where
  pub pending_frame : Frame
  pub pending_frame_consumed : Bool

-- `sc_frame_buffer_init`
abbrev pub frame_buffer_init : FrameBuffer
frame_buffer_init = record { pending_frame = no_frame; pending_frame_consumed = true }

-- `sc_frame_buffer_push`, when `av_frame_ref` succeeds: the buffer, and whether the previous frame
-- was skipped.
unfoldable pub frame_buffer_push : FrameBuffer → Frame → FrameBuffer × Bool
frame_buffer_push fb frame = (
  record { pending_frame = frame; pending_frame_consumed = false },
  not fb.pending_frame_consumed,
)

-- `sc_frame_buffer_consume`; `none` is the failed assertion.
unfoldable pub frame_buffer_consume : FrameBuffer → Option (FrameBuffer × Frame)
frame_buffer_consume fb =
    if fb.pending_frame_consumed
    then none
    else some (record { pending_frame = no_frame; pending_frame_consumed = true }, fb.pending_frame)
