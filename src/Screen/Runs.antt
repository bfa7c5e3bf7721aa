-- ===== src/Screen/Runs.antt =====
-- All runs of the screen: no assertion fails, and what is on the screen keeps its shape.
use cicy_agent_adr.Prelude.{
  ◌-◌, ◌≡◌, ◌⊎◌, inl, inr, refl, sym, Bool, true, false, not, false≢true, ◌||◌, le→leb, Option,
  some, List, [], ◌∷◌, leb, ◌==◌, arith, if◌then◌else◌, ◌>>=◌,
}
use cicy_agent_adr.Orientation.{Orientation}
use cicy_agent_adr.Screen.Geometry.{Size, to_size, get_optimal_size, limited}
use cicy_agent_adr.Screen.Window.{
  Request, Env, Screen, call, is_windowed, restore_window, set_size, render, apply_pending_resize,
  fit_to, resize_to_fit, resize_to_pixel_perfect,
}
use cicy_agent_adr.Screen.Frames.{update_frame}
use cicy_agent_adr.Screen.{
  WindowEvent, exposed, size_changed, maximized, minimized, restored, window_event, new_frame,
  Action, push_frame, handle_new_frame, handle_window, turn, fullscreen, fit, pixel_perfect, pause,
  step, run, opened,
}
use cicy_agent_adr.Screen.Fit.{IsFit, get_optimal_size-IsFit}
use cicy_agent_adr.Screen.Geometry.{IsProper}
use cicy_agent_adr.Screen.Invariant.{Holds, Holds-bind, Inv, content-IsProper}
use cicy_agent_adr.Screen.Modes.{
  render-Inv, mode-Inv, restored-Inv, set_orientation-Inv, toggle_fullscreen-Inv,
}
use cicy_agent_adr.Screen.Shown.{HoldsFirst}
use cicy_agent_adr.Screen.Buffered.{update_frame-Inv, set_paused-Inv, frame_sink_push-Inv}

-- The decoder gives frames that are not empty and have sizes below `2 ^ 15`.
abbrev pub IsAction : Action → Type 0
IsAction (push_frame frame) = IsProper frame.size
IsAction _ = Unit {0}

abbrev pub AreActions : List Action → Type 0
AreActions [] = Unit {0}
AreActions (action ∷ actions) = IsAction action × AreActions actions

resize_to_fit-Inv : (env : Env) (s : Screen) → Inv s → Holds Inv (resize_to_fit env s)
unfolding resize_to_fit fit_to limited
resize_to_fit-Inv env s i = branch (is_windowed s)
  where
    window_size : Size
    window_size = to_size (env.window_size s.calls)

    fits :
        (size : Size) × (get_optimal_size window_size s.content_size false
            (env.usable_bounds s.calls)
          ≡ some size)
        × IsFit window_size s.content_size size
    fits =
        get_optimal_size-IsFit window_size s.content_size false (env.usable_bounds s.calls)
          (content-IsProper s i) (omega arith) (omega arith)

    wide : leb fits.0.width window_size.width ≡ true
    wide = le→leb _ _ fits.2.width_inside

    high : leb fits.0.height window_size.height ≡ true
    high = le→leb _ _ fits.2.height_inside

    fitted : Holds Inv (fit_to (env.window_position s.calls) window_size fits.0 s)
    fitted = rw (fit_to, wide, high) i

    branch :
        (b : Bool)
        → Holds Inv (
            if not b
            then some s
            else (get_optimal_size window_size s.content_size false (env.usable_bounds s.calls)
                >>= λ optimal_size.
                    fit_to (env.window_position s.calls) window_size optimal_size s))
    branch true = rw fits.1 fitted
    branch false = i

resize_to_pixel_perfect-Inv :
    (s : Screen) → s.has_frame ≡ true → Inv s → Inv (resize_to_pixel_perfect s)
unfolding resize_to_pixel_perfect
resize_to_pixel_perfect-Inv s h i = branch (s.fullscreen || s.minimized) s.maximized
  where
    branch :
        (b m : Bool)
        → Inv (
            if b
            then s
            else call
                (if m then record (call s restore_window) { maximized = false } else s)
                (set_size s.content_size))
    branch true m = i
    branch false true = mode-Inv s s.fullscreen false s.minimized h i
    branch false false = i

new_frame-Inv : (env : Env) (s : Screen) → Inv s → Holds Inv (new_frame env s)
unfolding new_frame
new_frame-Inv env s i = branch i.queued (s.new_frame_events == 0) refl
  where
    left : Screen
    left = record s { new_frame_events = s.new_frame_events - 1 }

    branch :
        (s.new_frame_events ≡ 0)
          ⊎ ((s.new_frame_events ≡ 1) × (s.fb.pending_frame_consumed ≡ false))
        → (b : Bool) → (s.new_frame_events == 0) ≡ b
        → Holds Inv (if b then some s else (update_frame env left >>= λ updated. some updated.0))
    branch q true e = i
    branch (inl z) false e = absurd (ground (arith, z, e))
    branch (inr (o, c)) false e =
        let none_left : s.new_frame_events - 1 ≡ 0 = omega (arith, o) in
        Holds-bind HoldsFirst Inv (update_frame env left) (λ updated. some updated.0)
          (update_frame-Inv env left c none_left (record {
            oriented = i.oriented;
            positive = i.positive;
            stored = i.stored;
            hidden = i.hidden;
            waiting = i.waiting;
            resumed = i.resumed;
            queued = inl none_left;
          }))
          (λ updated j. j)

window_event-Inv :
    (env : Env) (event : WindowEvent) (s : Screen)
    → s.has_frame ≡ true
    → Inv s
    → Holds Inv (window_event env event s)
unfolding window_event
window_event-Inv env exposed s h i = render-Inv env true s i
window_event-Inv env size_changed s h i = render-Inv env true s i
window_event-Inv env maximized s h i = mode-Inv s s.fullscreen true s.minimized h i
window_event-Inv env minimized s h i = mode-Inv s s.fullscreen s.maximized true h i
window_event-Inv env restored s h i = branch s.fullscreen refl
  where
    r : Screen
    r = record s { maximized = false; minimized = false }

    branch :
        (b : Bool)
        → s.fullscreen ≡ b
        → Holds Inv
            (if b then some s else (apply_pending_resize env r >>= λ s'. render env true s'))
    branch true e = i
    branch false e =
        Holds-bind Inv Inv (apply_pending_resize env r) (λ s'. render env true s')
          (restored-Inv env s h e i) (λ s' j. render-Inv env true s' j)

-- What waits for the first frame.
gated :
    (s : Screen) (o : Option Screen)
    → Inv s
    → (s.has_frame ≡ true → Holds Inv o)
    → Holds Inv (if s.has_frame then o else some s)
gated s o i k = branch s.has_frame refl
  where
    branch : (b : Bool) → s.has_frame ≡ b → Holds Inv (if b then o else some s)
    branch true e = k e
    branch false e = i

step-Inv :
    (env : Env) (action : Action) (s : Screen)
    → IsAction action
    → Inv s
    → Holds Inv (step env action s)
unfolding step
step-Inv env (push_frame frame) s p i = frame_sink_push-Inv env frame s p i
step-Inv env handle_new_frame s p i = new_frame-Inv env s i
step-Inv env (handle_window event) s p i = gated s _ i (λ h. window_event-Inv env event s h i)
step-Inv env (turn orientation) s p i = gated s _ i (λ h. set_orientation-Inv env orientation s i)
step-Inv env fullscreen s p i = gated s _ i (λ h. toggle_fullscreen-Inv env s h i)
step-Inv env fit s p i = gated s _ i (λ h. resize_to_fit-Inv env s i)
step-Inv env pixel_perfect s p i = gated s _ i (λ h. resize_to_pixel_perfect-Inv s h i)
step-Inv env (pause paused) s p i = gated s _ i (λ h. set_paused-Inv env paused s i)

run-Inv :
    (env : Env) (actions : List Action) (s : Screen)
    → AreActions actions
    → Inv s
    → Holds Inv (run env actions s)
unfolding run
run-Inv env [] s p i = i
run-Inv env (action ∷ actions) s (p, ps) i =
    Holds-bind Inv Inv (step env action s) (run env actions) (step-Inv env action s p i)
      (λ s' j. run-Inv env actions s' ps j)

opened-Inv :
    (req : Request) (orientation : Orientation) (frame_size : Size)
    → IsProper frame_size
    → Holds Inv (opened req orientation frame_size)
unfolding opened
opened-Inv req orientation frame_size p = record {
  oriented = refl;
  positive = p;
  stored = λ e. absurd (false≢true e);
  hidden = λ e. refl;
  waiting = λ e. absurd (false≢true (sym e));
  resumed = tt;
  queued = inl refl;
}

-- Open the screen for a video, and let the decoder push frames, that are not empty and whose sizes
-- are below `2 ^ 15`. Then in every sequence of frames, events and shortcuts, whatever the sizes of
-- the window and of the display, no assertion fails, no product of two sizes overflows `int`, and
-- nothing is divided by 0; at its end the content size is the frame size turned by the orientation,
-- a pending resize has a size that is not empty to start from, a window without a frame is not fullscreen, maximized or minimized, and at most one
-- SC_EVENT_NEW_FRAME waits, only when the frame buffer holds a frame not consumed yet.
pub screen_run_lem :
    (env : Env) (req : Request) (orientation : Orientation) (frame_size : Size)
    (actions : List Action)
    → IsProper frame_size
    → AreActions actions
    → Holds Inv (opened req orientation frame_size >>= run env actions)
screen_run_lem env req orientation frame_size actions p ps =
    Holds-bind Inv Inv (opened req orientation frame_size) (run env actions)
      (opened-Inv req orientation frame_size p) (λ s i. run-Inv env actions s ps i)
