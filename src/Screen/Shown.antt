-- ===== src/Screen/Shown.antt =====
-- What showing a frame keeps.
use cicy_agent_adr.Prelude.{
  ◌≡◌, refl, sym, subst, Bool, true, false, ◌&&◌, Option, some, ◌==◌, if◌then◌else◌, ◌>>=◌,
}
use cicy_agent_adr.Screen.Geometry.{Size, get_oriented_size, get_initial_optimal_size}
use cicy_agent_adr.Screen.Window.{
  Env, Screen, DisplayResult, display_ok, display_pending, display_error, call, is_windowed,
  set_window_size, set_size, set_position, show_window, capture_mouse, set_texture_size,
  update_texture, update_content_rect, render, set_content_size, toggle_fullscreen,
}
use cicy_agent_adr.Screen.Frames.{
  prepare_for_frame, show_initial_window, show_frame, texture_frame, apply_frame,
}
use cicy_agent_adr.Screen.Geometry.{IsProper}
use cicy_agent_adr.Screen.Invariant.{
  content-IsProper, update_content_rect-Inv, Holds, Holds-bind, Inv,
}
use cicy_agent_adr.Screen.Fit.{initial_lem}
use cicy_agent_adr.Screen.Modes.{Turned, set_content_size-Turned, toggle_fullscreen-Inv, render-Inv}

abbrev pub HoldsFirst : {B : Type 0} → Screen × B → Type 0
HoldsFirst r = Inv r.0

prepare_for_frame-Inv :
    (env : Env) (size : Size) (s : Screen)
    → IsProper size
    → Inv s
    → Holds HoldsFirst (prepare_for_frame env size s)
unfolding prepare_for_frame update_content_rect
prepare_for_frame-Inv env size s p i =
    branch (s.frame_size.width == size.width && s.frame_size.height == size.height)
  where
    sized : Screen → Option (Screen × DisplayResult)
    sized drawn = some (
      call drawn (set_texture_size drawn.frame_size),
      env.texture_size_result (call drawn (set_texture_size drawn.frame_size)).calls,
    )

    next : Screen → Option (Screen × DisplayResult)
    next s' = update_content_rect env s' >>= sized

    next-Inv : (s' : Screen) → Inv s' → Holds HoldsFirst (next s')
    next-Inv s' i' =
        Holds-bind Inv HoldsFirst (update_content_rect env s') sized
          (update_content_rect-Inv env s' i') (λ drawn j. j)

    branch :
        (b : Bool)
        → Holds HoldsFirst (
            if b
            then some (s, display_ok)
            else (set_content_size env
                  (get_oriented_size size s.orientation)
                  (record s { frame_size = size })
                >>= next))
    branch true = i
    branch false =
        Holds-bind (Turned size s.orientation (record s { frame_size = size })) HoldsFirst
          (set_content_size env (get_oriented_size size s.orientation)
            (record s { frame_size = size }))
          next
          (set_content_size-Turned env size s.orientation (record s { frame_size = size })
            s.frame_size i p)
          (λ s' (t, f, o). next-Inv s' (
            subst (λ fs. Inv (record s' { frame_size = fs })) (sym f)
              (subst (λ k. Inv (record s' { frame_size = size; orientation = k })) (sym o) t)))

show_initial_window-Inv :
    (env : Env) (s : Screen)
    → s.has_frame ≡ true
    → is_windowed s ≡ true
    → Inv s
    → Holds Inv (show_initial_window env s)
unfolding show_initial_window set_window_size update_content_rect
show_initial_window-Inv env s h w i =
    rw (show_initial_window, size.1, set_window_size, w) (branch s.req.req_fullscreen)
  where
    size :
        (size : Size) × (get_initial_optimal_size s.content_size s.req.req_width s.req.req_height
            (env.usable_bounds s.calls)
          ≡ some size)
    size =
        initial_lem s.content_size s.req.req_width s.req.req_height (env.usable_bounds s.calls)
          (content-IsProper s i)

    placed : Screen
    placed = call (call s (set_size size.0)) (set_position s.req.req_x s.req.req_y)

    branch :
        (b : Bool)
        → Holds Inv (
            (if b then toggle_fullscreen env placed else some placed) >>= λ s'.
            update_content_rect env (call s' show_window))
    branch true =
        Holds-bind Inv Inv (toggle_fullscreen env placed)
          (λ s'. update_content_rect env (call s' show_window))
          (toggle_fullscreen-Inv env placed h i)
          (λ s' j. update_content_rect-Inv env (call s' show_window) j)
    branch false = update_content_rect-Inv env (call placed show_window) i

show_frame-Inv : (env : Env) (s : Screen) → Inv s → Holds Inv (show_frame env s)
unfolding show_frame
show_frame-Inv env s i = branch s.has_frame refl
  where
    first : Screen
    first = record s { has_frame = true }

    captured : Screen → Option Screen
    captured shown = some (if env.relative_mode then call shown capture_mouse else shown)

    captured_lem : (shown : Screen) → Inv shown → Holds Inv (captured shown)
    captured_lem shown j = mouse env.relative_mode
      where
        mouse : (b : Bool) → Holds Inv (some (if b then call shown capture_mouse else shown))
        mouse true = j
        mouse false = j

    branch :
        (b : Bool)
        → s.has_frame ≡ b
        → Holds Inv (
            (if b then some s else (show_initial_window env first >>= captured)) >>= λ s'.
            render env false s')
    branch true e = render-Inv env false s i
    branch false e =
        Holds-bind Inv Inv (show_initial_window env first >>= captured) (λ s'. render env false s')
          (Holds-bind Inv Inv (show_initial_window env first) captured
            (show_initial_window-Inv env first refl (i.hidden e) (record {
              oriented = i.oriented;
              positive = i.positive;
              stored = i.stored;
              hidden = λ f. i.hidden e;
              waiting = i.waiting;
              resumed = i.resumed;
              queued = i.queued;
            }))
            captured_lem)
          (λ s' j. render-Inv env false s' j)

texture_frame-Inv :
    (env : Env) (s : Screen) (r : DisplayResult)
    → Inv s
    → Holds HoldsFirst (texture_frame env (s, r))
unfolding texture_frame
texture_frame-Inv env s display_error i = i
texture_frame-Inv env s display_pending i = i
texture_frame-Inv env s display_ok i = branch (env.texture_result asked.calls)
  where
    asked : Screen
    asked = call s (update_texture s.frame)

    branch :
        (r : DisplayResult)
        → Holds HoldsFirst (elim r [
          | display_error ↦ some (asked, false)
          | display_pending ↦ some (asked, true)
          | display_ok ↦ (show_frame env asked >>= λ s'. some (s', true))
        ])
    branch display_error = i
    branch display_pending = i
    branch display_ok =
        Holds-bind Inv HoldsFirst (show_frame env asked) (λ s'. some (s', true))
          (show_frame-Inv env asked i) (λ s' j. j)

pub apply_frame-Inv :
    (env : Env) (s : Screen) → IsProper s.frame.size → Inv s → Holds HoldsFirst (apply_frame env s)
unfolding apply_frame
apply_frame-Inv env s p i =
    Holds-bind HoldsFirst HoldsFirst (prepare_for_frame env s.frame.size s) (texture_frame env)
      (prepare_for_frame-Inv env s.frame.size s p i) (λ (s', r) j. texture_frame-Inv env s' r j)
