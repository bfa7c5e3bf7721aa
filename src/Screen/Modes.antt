-- ===== src/Screen/Modes.antt =====
-- The window keeps its invariant when it is turned, resized, and put in other modes.
use cicy_agent_adr.Prelude.{
  ◌≡◌, refl, sym, ap, ◌∙◌, subst, Bool, true, false, not, false≢true, ◌&&◌, some, ◌==◌,
  if◌then◌else◌, ◌>>=◌,
}
use cicy_agent_adr.Orientation.{Orientation, number}
use cicy_agent_adr.Screen.Geometry.{Size, get_oriented_size}
use cicy_agent_adr.Screen.Window.{
  display_render, update_content_rect, Env, Screen, call, is_windowed, render, set_content_size,
  apply_pending_resize, set_orientation, toggle_fullscreen, set_fullscreen,
}
use cicy_agent_adr.Screen.Geometry.{IsProper}
use cicy_agent_adr.Screen.Invariant.{
  Holds, Holds-bind, Facts, Inv, content-IsProper, oriented-IsProper, update_content_rect-Inv,
  set_content_size-Holds, apply_pending_resize-Holds,
}

pub render-Inv : (env : Env) (update : Bool) (s : Screen) → Inv s → Holds Inv (render env update s)
unfolding render
render-Inv env true s i =
    Holds-bind Inv Inv (update_content_rect env s)
      (λ s'. some (call s' (display_render s'.rect s'.orientation)))
      (update_content_rect-Inv env s i) (λ s' j. j)
render-Inv env false s i = i

-- A screen whose content is that of a frame size and an orientation, when it will have those.
abbrev pub Turned : Size → Orientation → Screen → Screen → Type 0
Turned size o s s' =
    Inv (record s' { frame_size = size; orientation = o })
    × (s'.frame_size ≡ s.frame_size)
    × (s'.orientation ≡ s.orientation)

pub set_content_size-Turned :
    (env : Env) (size : Size) (o : Orientation) (s : Screen) (fs : Size)
    → Inv (record s { frame_size = fs })
    → IsProper size
    → Holds (Turned size o s) (set_content_size env (get_oriented_size size o) s)
set_content_size-Turned env size o s fs i p =
    let old : IsProper s.content_size = content-IsProper (record s { frame_size = fs }) i in
    set_content_size-Holds env (get_oriented_size size o) s (Turned size o s) old
      (oriented-IsProper size o p) (λ c. (facts i.stored, refl, refl))
      (facts (λ e. old), refl, refl) (λ e. (facts i.stored, refl, refl))
  where
    facts :
        {stored_size : Size} {pending : Bool}
        → (pending ≡ true → IsProper stored_size)
        → Facts size
            (get_oriented_size size o)
            stored_size
            o
            pending
            s.has_frame
            (is_windowed s)
            s.fb
            s.resume_frame
            s.new_frame_events
    facts st = record {
      oriented = refl;
      positive = p;
      stored = st;
      hidden = i.hidden;
      waiting = i.waiting;
      resumed = i.resumed;
      queued = i.queued;
    }

pub set_orientation-Inv :
    (env : Env) (o : Orientation) (s : Screen) → Inv s → Holds Inv (set_orientation env o s)
unfolding set_orientation
set_orientation-Inv env o s i = branch (number o == number s.orientation)
  where
    branch :
        (b : Bool)
        → Holds Inv (
            if b
            then some s
            else (set_content_size env (get_oriented_size s.frame_size o) s >>= λ s'.
                render env true (record s' { orientation = o })))
    branch true = i
    branch false =
        Holds-bind (Turned s.frame_size o s) Inv
          (set_content_size env (get_oriented_size s.frame_size o) s)
          (λ s'. render env true (record s' { orientation = o }))
          (set_content_size-Turned env s.frame_size o s s.frame_size i i.positive)
          (λ s' (t, f, _).
            render-Inv env true (record s' { orientation = o })
              (subst (λ fs. Inv (record s' { frame_size = fs; orientation = o })) (sym f) t))

-- A change between the modes of the window, and the pending resize behind it.
windowed-Inv :
    (env : Env) (s : Screen)
    → s.has_frame ≡ true
    → Inv s
    → Holds Inv (if is_windowed s then apply_pending_resize env s else some s)
windowed-Inv env s h i = branch (is_windowed s) refl
  where
    branch :
        (b : Bool)
        → is_windowed s ≡ b
        → Holds Inv (if b then apply_pending_resize env s else some s)
    branch false e = i
    branch true e = apply_pending_resize-Holds env s Inv e i.stored (content-IsProper s i) i (λ c.
        record {
          oriented = i.oriented;
          positive = i.positive;
          stored = λ f. absurd (false≢true f);
          hidden = i.hidden;
          waiting = i.waiting;
          resumed = i.resumed;
          queued = i.queued;
        })

-- The window of a frame may change between all modes.
pub mode-Inv :
    (s : Screen) (full max mini : Bool)
    → s.has_frame ≡ true
    → Inv s
    → Inv (record s { fullscreen = full; maximized = max; minimized = mini })
mode-Inv s full max mini h i = record {
  oriented = i.oriented;
  positive = i.positive;
  stored = i.stored;
  hidden = λ e. absurd (false≢true (sym e ∙ h));
  waiting = i.waiting;
  resumed = i.resumed;
  queued = i.queued;
}

pub toggle_fullscreen-Inv :
    (env : Env) (s : Screen) → s.has_frame ≡ true → Inv s → Holds Inv (toggle_fullscreen env s)
unfolding toggle_fullscreen
toggle_fullscreen-Inv env s h i = branch (env.fullscreen_fails asked.calls)
  where
    asked : Screen
    asked = call s (set_fullscreen (not s.fullscreen))

    toggled : Screen
    toggled = record asked { fullscreen = not s.fullscreen }

    branch :
        (b : Bool)
        → Holds Inv (
            if b
            then some asked
            else ((if is_windowed toggled then apply_pending_resize env toggled else some toggled)
                >>= λ s'. render env true s'))
    branch true = i
    branch false =
        Holds-bind Inv Inv
          (if is_windowed toggled then apply_pending_resize env toggled else some toggled)
          (λ s'. render env true s')
          (windowed-Inv env toggled h
            (mode-Inv asked (not s.fullscreen) s.maximized s.minimized h i))
          (λ s' j. render-Inv env true s' j)

-- SDL_WINDOWEVENT_RESTORED
pub restored-Inv :
    (env : Env) (s : Screen)
    → s.has_frame ≡ true
    → s.fullscreen ≡ false
    → Inv s
    → Holds Inv (apply_pending_resize env (record s { maximized = false; minimized = false }))
restored-Inv env s h f i =
    let r = record s { maximized = false; minimized = false } in
    let w : is_windowed r ≡ true = ap (λ b. not b && true) f in
    subst (λ b. Holds Inv (if b then apply_pending_resize env r else some r)) w
      (windowed-Inv env r h (mode-Inv s s.fullscreen false false h i))
