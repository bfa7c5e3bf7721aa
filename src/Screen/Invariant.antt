-- ===== src/Screen/Invariant.antt =====
-- What the window operations keep: the content is the oriented frame, no size is empty or too large, and a
-- window that is not shown yet is not fullscreen, maximized or minimized.
use cicy_agent_adr.Prelude.{
  ℕ, ◌*◌, ◌/◌, ◌%◌, ◌^◌, ◌≡◌, ◌⊎◌, refl, sym, subst, Bool, true, false, not, false≢true, ◌||◌,
  Option, none, some, ◌==◌, arith, if◌then◌else◌, ◌>>=◌,
}
use cicy_agent_adr.Orientation.{Orientation, is_swap}
use cicy_agent_adr.FrameBuffer.{Frame, FrameBuffer}
use cicy_agent_adr.Screen.Geometry.{Size, Rect, IsProper, u16, to_size, get_oriented_size}
use cicy_agent_adr.Screen.Fit.{get_optimal_size-IsFit, content_rect-IsInside}
use cicy_agent_adr.Screen.Window.{
  update_content_rect, Call, Env, Screen, call, is_windowed, set_window_size, resize_for_content,
  set_content_size, apply_pending_resize,
}

-- The result is not a failed assertion, and has a property.
abbrev pub Holds {ℓ} : {A : Type ℓ} → (A → Type 0) → Option A → Type 0
Holds P none = ⊥
Holds P (some a) = P a

pub Holds-bind :
    {A B : Type 0} (P : A → Type 0) (Q : B → Type 0) (o : Option A) (f : A → Option B)
    → Holds P o
    → ((a : A) → P a → Holds Q (f a))
    → Holds Q (o >>= f)
Holds-bind P Q none f h k = absurd h
Holds-bind P Q (some a) f h k = k a h

abbrev pub IsResume : Option Frame → Type 0
IsResume none = Unit {0}
IsResume (some frame) = IsProper frame.size

-- On the parts of a screen that matter, so that the calls made and the rectangle do not.
pub record Facts (frame_size content_size stored_size : Size) (orientation : Orientation)
    (pending has_frame windowed : Bool) (fb : FrameBuffer) (resume : Option Frame) (events : ℕ)
    : Type 0 where
  pub oriented : content_size ≡ get_oriented_size frame_size orientation
  pub positive : IsProper frame_size
  pub stored : pending ≡ true → IsProper stored_size
  pub hidden : has_frame ≡ false → windowed ≡ true
  pub waiting : fb.pending_frame_consumed ≡ false → IsProper fb.pending_frame.size
  pub resumed : IsResume resume
  pub queued : (events ≡ 0) ⊎ ((events ≡ 1) × (fb.pending_frame_consumed ≡ false))

abbrev pub Inv : Screen → Type 0
Inv s =
    Facts s.frame_size s.content_size s.windowed_content_size s.orientation s.resize_pending
      s.has_frame (is_windowed s) s.fb s.resume_frame s.new_frame_events

pub oriented-IsProper :
    (size : Size) (o : Orientation) → IsProper size → IsProper (get_oriented_size size o)
unfolding get_oriented_size
oriented-IsProper size o h = branch (is_swap o)
  where
    branch :
        (b : Bool)
        → IsProper (
            if b
            then record { width = size.height; height = size.width }
            else record { width = size.width; height = size.height })
    branch true = (h.1, h.0, h.3, h.2)
    branch false = h

pub content-IsProper : (s : Screen) → Inv s → IsProper s.content_size
content-IsProper s i =
    subst IsProper (sym i.oriented) (oriented-IsProper s.frame_size s.orientation i.positive)

-- A resize makes one call.
resize-Holds :
    (env : Env) (old new : Size) (s : Screen) (P : Screen → Type 0)
    → IsProper old
    → IsProper new
    → is_windowed s ≡ true
    → ((c : Call) → P (call s c))
    → Holds P (resize_for_content env old new s)
unfolding resize_for_content
resize-Holds env old new s P p q w k =
    let not_empty : ((old.width == 0) || (old.height == 0)) ≡ false = ground (arith, p) in
    let window_size = to_size (env.window_size s.calls) in
    let target_size : Size = record {
      width = u16 (window_size.width * new.width % 2 ^ 32 / old.width);
      height = u16 (window_size.height * new.height % 2 ^ 32 / old.height);
    } in
    let (size, e, fit) =
      get_optimal_size-IsFit target_size new true (env.usable_bounds s.calls) q (omega arith)
        (omega arith) in
    rw (resize_for_content, not_empty, e, set_window_size, w) (k _)

-- The rectangle of the content does not matter.
pub update_content_rect-Holds :
    (env : Env) (s : Screen) (P : Screen → Type 0)
    → IsProper s.content_size
    → ((rect : Rect) → P (record s { rect = rect }))
    → Holds P (update_content_rect env s)
unfolding update_content_rect
update_content_rect-Holds env s P p k =
    let (rect, e, inside) =
      content_rect-IsInside (to_size (env.drawable_size s.calls)) s.content_size p (omega arith)
        (omega arith) in
    rw (update_content_rect, e) (k rect)

pub update_content_rect-Inv :
    (env : Env) (s : Screen) → Inv s → Holds Inv (update_content_rect env s)
update_content_rect-Inv env s i =
    update_content_rect-Holds env s Inv (content-IsProper s i) (λ rect. i)

pub set_content_size-Holds :
    (env : Env) (new : Size) (s : Screen) (P : Screen → Type 0)
    → IsProper s.content_size
    → IsProper new
    → ((c : Call) → P (record (call s c) { content_size = new }))
    → P (record s {
      windowed_content_size = s.content_size;
      resize_pending = true;
      content_size = new;
    })
    → (s.resize_pending ≡ true → P (record s { content_size = new }))
    → Holds P (set_content_size env new s)
unfolding set_content_size
set_content_size-Holds env new s P p q k l m = branch (is_windowed s) s.resize_pending refl refl
  where
    branch :
        (b c : Bool)
        → is_windowed s ≡ b
        → s.resize_pending ≡ c
        → Holds P (
            (if b
              then resize_for_content env s.content_size new s
              else if not c
              then some (record s { windowed_content_size = s.content_size; resize_pending = true })
              else some s)
            >>= λ s'. some (record s' { content_size = new }))
    branch true c e f =
        Holds-bind (λ s'. P (record s' { content_size = new })) P
          (resize_for_content env s.content_size new s)
          (λ s'. some (record s' { content_size = new }))
          (resize-Holds env s.content_size new s (λ s'. P (record s' { content_size = new })) p q e
            k)
          (λ s' h. h)
    branch false true e f = m f
    branch false false e f = l

pub apply_pending_resize-Holds :
    (env : Env) (s : Screen) (P : Screen → Type 0)
    → is_windowed s ≡ true
    → (s.resize_pending ≡ true → IsProper s.windowed_content_size)
    → IsProper s.content_size
    → P s
    → ((c : Call) → P (record (call s c) { resize_pending = false }))
    → Holds P (apply_pending_resize env s)
unfolding apply_pending_resize
apply_pending_resize-Holds env s P w p q k l = branch (is_windowed s) s.resize_pending w refl
  where
    branch :
        (b c : Bool)
        → b ≡ true
        → s.resize_pending ≡ c
        → Holds P (
            if not b
            then none
            else if not c
            then some s
            else (resize_for_content env s.windowed_content_size s.content_size s >>= λ s'.
                some (record s' { resize_pending = false })))
    branch false c e f = absurd (false≢true e)
    branch true false e f = k
    branch true true e f =
        Holds-bind (λ s'. P (record s' { resize_pending = false })) P
          (resize_for_content env s.windowed_content_size s.content_size s)
          (λ s'. some (record s' { resize_pending = false }))
          (resize-Holds env s.windowed_content_size s.content_size s
            (λ s'. P (record s' { resize_pending = false })) (p f) q w l)
          (λ s' h. h)
