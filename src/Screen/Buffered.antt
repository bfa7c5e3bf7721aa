-- ===== src/Screen/Buffered.antt =====
-- What the frames of the decoder keep, from the frame buffer to the screen.
use cicy_agent_adr.Prelude.{
  ℕ, ◌+◌, ◌≡◌, ◌⊎◌, inl, inr, refl, sym, ◌∙◌, subst, Bool, true, false, not, false≢true, ◌&&◌,
  Option, none, some, arith, if◌then◌else◌, ◌>>=◌,
}
use cicy_agent_adr.FrameBuffer.{
  Frame, FrameBuffer, no_frame, frame_buffer_consume, frame_buffer_push,
}
use cicy_agent_adr.Screen.Window.{Env, Screen, call, new_frame_event}
use cicy_agent_adr.Screen.Frames.{
  apply_frame, consume_resume, update_frame, paused_now, set_paused, frame_sink_push,
}
use cicy_agent_adr.Screen.Geometry.{IsProper}
use cicy_agent_adr.Screen.Invariant.{Holds, Holds-bind, IsResume, Inv}
use cicy_agent_adr.Screen.Shown.{HoldsFirst, apply_frame-Inv}

-- The frame buffer has a frame when an event says so.
consume_Holds :
    (fb : FrameBuffer) (P : FrameBuffer × Frame → Type 0)
    → fb.pending_frame_consumed ≡ false
    → P (record { pending_frame = no_frame; pending_frame_consumed = true }, fb.pending_frame)
    → Holds P (frame_buffer_consume fb)
unfolding frame_buffer_consume
consume_Holds fb P e h = rw (frame_buffer_consume, e) h

-- A screen from which the frame was taken, or put aside, and no event waits.
taken-Inv :
    (s : Screen) (resume : Option Frame)
    → IsResume resume
    → s.new_frame_events ≡ 0
    → Inv s
    → Inv (record s {
      fb = record { pending_frame = no_frame; pending_frame_consumed = true };
      resume_frame = resume;
    })
taken-Inv s resume r e i = record {
  oriented = i.oriented;
  positive = i.positive;
  stored = i.stored;
  hidden = i.hidden;
  waiting = λ f. absurd (false≢true (sym f));
  resumed = r;
  queued = inl e;
}

consume_resume-Inv :
    (s : Screen)
    → s.fb.pending_frame_consumed ≡ false
    → s.new_frame_events ≡ 0
    → Inv s
    → Holds HoldsFirst (consume_resume s)
unfolding consume_resume
consume_resume-Inv s e z i =
    Holds-bind (λ c. Inv (record s { fb = c.0; resume_frame = some c.1 })) HoldsFirst
      (frame_buffer_consume s.fb) (λ c. some (record s { fb = c.0; resume_frame = some c.1 }, true))
      (consume_Holds s.fb (λ c. Inv (record s { fb = c.0; resume_frame = some c.1 })) e
        (taken-Inv s (some s.fb.pending_frame) (i.waiting e) z i))
      (λ c j. j)

pub update_frame-Inv :
    (env : Env) (s : Screen)
    → s.fb.pending_frame_consumed ≡ false
    → s.new_frame_events ≡ 0
    → Inv s
    → Holds HoldsFirst (update_frame env s)
unfolding update_frame
update_frame-Inv env s e z i = branch s.paused
  where
    applied : FrameBuffer × Frame → Option (Screen × Bool)
    applied c = apply_frame env (record s { fb = c.0; frame = c.1 })

    aside :
        (r : Option Frame) (b : Bool)
        → Holds HoldsFirst (elim r [
          | none ↦ if b then consume_resume s else some (s, false)
          | some old ↦ consume_resume s
        ])
    aside none true = consume_resume-Inv s e z i
    aside none false = i
    aside (some old) b = consume_resume-Inv s e z i

    branch :
        (b : Bool)
        → Holds HoldsFirst (
            if b
            then elim s.resume_frame [
              | none ↦ if env.alloc_frame s.calls then consume_resume s else some (s, false)
              | some old ↦ consume_resume s
            ]
            else (frame_buffer_consume s.fb >>= applied))
    branch true = aside s.resume_frame (env.alloc_frame s.calls)
    branch false =
        Holds-bind (λ c. IsProper c.1.size × Inv (record s { fb = c.0; frame = c.1 })) HoldsFirst
          (frame_buffer_consume s.fb) applied
          (consume_Holds s.fb (λ c. IsProper c.1.size × Inv (record s { fb = c.0; frame = c.1 })) e
            (i.waiting e, taken-Inv s s.resume_frame i.resumed z i))
          (λ c (p, j). apply_frame-Inv env (record s { fb = c.0; frame = c.1 }) p j)

pub set_paused-Inv :
    (env : Env) (paused : Bool) (s : Screen) → Inv s → Holds Inv (set_paused env paused s)
unfolding set_paused paused_now
set_paused-Inv env paused s i = branch (not paused && not s.paused) s.paused
  where
    resumed :
        (r : Option Frame)
        → s.resume_frame ≡ r
        → Holds Inv (elim r [
          | none ↦ some (record s { paused = paused })
          | some frame ↦
              (apply_frame env (record s { frame = frame; resume_frame = none }) >>= λ applied.
              some (record applied.0 { paused = paused }))
        ])
    resumed none e = i
    resumed (some frame) e =
        Holds-bind HoldsFirst Inv
          (apply_frame env (record s { frame = frame; resume_frame = none }))
          (λ applied. some (record applied.0 { paused = paused }))
          (apply_frame-Inv env (record s { frame = frame; resume_frame = none })
            (subst IsResume e i.resumed)
            (record {
              oriented = i.oriented;
              positive = i.positive;
              stored = i.stored;
              hidden = i.hidden;
              waiting = i.waiting;
              resumed = tt;
              queued = i.queued;
            }))
          (λ applied j. j)

    branch :
        (b c : Bool)
        → Holds Inv (
            if b
            then some s
            else if c
            then elim s.resume_frame [
              | none ↦ some (record s { paused = paused })
              | some frame ↦
                  (apply_frame env (record s { frame = frame; resume_frame = none }) >>= λ applied.
                  some (record applied.0 { paused = paused }))
            ]
            else some (record s { paused = paused }))
    branch true c = i
    branch false true = resumed s.resume_frame refl
    branch false false = i

-- A new frame posts an event when none waits.
pub frame_sink_push-Inv :
    (env : Env) (frame : Frame) (s : Screen)
    → IsProper frame.size
    → Inv s
    → Inv (frame_sink_push env frame s).0
unfolding frame_sink_push frame_buffer_push
frame_sink_push-Inv env frame s p i =
    branch (env.ref_frame s.calls) s.fb.pending_frame_consumed (env.push_event posted.calls) refl
  where
    pushed : Screen
    pushed = record s { fb = record { pending_frame = frame; pending_frame_consumed = false } }

    posted : Screen
    posted = call pushed new_frame_event

    facts :
        (events : ℕ)
        → (events ≡ 0) ⊎ (events ≡ 1)
        → Inv (record posted { new_frame_events = events })
    facts events q = record {
      oriented = i.oriented;
      positive = i.positive;
      stored = i.stored;
      hidden = i.hidden;
      waiting = λ e. p;
      resumed = i.resumed;
      queued = elim q [ inl z ↦ inl z | inr o ↦ inr (o, refl) ];
    }

    none_waits : s.fb.pending_frame_consumed ≡ true → s.new_frame_events ≡ 0
    none_waits e = elim i.queued [ inl z ↦ z | inr (o, f) ↦ absurd (false≢true (sym f ∙ e)) ]

    branch :
        (r c t : Bool)
        → s.fb.pending_frame_consumed ≡ c
        → HoldsFirst (
            if not r
            then (s, false)
            else if not c
            then (pushed, true)
            else if t
            then (record posted { new_frame_events = s.new_frame_events + 1 }, true)
            else (posted, false))
    branch false c t e = i
    branch true false t e =
        facts s.new_frame_events (elim i.queued [ inl z ↦ inl z | inr (o, f) ↦ inr o ])
    branch true true true e = facts (s.new_frame_events + 1) (inr (omega (arith, none_waits e)))
    branch true true false e = facts s.new_frame_events (inl (none_waits e))
