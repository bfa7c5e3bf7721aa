-- ===== src/Hid/Mouse/Report.antt =====
-- What the reports of hid_mouse.c say to a host that reads them.
use cicy_agent_adr.Prelude.{
  ℕ, ◌+◌, ◌-◌, ◌≡◌, refl, ap, ◌∙◌, Bool, true, false, Option, none, some, arith, ltb, min, ◌&&◌,
  if◌then◌else◌,
}
use cicy_agent_adr.Prelude.Int.{ℤ, pos, negsuc}
use cicy_agent_adr.Hid.{HidInput, has_bits}
use cicy_agent_adr.Hid.Descriptor.{input_bytes}
use cicy_agent_adr.Hid.Keyboard.{or_if}
use cicy_agent_adr.Hid.Mouse.{
  Sdl, MotionEvent, ClickEvent, ScrollEvent, mouse_report_desc, mouse_id, is_zero, byte_of, clamp,
  motion_byte, buttons_from_buttons_state, input_from_motion, input_from_click, input_from_scroll,
  mouse_input_init, mouse_bytes,
}

-- A byte as a signed number, in two's complement.
abbrev pub signed_byte : ℕ → ℤ
signed_byte b = if ltb b 128 then pos b else negsuc (255 - b)

-- The nearest number from -127 to 127.
abbrev pub limited : ℤ → ℤ
limited (pos n) = pos (min n 127)
limited (negsuc n) = negsuc (min n 126)

abbrev flag : Bool → ℕ → ℕ
flag b n = if b then n else 0

-- The buttons of a report: one bit for each, the left button the lowest.
abbrev pub buttons_of : Sdl → ℕ → ℕ
buttons_of sdl state =
    flag (has_bits state sdl.left) 1
    + flag (has_bits state sdl.right) 2
    + flag (has_bits state sdl.middle) 4
    + flag (has_bits state sdl.x1) 8
    + flag (has_bits state sdl.x2) 16

-- What a host reads: the buttons, the motion, the wheel and the horizontal wheel.
abbrev pub Says : HidInput → HidInput → ℕ → ℤ → ℤ → ℤ → ℤ → Type 0
Says before report buttons x y wheel pan =
    (report.hid_id ≡ mouse_id)
    × (report.size ≡ input_bytes mouse_report_desc)
    × (report.data_bytes 0 ≡ buttons)
    × (signed_byte (report.data_bytes 1) ≡ x)
    × (signed_byte (report.data_bytes 2) ≡ y)
    × (signed_byte (report.data_bytes 3) ≡ wheel)
    × (signed_byte (report.data_bytes 4) ≡ pan)
    × ((k : ℕ) → report.data_bytes (report.size + k) ≡ before.data_bytes (report.size + k))

-- Of a scroll, nothing is sent exactly when both wheels stand still.
abbrev pub ScrollSays : HidInput → ScrollEvent → Option HidInput → Type 0
ScrollSays before event none = (event.vscroll_int ≡ pos 0) × (event.hscroll_int ≡ pos 0)
ScrollSays before event (some report) =
    (is_zero event.vscroll_int && is_zero event.hscroll_int ≡ false)
    × Says before report 0 (pos 0) (pos 0) (limited event.vscroll_int) (limited event.hscroll_int)

clamp_lem : (v : ℤ) → clamp v (negsuc 126) (pos 127) ≡ limited v
unfolding clamp
clamp_lem v = ground arith

signed_byte-byte_of : (v : ℤ) → signed_byte (byte_of (limited v)) ≡ limited v
unfolding byte_of
signed_byte-byte_of v = ground arith

motion_byte_lem : (v : ℤ) → signed_byte (motion_byte v) ≡ limited v
unfolding motion_byte
motion_byte_lem v = ap (λ t. signed_byte (byte_of t)) (clamp_lem v) ∙ signed_byte-byte_of v

buttons_lem : (sdl : Sdl) (state : ℕ) → buttons_from_buttons_state sdl state ≡ buttons_of sdl state
unfolding buttons_from_buttons_state
buttons_lem sdl state =
    bits (has_bits state sdl.left) (has_bits state sdl.right) (has_bits state sdl.middle)
      (has_bits state sdl.x1) (has_bits state sdl.x2)
  where
    bits :
        (a b c d e : Bool)
        → or_if e 16 (or_if d 8 (or_if c 4 (or_if b 2 (or_if a 1 0))))
          ≡ flag a 1 + flag b 2 + flag c 4 + flag d 8 + flag e 16
    bits a b c d e = ground arith

mouse_report_size : 5 ≡ input_bytes mouse_report_desc
unfolding input_bytes mouse_report_desc
mouse_report_size = refl

-- The motion, click and scroll reports have the size that the descriptor announces and say to the
-- host the buttons and the nearest motions from -127 to 127; nothing is written behind them.
pub mouse_reports_lem :
    (sdl : Sdl) (before : HidInput) (motion : MotionEvent) (click : ClickEvent)
    (scroll : ScrollEvent)
    → Says before
        (input_from_motion sdl before motion)
        (buttons_of sdl motion.buttons_state)
        (limited motion.xrel)
        (limited motion.yrel)
        (pos 0)
        (pos 0)
      × Says before
          (input_from_click sdl before click)
          (buttons_of sdl click.buttons_state)
          (pos 0)
          (pos 0)
          (pos 0)
          (pos 0)
      × ScrollSays before scroll (input_from_scroll before scroll)
unfolding input_from_motion input_from_click input_from_scroll mouse_input_init
mouse_reports_lem sdl before motion click scroll = (
  (
    refl,
    mouse_report_size,
    buttons_lem sdl motion.buttons_state,
    motion_byte_lem motion.xrel,
    motion_byte_lem motion.yrel,
    refl,
    refl,
    λ k. ground arith,
  ),
  (
    refl,
    mouse_report_size,
    buttons_lem sdl click.buttons_state,
    refl,
    refl,
    refl,
    refl,
    λ k. ground arith,
  ),
  scrolled (is_zero scroll.vscroll_int && is_zero scroll.hscroll_int) refl,
)
  where
    scrolled :
        (b : Bool)
        → is_zero scroll.vscroll_int && is_zero scroll.hscroll_int ≡ b
        → ScrollSays before scroll (
            if b
            then none
            else some (record (mouse_input_init before) {
              data_bytes =
                  mouse_bytes before.data_bytes 0 0 0
                    (motion_byte scroll.vscroll_int)
                    (motion_byte scroll.hscroll_int);
            }))
    scrolled true e = (ground arith, ground arith)
    scrolled false e = (
      e,
      (
        refl,
        mouse_report_size,
        refl,
        refl,
        refl,
        motion_byte_lem scroll.vscroll_int,
        motion_byte_lem scroll.hscroll_int,
        λ k. ground arith,
      ),
    )
