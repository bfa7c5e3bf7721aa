-- ===== src/Screen/Fit.antt =====
-- Sizes that keep the aspect ratio and fit.
use cicy_agent_adr.Prelude.{
  ℕ, suc, ◌+◌, ◌-◌, ◌*◌, ◌/◌, ◌%◌, ◌^◌, ◌≤◌, ◌<◌, ◌≡◌, ◌⊎◌, inl, inr, refl, ap, ◌∙◌, Bool, true,
  false, ◌&&◌, ◌||◌, Bool-cases, Option, none, some, ltb, ltb→lt, ◌==◌, arith, if◌then◌else◌,
}
use native.Mathlib.Nat.{div-lt_iff_lt-mul, mul-le-mul, mul_comm, mod-eq_of_lt}
use cicy_agent_adr.Screen.Geometry.{
  Size, Rect, u16, is_optimal_size, is_computable, IsProper, get_initial_optimal_size, limited,
  shrunk, get_optimal_size, get_preferred_display_bounds, content_rect,
}

-- The other dimension, computed from one, does not grow.
pub narrower : (w h cw ch : ℕ) → 0 < cw → ch * w < cw * h → ch * w / cw < h
narrower w h cw ch p l = (div-lt_iff_lt-mul p).1 (omega (arith, l, mul_comm h cw))

pub shorter : (w h cw ch : ℕ) → 0 < ch → cw * h ≤ ch * w → cw * h / ch ≤ w
shorter w h cw ch p l =
    let q : cw * h / ch < suc w =
      (div-lt_iff_lt-mul {x = cw * h} {y = suc w} p).1 (omega (arith, l, mul_comm w ch)) in
    omega (arith, q)

optimal_height :
    (size content : Size)
    → size.height ≡ content.height * size.width / content.width
    → is_optimal_size size content ≡ true
unfolding is_optimal_size
optimal_height size content e =
    let f : size.height ≡ size.width * content.height / content.width =
      e ∙ ap (λ n. n / content.width) (mul_comm content.height size.width) in
    ground (arith, f)

optimal_width :
    (size content : Size)
    → size.width ≡ content.width * size.height / content.height
    → is_optimal_size size content ≡ true
unfolding is_optimal_size
optimal_width size content e =
    let f : size.width ≡ size.height * content.width / content.height =
      e ∙ ap (λ n. n / content.height) (mul_comm content.width size.height) in
    ground (arith, f)

-- One dimension of a size is the other times the ratio of the content, rounded down.
abbrev pub KeepsRatio : Size → Size → Type 0
KeepsRatio size content =
    (size.height ≡ size.width * content.height / content.width)
    ⊎ (size.width ≡ size.height * content.width / content.height)

optimal-KeepsRatio :
    (size content : Size) → is_optimal_size size content ≡ true → KeepsRatio size content
unfolding is_optimal_size
optimal-KeepsRatio size content e = ground (arith, e)

computable_lem :
    (current content : Size)
    → IsProper content
    → current.width < 2 ^ 16
    → current.height < 2 ^ 16
    → is_computable current content ≡ true
unfolding is_computable
computable_lem current content (cw, ch, cw', ch') w h =
    let p : current.width * content.height ≤ 65535 * 32767 =
      mul-le-mul {n₂ = 65535} {m₂ = 32767} (omega (arith, w)) (omega (arith, ch')) in
    let q : current.height * content.width ≤ 65535 * 32767 =
      mul-le-mul {n₂ = 65535} {m₂ = 32767} (omega (arith, h)) (omega (arith, cw')) in
    ground (arith, p, q, cw, ch)

-- A window of the aspect ratio of the content, as large as a limit allows.
pub record IsFit (limit content size : Size) : Type 0 where
  pub width_inside : size.width ≤ limit.width
  pub height_inside : size.height ≤ limit.height
  pub touches : (size.width ≡ limit.width) ⊎ (size.height ≡ limit.height)
  pub optimal : KeepsRatio size content

pub shrunk-IsFit :
    (limit content : Size)
    → 0 < content.width
    → 0 < content.height
    → limit.width < 2 ^ 16
    → limit.height < 2 ^ 16
    → IsFit limit content (shrunk limit content)
unfolding shrunk
shrunk-IsFit limit content cw ch lw lh =
    branch (is_optimal_size limit content)
      (ltb (content.height * limit.width) (content.width * limit.height)) refl refl
  where
    branch :
        (b c : Bool)
        → is_optimal_size limit content ≡ b
        → ltb (content.height * limit.width) (content.width * limit.height) ≡ c
        → IsFit limit content (
            if b
            then limit
            else if c
            then record limit { height = u16 (content.height * limit.width / content.width) }
            else record limit { width = u16 (content.width * limit.height / content.height) })
    branch true c e f = record {
      width_inside = omega arith;
      height_inside = omega arith;
      touches = inl refl;
      optimal = optimal-KeepsRatio limit content e;
    }
    branch false true e f =
        let l : content.height * limit.width / content.width < limit.height =
          narrower limit.width limit.height content.width content.height cw (ltb→lt _ _ f) in
        let k : u16 (content.height * limit.width / content.width)
            ≡ content.height * limit.width / content.width =
          mod-eq_of_lt (omega (arith, l, lh)) in
        record {
          width_inside = omega arith;
          height_inside = omega (arith, l, k);
          touches = inl refl;
          optimal = optimal-KeepsRatio _ content (optimal_height _ content k);
        }
    branch false false e f =
        let l : content.width * limit.height / content.height ≤ limit.width =
          shorter limit.width limit.height content.width content.height ch (ground (arith, f)) in
        let k : u16 (content.width * limit.height / content.height)
            ≡ content.width * limit.height / content.height =
          mod-eq_of_lt (omega (arith, l, lw)) in
        record {
          width_inside = omega (arith, l, k);
          height_inside = omega arith;
          touches = inr refl;
          optimal = optimal-KeepsRatio _ content (optimal_width _ content k);
        }

limited_bound :
    (current : Size) (bounds : Option Size)
    → current.width < 2 ^ 16
    → current.height < 2 ^ 16
    → ((limited current bounds).width < 2 ^ 16) × ((limited current bounds).height < 2 ^ 16)
unfolding limited
limited_bound current none w h = (w, h)
limited_bound current (some display) w h = (omega (arith, w), omega (arith, h))

pub get_optimal_size-IsFit :
    (current content : Size) (within_display_bounds : Bool) (usable : Option Size)
    → IsProper content
    → current.width < 2 ^ 16
    → current.height < 2 ^ 16
    → (size : Size) × (get_optimal_size current content within_display_bounds usable ≡ some size)
      × IsFit
          (limited current
            (if within_display_bounds then get_preferred_display_bounds usable else none))
          content
          size
unfolding get_optimal_size
get_optimal_size-IsFit current content within_display_bounds usable p lw lh =
    let window_size =
      limited current
        (if within_display_bounds then get_preferred_display_bounds usable else none) in
    let bounds =
      limited_bound current
        (if within_display_bounds then get_preferred_display_bounds usable else none) lw lh in
    let not_empty : ((content.width == 0) || (content.height == 0)) ≡ false = ground (arith, p) in
    let enough : is_computable window_size content ≡ true =
      computable_lem window_size content p bounds.0 bounds.1 in
    (
      shrunk window_size content,
      rw (get_optimal_size, not_empty, enough),
      shrunk-IsFit window_size content p.0 p.1 bounds.0 bounds.1,
    )

-- The size of the first window can be computed for such a content.
pub initial_lem :
    (content : Size) (req_width req_height : ℕ) (usable : Option Size)
    → IsProper content
    → (size : Size) × (get_initial_optimal_size content req_width req_height usable ≡ some size)
unfolding get_initial_optimal_size
initial_lem content req_width req_height usable p =
    elim (Bool-cases (req_width == 0 && req_height == 0)) [
      | inl t ↦
          let (size, e, fit) =
            get_optimal_size-IsFit content content true usable p (omega (arith, p))
              (omega (arith, p)) in
          (size, rw t e)
      | inr f ↦
          let divides : ((req_width == 0 && content.height == 0)
                || (req_height == 0 && content.width == 0))
              ≡ false =
            ground (arith, p) in
          (
            record {
              width =
                  if req_width == 0
                  then u16 (req_height * content.width % 2 ^ 32 / content.height)
                  else req_width;
              height =
                  if req_height == 0
                  then u16 (req_width * content.height % 2 ^ 32 / content.width)
                  else req_height;
            },
            rw (f, divides),
          )
    ]

-- The rectangle of a content in the middle of a drawable.
pub record IsInside (drawable content : Size) (rect : Rect) : Type 0 where
  pub centered :
      (2 * rect.left + rect.across ≤ drawable.width)
      × (drawable.width ≤ 2 * rect.left + rect.across + 1)
  pub middle :
      (2 * rect.top + rect.down ≤ drawable.height)
      × (drawable.height ≤ 2 * rect.top + rect.down + 1)
  pub meets : (rect.across ≡ drawable.width) ⊎ (rect.down ≡ drawable.height)
  pub keeps_ratio : KeepsRatio (record { width = rect.across; height = rect.down }) content

-- When the content is not empty and its sizes are below `2 ^ 15`, `sc_screen_update_content_rect`
-- overflows no product and divides by nothing that is zero. It puts the content in the middle of
-- the drawable, inside it, to the pixel; it meets the borders in one dimension at least, and one of
-- its dimensions is the other times the ratio of the content, rounded down.
pub content_rect-IsInside :
    (drawable content : Size)
    → IsProper content
    → drawable.width < 2 ^ 16
    → drawable.height < 2 ^ 16
    → (rect : Rect) × (content_rect drawable content ≡ some rect) × IsInside drawable content rect
unfolding content_rect
content_rect-IsInside drawable content p dw dh =
    let enough : is_computable drawable content ≡ true = computable_lem drawable content p dw dh in
    (
      _,
      rw enough,
      branch (is_optimal_size drawable content)
          (ltb (content.height * drawable.width) (content.width * drawable.height)) refl refl,
    )
  where
    rect_h : ℕ
    rect_h = drawable.width * content.height / content.width

    rect_w : ℕ
    rect_w = drawable.height * content.width / content.height

    branch :
        (b c : Bool)
        → is_optimal_size drawable content ≡ b
        → ltb (content.height * drawable.width) (content.width * drawable.height) ≡ c
        → IsInside drawable content (
            if b
            then record { left = 0; top = 0; across = drawable.width; down = drawable.height }
            else if c
            then record {
              left = 0;
              top = (drawable.height - rect_h) / 2;
              across = drawable.width;
              down = rect_h;
            }
            else record {
              left = (drawable.width - rect_w) / 2;
              top = 0;
              across = rect_w;
              down = drawable.height;
            })
    branch true c e f = record {
      centered = (omega arith, omega arith);
      middle = (omega arith, omega arith);
      meets = inl refl;
      keeps_ratio = optimal-KeepsRatio drawable content e;
    }
    branch false true e f =
        let k : rect_h ≡ content.height * drawable.width / content.width =
          ap (λ n. n / content.width) (mul_comm drawable.width content.height) in
        let l : rect_h < drawable.height = omega (
          arith,
          k,
          narrower drawable.width drawable.height content.width content.height p.0 (ltb→lt _ _ f),
        ) in
        record {
          centered = (omega arith, omega arith);
          middle = (omega (arith, l), omega (arith, l));
          meets = inl refl;
          keeps_ratio = optimal-KeepsRatio _ content (optimal_height _ content k);
        }
    branch false false e f =
        let k : rect_w ≡ content.width * drawable.height / content.height =
          ap (λ n. n / content.height) (mul_comm drawable.height content.width) in
        let l : rect_w ≤ drawable.width = omega (
          arith,
          k,
          shorter drawable.width drawable.height content.width content.height p.1
              (ground (arith, f)),
        ) in
        record {
          centered = (omega (arith, l), omega (arith, l));
          middle = (omega arith, omega arith);
          meets = inr refl;
          keeps_ratio = optimal-KeepsRatio _ content (optimal_width _ content k);
        }
