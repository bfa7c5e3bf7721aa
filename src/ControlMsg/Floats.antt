-- ===== src/ControlMsg/Floats.antt =====
-- Pressures and scrolls as `sc_control_msg_serialize` converts them.
use cicy_agent_adr.Prelude.{
  ℕ, suc, ◌+◌, ◌-◌, ◌*◌, ◌/◌, ◌%◌, ◌^◌, ◌≤◌, ◌≡◌, ◌≢◌, inl, inr, refl, sym, ap, ap₂, ◌∙◌, Bool,
  true, false, false≢true, some, min, arith, ltb, Bool-cases, if◌then◌else◌,
}
use native.Mathlib.Nat.{pow-suc, div-le_of_le-mul, le-div_iff_mul-le, mul-div-mul_right}
use cicy_agent_adr.Binary.Fixed.{
  Float, scaled, float_to_u16fp, float_to_i16fp, scroll_norm, saturated, saturated_cases,
  is_at_most_1, is_nonnegative, pow_pos,
}
use cicy_agent_adr.ControlMsg.Wire.{pressure_value, scroll_value, IsPressure, IsScroll}

-- Without the value below 1 that fails, saturation is a minimum.
saturated-min :
    (most value : ℕ)
    → value ≤ suc most
    → value ≢ most
    → saturated most (suc most) value ≡ some (min value most)
saturated-min most value h ne = elim (saturated_cases most value h) [
  | inl (p, e) ↦ e ∙ ap some (omega (arith, p))
  | inr (inl (p, e)) ↦ absurd (ne p)
  | inr (inr (p, e)) ↦ e ∙ ap some (omega (arith, p))
]

pub pressure_lem : (f : Float) → IsPressure f → float_to_u16fp f ≡ some (pressure_value f)
unfolding float_to_u16fp scaled
pressure_lem f (s, h, ne) =
    let inside : is_at_most_1 f ≡ true = ground (arith, h) in
    let l : f.mantissa * 2 ^ 16 / 2 ^ f.scale ≤ 2 ^ 16 =
      div-le_of_le-mul (2 ^ f.scale) (omega (arith, h)) in
    let nonnegative : is_nonnegative f ≡ true = ground (arith, s) in
    rw (nonnegative, inside) (saturated-min 0xffff (f.mantissa * 2 ^ 16 / 2 ^ f.scale) l ne)

pow_4 : (n : ℕ) → 2 ^ (n + 4) ≡ 2 ^ n * 16
pow_4 n =
    let e : n + 4 ≡ suc (suc (suc (suc n))) = omega arith in
    ap (λ k. 2 ^ k) e
    ∙ omega (
      arith,
      pow-suc 2 (suc (suc (suc n))),
      pow-suc 2 (suc (suc n)),
      pow-suc 2 (suc n),
      pow-suc 2 n,
    )

-- The normalized scroll: its magnitude is at most 1, in units of 2 ^ -15.
norm_lem :
    (f : Float)
    → (is_at_most_1 (scroll_norm f) ≡ true)
      × ((scroll_norm f).negative ≡ f.negative)
      × (scaled (scroll_norm f) 15 ≡ min (f.mantissa * 2 ^ 11 / 2 ^ f.scale) 0x8000)
unfolding scroll_norm scaled
norm_lem f = elim (Bool-cases (ltb (2 ^ (f.scale + 4)) f.mantissa)) [
  | inl over ↦
      let l : 2 ^ 15 ≤ f.mantissa * 2 ^ 11 / 2 ^ f.scale =
        (le-div_iff_mul-le {x = 2 ^ 15} {y = f.mantissa * 2 ^ 11} (pow_pos f.scale)).1
          (ground (arith, over, pow_4 f.scale)) in
      rw over (refl, refl, omega (arith, l))
  | inr inside ↦
      let p : f.mantissa ≤ 2 ^ (f.scale + 4) = ground (arith, inside) in
      let l : f.mantissa * 2 ^ 11 / 2 ^ f.scale ≤ 2 ^ 15 =
        div-le_of_le-mul (2 ^ f.scale) (omega (arith, p, pow_4 f.scale)) in
      let a : f.mantissa * 2 ^ 15 ≡ f.mantissa * 2 ^ 11 * 16 = omega arith in
      let e : f.mantissa * 2 ^ 15 / 2 ^ (f.scale + 4) ≡ f.mantissa * 2 ^ 11 / 2 ^ f.scale =
        ap₂ ◌/◌ a (pow_4 f.scale)
        ∙ mul-div-mul_right (f.mantissa * 2 ^ 11) (2 ^ f.scale) (omega arith) in
      rw inside (ground (arith, p), refl, omega (arith, e, l))
]

pub scroll_lem : (f : Float) → IsScroll f → float_to_i16fp (scroll_norm f) ≡ some (scroll_value f)
unfolding float_to_i16fp
scroll_lem f h =
    let (inside, same, value) = norm_lem f in rw (inside, same, value) (branch f.negative refl)
  where
    n : ℕ
    n = f.mantissa * 2 ^ 11 / 2 ^ f.scale

    branch :
        (b : Bool)
        → f.negative ≡ b
        → (if b
            then some ((2 ^ 16 - min n 0x8000) % 2 ^ 16)
            else saturated 0x7fff 0x8000 (min n 0x8000))
          ≡ some (if b then (2 ^ 16 - min n 0x8000) % 2 ^ 16 else min n 0x7fff)
    branch true e = refl
    branch false e =
        let ne : min n 0x8000 ≢ 0x7fff = elim h [
          | inl t ↦ absurd (false≢true (sym e ∙ t))
          | inr q ↦ λ g. q (omega (arith, g))
        ] in
        saturated-min 0x7fff (min n 0x8000) (omega arith) ne ∙ ap some (omega arith)
