-- ===== src/Binary/Fixed.antt =====
-- `sc_float_to_u16fp` and `sc_float_to_i16fp` of util/binary.h.
-- A finite C `float` is a dyadic rational: here its sign, and the magnitude `mantissa / 2 ^ scale`.
-- Scaling by a power of two is exact, and the conversion to an integer type drops the fraction.
use cicy_agent_adr.Prelude.{
  ℕ, zero, suc, ◌+◌, ◌-◌, ◌*◌, ◌/◌, ◌%◌, ◌^◌, ◌≤◌, ◌<◌, ◌≡◌, ◌⊎◌, inl, inr, refl, sym, subst, Bool,
  true, false, ◌&&◌, ◌||◌, not, Option, none, some, arith, leb, ltb, ◌==◌, if◌then◌else◌,
}
use native.Mathlib.Nat.{pow-suc, div-le_of_le-mul, div-mul-le_self, div-lt_iff_lt-mul}
use native.Mathlib.Decide.{dec_lt, ℕ_discrete}

pub record Float : Type 0 where
  pub negative : Bool
  pub mantissa : ℕ
  pub scale : ℕ

-- `|f| * 2 ^ bits` without its fraction.
unfoldable pub scaled : Float → ℕ → ℕ
scaled f bits = f.mantissa * 2 ^ bits / 2 ^ f.scale

-- `f >= 0.0f`, and `f >= -1.0f && f <= 1.0f` without the sign
abbrev pub is_nonnegative : Float → Bool
is_nonnegative f = not f.negative || f.mantissa == 0

abbrev pub is_at_most_1 : Float → Bool
is_at_most_1 f = leb f.mantissa (2 ^ f.scale)

-- The end of both conversions: `most` and above, of which only `top` is asserted.
abbrev pub saturated : (most top value : ℕ) → Option ℕ
saturated most top value =
    if leb most value then (if value == top then some most else none) else some value

-- `sc_float_to_u16fp`; `none` is a failed assertion.
unfoldable pub float_to_u16fp : Float → Option ℕ
unfolding scaled
float_to_u16fp f =
    if is_nonnegative f && is_at_most_1 f then saturated 0xffff 0x10000 (scaled f 16) else none

-- `sc_float_to_i16fp`, as the two's complement pattern of the `int16_t`; `i >= -0x8000` holds.
unfoldable pub float_to_i16fp : Float → Option ℕ
unfolding scaled
float_to_i16fp f =
    if is_at_most_1 f
    then (if f.negative
        then some ((2 ^ 16 - scaled f 15) % 2 ^ 16)
        else saturated 0x7fff 0x8000 (scaled f 15))
    else none

-- The two asserted ranges.
abbrev pub IsUnit01 : Float → Type 0
IsUnit01 f = (f.negative ≡ false) × (f.mantissa ≤ 2 ^ f.scale)

abbrev pub IsUnit11 : Float → Type 0
IsUnit11 f = f.mantissa ≤ 2 ^ f.scale

-- `CLAMP(f / 16, -1, 1)`
unfoldable pub scroll_norm : Float → Float
scroll_norm f =
    if ltb (2 ^ (f.scale + 4)) f.mantissa
    then record f { mantissa = 1; scale = 0 }
    else record f { scale = f.scale + 4 }

scaled-le : (f : Float) (bits : ℕ) → f.mantissa ≤ 2 ^ f.scale → scaled f bits ≤ 2 ^ bits
unfolding scaled
scaled-le f bits h = div-le_of_le-mul (2 ^ f.scale) (grind arith)

-- The whole part of a magnitude times a power of two.
abbrev pub IsWhole : (bits : ℕ) → Float → ℕ → Type 0
IsWhole bits f n =
    (n * 2 ^ f.scale ≤ f.mantissa * 2 ^ bits) × (f.mantissa * 2 ^ bits < suc n * 2 ^ f.scale)

pub pow_pos : (n : ℕ) → 0 < 2 ^ n
pow_pos zero = omega arith
pow_pos (suc n) = omega (arith, pow_pos n, pow-suc 2 n)

scaled-IsWhole : (f : Float) (bits : ℕ) → IsWhole bits f (scaled f bits)
unfolding scaled
scaled-IsWhole f bits = (
  div-mul-le_self (f.mantissa * 2 ^ bits) (2 ^ f.scale),
  (div-lt_iff_lt-mul {y = suc (f.mantissa * 2 ^ bits / 2 ^ f.scale)} (pow_pos f.scale)).0
      (omega arith),
)

pub saturated_cases :
    (most value : ℕ)
    → value ≤ suc most
    → ((value < most) × (saturated most (suc most) value ≡ some value))
      ⊎ (((value ≡ most) × (saturated most (suc most) value ≡ none))
          ⊎ ((value ≡ suc most) × (saturated most (suc most) value ≡ some most)))
saturated_cases most value h = elim (dec_lt value most) [
  | yes p ↦ let e : leb most value ≡ false = ground (arith, p) in inl (p, rw e)
  | no p ↦
      let e : leb most value ≡ true = ground (arith, p) in
      elim (ℕ_discrete value (suc most)) [
        | yes q ↦ let g : (value == suc most) ≡ true = ground (arith, q) in inr (inr (q, rw (e, g)))
        | no q ↦
            let g : (value == suc most) ≡ false = ground (arith, q) in
            inr (inl (omega (arith, p, q, h), rw (e, g)))
      ]
]

-- A fixed-point value of 16 bits without a sign: of 1 the greatest, and else the whole part. There
-- is none for the magnitudes from 0xffff / 0x10000 on that are not 1.
abbrev pub IsU16 : Float → Option ℕ → Type 0
IsU16 f none = (0xffff * 2 ^ f.scale ≤ f.mantissa * 2 ^ 16) × (f.mantissa < 2 ^ f.scale)
IsU16 f (some u) = ((f.mantissa ≡ 2 ^ f.scale) × (u ≡ 0xffff)) ⊎ (IsWhole 16 f u × (u < 0xffff))

-- The same with a sign, in two's complement.
abbrev pub IsI16 : Float → Option ℕ → Type 0
IsI16 f none =
    (f.negative ≡ false) × (0x7fff * 2 ^ f.scale ≤ f.mantissa * 2 ^ 15) × (f.mantissa < 2 ^ f.scale)
IsI16 f (some i) =
    ((f.negative ≡ true) × (n : ℕ) × IsWhole 15 f n × (i ≡ (2 ^ 16 - n) % 2 ^ 16))
    ⊎ ((f.negative ≡ false)
        × (((f.mantissa ≡ 2 ^ f.scale) × (i ≡ 0x7fff)) ⊎ (IsWhole 15 f i × (i < 0x7fff))))

u16_lem : (f : Float) → f.mantissa ≤ 2 ^ f.scale → IsU16 f (saturated 0xffff 0x10000 (scaled f 16))
u16_lem f h = elim (saturated_cases 0xffff (scaled f 16) (scaled-le f 16 h)) [
  | inl (p, e) ↦ subst (IsU16 f) (sym e) (inr (scaled-IsWhole f 16, p))
  | inr (inl (p, e)) ↦
      let (w, v) = subst (IsWhole 16 f) p (scaled-IsWhole f 16) in
      subst (IsU16 f) (sym e) (w, omega (arith, v))
  | inr (inr (p, e)) ↦
      let (w, v) = subst (IsWhole 16 f) p (scaled-IsWhole f 16) in
      subst (IsU16 f) (sym e) (inl (omega (arith, w, h), refl))
]

i16_lem :
    (f : Float)
    → f.negative ≡ false
    → f.mantissa ≤ 2 ^ f.scale
    → IsI16 f (saturated 0x7fff 0x8000 (scaled f 15))
i16_lem f s h = elim (saturated_cases 0x7fff (scaled f 15) (scaled-le f 15 h)) [
  | inl (p, e) ↦ subst (IsI16 f) (sym e) (inr (s, inr (scaled-IsWhole f 15, p)))
  | inr (inl (p, e)) ↦
      let (w, v) = subst (IsWhole 15 f) p (scaled-IsWhole f 15) in
      subst (IsI16 f) (sym e) (s, w, omega (arith, v))
  | inr (inr (p, e)) ↦
      let (w, v) = subst (IsWhole 15 f) p (scaled-IsWhole f 15) in
      subst (IsI16 f) (sym e) (inr (s, inl (omega (arith, w, h), refl)))
]

-- For a float from 0 to 1 `sc_float_to_u16fp` is the whole part of it times `2 ^ 16`, and of 1 the
-- greatest `uint16_t`; for one from -1 to 1 `sc_float_to_i16fp` is the whole part of its magnitude
-- times `2 ^ 15`, with its sign, in two's complement, and of 1 the greatest `int16_t`. The second
-- assertion of each fails exactly between the greatest result and 1, where the whole part is the
-- greatest result although the float is not 1.
pub fixed_lem :
    (f g : Float)
    → IsUnit01 f
    → IsUnit11 g
    → IsU16 f (float_to_u16fp f) × IsI16 g (float_to_i16fp g)
unfolding float_to_u16fp float_to_i16fp
fixed_lem f g (s, h) k = (unsigned, signed g.negative refl)
  where
    at_most : (x : Float) → x.mantissa ≤ 2 ^ x.scale → is_at_most_1 x ≡ true
    at_most x l = ground (arith, l)

    unsigned : IsU16 f (
        if is_nonnegative f && is_at_most_1 f then saturated 0xffff 0x10000 (scaled f 16) else none)
    unsigned =
        let e : is_nonnegative f ≡ true = ground (arith, s) in rw (e, at_most f h) (u16_lem f h)

    signed :
        (b : Bool)
        → g.negative ≡ b
        → IsI16 g (
            if is_at_most_1 g
            then (if b
                then some ((2 ^ 16 - scaled g 15) % 2 ^ 16)
                else saturated 0x7fff 0x8000 (scaled g 15))
            else none)
    signed true e = rw (at_most g k) (inl (e, scaled g 15, scaled-IsWhole g 15, refl))
    signed false e = rw (at_most g k) (i16_lem g e k)
