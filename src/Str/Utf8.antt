-- ===== src/Str/Utf8.antt =====
-- `sc_str_utf8_truncation_index`: where a text is cut.
use cicy_agent_adr.Prelude.{
  ℕ, zero, suc, ◌≤◌, ◌<◌, ◌≡◌, sym, subst, ◌∙◌, Bool, false≢true, ◌&&◌, not, if◌then◌else◌, ltb,
  true, false, some, arith, length, Bool-cases, inl, inr, leb, leb→le, refl, ap, [], ◌∷◌,
}
use native.Mathlib.Decide.{ℕ_discrete}
use native.Mathlib.Nat.{le_refl}
use cicy_agent_adr.Str.{CString, char_at, is_continuation, truncation_loop, utf8_truncation_index}

-- The bytes 10xxxxxx of the UTF-8 encoding, which continue a character.
abbrev pub IsContinuation : ℕ → Type 0
IsContinuation c = (128 ≤ c) × (c < 192)

-- A cut at `n` splits no character: the text ends there, or a character starts there.
abbrev pub IsBoundary : CString → ℕ → Type 0
IsBoundary s n = ¬ (IsContinuation (char_at s n))

-- The characters of a text are bytes.
abbrev pub AreBytes : CString → Type 0
AreBytes [] = Unit {0}
AreBytes (c ∷ s) = (c < 256) × AreBytes s

-- The text consists of bytes, and it does not start inside a character.
abbrev pub IsText : CString → Type 0
IsText s = AreBytes s × IsBoundary s 0

-- The greatest cut that is at most `max_len` long.
pub record IsCut (s : CString) (max_len n : ℕ) : Type 0 where
  pub short : n ≤ max_len
  pub inside : n ≤ length s
  pub boundary : IsBoundary s n
  pub greatest : (k : ℕ) → k ≤ max_len → k ≤ length s → IsBoundary s k → k ≤ n

char_at_end : (s : CString) → char_at s (length s) ≡ 0
char_at_end [] = refl
char_at_end (c ∷ s) = char_at_end s

-- A test on the numbers below `n`.
unfoldable all_below : ℕ → (ℕ → Bool) → Bool
all_below zero test = true
all_below (suc n) test = test n && all_below n test

both : (a b : Bool) → (a && b) ≡ true → (a ≡ true) × (b ≡ true)
both true b h = (refl, h)
both false b h = absurd (false≢true h)

all_below_lem :
    (n : ℕ) (test : ℕ → Bool) → all_below n test ≡ true → (k : ℕ) → k < n → test k ≡ true
unfolding all_below
all_below_lem zero test h k l = absurd (omega (arith, l))
all_below_lem (suc n) test h k l = elim (ℕ_discrete k n) [
  | yes e ↦ ap test e ∙ (both (test n) (all_below n test) h).0
  | no ne ↦ all_below_lem n test (both (test n) (all_below n test) h).1 k (omega arith)
]

abbrev agrees : ℕ → Bool
agrees c = if is_continuation c then leb 128 c && ltb c 192 else not (leb 128 c && ltb c 192)

-- The masks of the source against the range of the bytes.
masks_lem : (c : ℕ) → c < 256 → agrees c ≡ true
unfolding all_below is_continuation
masks_lem = all_below_lem 256 agrees refl

IsContinuation-true : (c : ℕ) → c < 256 → is_continuation c ≡ true → IsContinuation c
IsContinuation-true c h e =
    let t : (leb 128 c && ltb c 192) ≡ true =
      sym (ap (λ b. if b then leb 128 c && ltb c 192 else not (leb 128 c && ltb c 192)) e)
      ∙ masks_lem c h in
    ground (arith, t)

IsContinuation-false : (c : ℕ) → c < 256 → is_continuation c ≡ false → ¬ (IsContinuation c)
IsContinuation-false c h e (lo, hi) =
    let t : not (leb 128 c && ltb c 192) ≡ true =
      sym (ap (λ b. if b then leb 128 c && ltb c 192 else not (leb 128 c && ltb c 192)) e)
      ∙ masks_lem c h in
    ground (arith, t, lo, hi)

byte_at : (s : CString) (i : ℕ) → AreBytes s → char_at s i < 256
byte_at [] zero h = omega arith
byte_at [] (suc i) h = omega arith
byte_at (c ∷ s) zero h = h.0
byte_at (c ∷ s) (suc i) h = byte_at s i h.1

end-IsBoundary : (s : CString) → IsBoundary s (length s)
end-IsBoundary s (lo, hi) = omega (arith, lo, char_at_end s)

-- A cut below an index at which no cut is possible.
IsCut-step :
    (s : CString) (len n : ℕ)
    → IsContinuation (char_at s (suc len))
    → IsCut s len n
    → IsCut s (suc len) n
IsCut-step s len n c v = record {
  short = omega arith;
  inside = v.inside;
  boundary = v.boundary;
  greatest = λ k p q b. elim (ℕ_discrete k (suc len)) [
    | yes e ↦ absurd (b (subst (λ t. IsContinuation (char_at s t)) (sym e) c))
    | no ne ↦ v.greatest k (omega arith) q b
  ];
}

-- A text does not start with a continuation byte for the loop either.
starts_lem : (s : CString) → IsText s → is_continuation (char_at s 0) ≡ false
starts_lem s (bytes, t) = elim (Bool-cases (is_continuation (char_at s 0))) [
  | inl c ↦ absurd (t (IsContinuation-true _ (byte_at s 0 bytes) c))
  | inr b ↦ b
]

truncation_loop-IsCut :
    (s : CString) (len : ℕ)
    → IsText s
    → len ≤ length s
    → (n : ℕ) × (truncation_loop s len ≡ some n) × IsCut s len n
unfolding truncation_loop
truncation_loop-IsCut s zero t h = (
  0,
  rw (starts_lem s t),
  record { short = h0; inside = h; boundary = t.1; greatest = λ k p q b. p },
)
  where
    h0 : 0 ≤ 0
    h0 = omega arith
truncation_loop-IsCut s (suc len) t h =
    let (n, e, v) = truncation_loop-IsCut s len t (omega arith) in
    elim (Bool-cases (is_continuation (char_at s (suc len)))) [
      | inl c ↦
          (n, rw c e, IsCut-step s len n (IsContinuation-true _ (byte_at s (suc len) t.0) c) v)
      | inr b ↦ (
        suc len,
        rw b,
        record {
          short = le_refl (suc len);
          inside = h;
          boundary = IsContinuation-false _ (byte_at s (suc len) t.0) b;
          greatest = λ k p q d. p;
        },
      )
    ]

-- On a text of bytes that does not start inside a character, the function returns a value, without
-- reading outside the text: the greatest length, at most `max_len` and at most that of the text, at
-- which a cut splits no character. A character is split where a byte of 128 to 191 follows.
pub truncation_index-IsCut :
    (s : CString) (max_len : ℕ)
    → IsText s
    → (n : ℕ) × (utf8_truncation_index s max_len ≡ some n) × IsCut s max_len n
unfolding utf8_truncation_index
truncation_index-IsCut s max_len t = elim (Bool-cases (leb (length s) max_len)) [
  | inl fits ↦ (
    length s,
    rw fits,
    record {
      short = leb→le _ _ fits;
      inside = le_refl (length s);
      boundary = end-IsBoundary s;
      greatest = λ k p q b. q;
    },
  )
  | inr long ↦ let (n, e, v) = truncation_loop-IsCut s max_len t (ground arith) in (n, rw long e, v)
]
