-- ===== src/Str/Tokens.antt =====
-- `sc_str_list_contains` of scrcpy/app/src/util/str.c.
use cicy_agent_adr.Prelude.{
  ℕ, zero, suc, ◌≤◌, ◌<◌, ◌≡◌, ◌≢◌, refl, sym, ap, ◌∙◌, Bool, true, false, false≢true, ◌&&◌, ◌||◌,
  Option, none, some, List, [], ◌∷◌, length, length-drop, take_all, take, drop, ◌==◌, arith,
  if◌then◌else◌,
}
use cicy_agent_adr.Str.{CString}

-- `strchr(s, c)`, as an index: the 0 that ends the string is found as any other character.
unfoldable pub strchr : CString → ℕ → Option ℕ
strchr [] c = if c == 0 then some 0 else none
strchr (x ∷ xs) c =
    let rest = strchr xs c in
    if x == c then some 0 else elim rest [ none ↦ none | some i ↦ some (suc i) ]

-- `!strncmp(s, t, n)`; the bytes of a string are not 0, so that its end differs from each of them.
unfoldable pub same_up_to : CString → CString → ℕ → Bool
same_up_to s t zero = true
same_up_to [] [] (suc n) = true
same_up_to [] (y ∷ t) (suc n) = false
same_up_to (x ∷ s) [] (suc n) = false
same_up_to (x ∷ s) (y ∷ t) (suc n) = x == y && same_up_to s t n

-- Behind an item that ends at a separator: found, or on with `list = p + 1`.
abbrev pub next : (found at_end : Bool) → Option Bool → Option Bool
next true at_end rest = some true
next false true rest = none
next false false rest = rest

-- The loop of `sc_str_list_contains`, on a round for each item of the list. `none` is a step behind
-- the 0 that ends the list, from where the loop reads outside the string.
unfoldable pub contains_loop : ℕ → CString → ℕ → CString → Option Bool
unfolding strchr same_up_to
contains_loop zero list sep s = none
contains_loop (suc rounds) list sep s = elim (strchr list sep) [
  | none ↦ some (same_up_to list s (length list))
  | some p ↦
      next (same_up_to list s p) (p == length list) (contains_loop rounds (drop (suc p) list) sep s)
]

-- `sc_str_list_contains`; each round but the last takes a separator off the list.
unfoldable pub list_contains : CString → ℕ → CString → Option Bool
unfolding contains_loop
list_contains list sep s = contains_loop (suc (length list)) list sep s

-- The items of a list between its separators.
abbrev cons_first : ℕ → List CString → List CString
cons_first c [] = (c ∷ []) ∷ []
cons_first c (item ∷ items) = (c ∷ item) ∷ items

abbrev pub list_items : ℕ → CString → List CString
list_items sep [] = [] ∷ []
list_items sep (c ∷ list) =
    let rest = list_items sep list in if c == sep then [] ∷ rest else cons_first c rest

abbrev pub is_prefix : CString → CString → Bool
is_prefix [] s = true
is_prefix (x ∷ item) [] = false
is_prefix (x ∷ item) (y ∷ s) = x == y && is_prefix item s

abbrev pub any_prefix : List CString → CString → Bool
any_prefix [] s = false
any_prefix (item ∷ items) s = is_prefix item s || any_prefix items s

same_up_to_lem : (s t : CString) (n : ℕ) → n ≤ length s → same_up_to s t n ≡ is_prefix (take n s) t
unfolding same_up_to
same_up_to_lem s t zero h = refl
same_up_to_lem [] t (suc n) h = absurd (omega (arith, h))
same_up_to_lem (x ∷ s) [] (suc n) h = refl
same_up_to_lem (x ∷ s) (y ∷ t) (suc n) h =
    ap (λ b. x == y && b) (same_up_to_lem s t n (omega (arith, h)))

-- The first item ends at the first separator.
abbrev FirstItem : ℕ → CString → Option ℕ → Type 0
FirstItem sep list none = list_items sep list ≡ list ∷ []
FirstItem sep list (some p) =
    (p < length list) × (list_items sep list ≡ take p list ∷ list_items sep (drop (suc p) list))

strchr-FirstItem : (sep : ℕ) (list : CString) → sep ≢ 0 → FirstItem sep list (strchr list sep)
unfolding strchr
strchr-FirstItem sep [] h = at_nul (sep == 0) (ground (arith, h))
  where
    at_nul : (b : Bool) → b ≡ false → FirstItem sep [] (if b then some 0 else none)
    at_nul true e = absurd (false≢true (sym e))
    at_nul false e = refl
strchr-FirstItem sep (c ∷ list) h =
    branch (c == sep) refl (strchr list sep) (strchr-FirstItem sep list h)
  where
    branch :
        (b : Bool)
        → (c == sep) ≡ b
        → (o : Option ℕ) → FirstItem sep list o
        → FirstItem sep
            (c ∷ list)
            (if b then some 0 else elim o [ none ↦ none | some i ↦ some (suc i) ])
    branch true e o f = (
      omega arith,
      ap (λ b. if b then [] ∷ list_items sep list else cons_first c (list_items sep list)) e,
    )
    branch false e none f =
        ap (λ b. if b then [] ∷ list_items sep list else cons_first c (list_items sep list)) e
        ∙ ap (cons_first c) f
    branch false e (some i) (l, f) = (
      omega (arith, l),
      ap (λ b. if b then [] ∷ list_items sep list else cons_first c (list_items sep list)) e
          ∙ ap (cons_first c) f,
    )

or_false : (b : Bool) → b ≡ (b || false)
or_false true = refl
or_false false = refl

next_lem :
    (found found' at_end : Bool) (o : Option Bool) (r : Bool)
    → found ≡ found'
    → at_end ≡ false
    → o ≡ some r
    → next found at_end o ≡ some (found' || r)
next_lem found true at_end o r e f k = ap (λ b. next b at_end o) e
next_lem found false at_end o r e f k = ap (λ b. next b at_end o) e ∙ ap (λ b. next false b o) f ∙ k

contains_loop_lem :
    (rounds : ℕ) (list : CString) (sep : ℕ) (s : CString)
    → sep ≢ 0
    → length list < rounds
    → contains_loop rounds list sep s ≡ some (any_prefix (list_items sep list) s)
unfolding contains_loop
contains_loop_lem zero list sep s ne h = absurd (omega (arith, h))
contains_loop_lem (suc rounds) list sep s ne h =
    branch (strchr list sep) (strchr-FirstItem sep list ne) (λ p l.
      contains_loop_lem rounds (drop (suc p) list) sep s ne
        (omega (arith, h, l, length-drop (suc p) list)))
  where
    branch :
        (o : Option ℕ)
        → FirstItem sep list o
        → ((p : ℕ)
            → p < length list
            → contains_loop rounds (drop (suc p) list) sep s
              ≡ some (any_prefix (list_items sep (drop (suc p) list)) s))
        → (elim o [
          | none ↦ some (same_up_to list s (length list))
          | some p ↦
              next
                (same_up_to list s p)
                (p == length list)
                (contains_loop rounds (drop (suc p) list) sep s)
        ])
          ≡ some (any_prefix (list_items sep list) s)
    branch none f r = ap some (
        same_up_to_lem list s (length list) (omega arith)
        ∙ ap (λ t. is_prefix t s) (take_all (length list) list (omega arith))
        ∙ or_false (is_prefix list s)
        ∙ ap (λ items. any_prefix items s) (sym f))
    branch (some p) (l, f) r =
        next_lem (same_up_to list s p) (is_prefix (take p list) s) (p == length list) _ _
          (same_up_to_lem list s p (omega (arith, l))) (ground (arith, l)) (r p l)
        ∙ ap (λ items. some (any_prefix items s)) (sym f)

-- For a separator that is not 0, `sc_str_list_contains` reads nothing outside the list, and tells
-- whether an item of the list is a prefix of the string, the empty item included, and not whether
-- one is equal to it.
pub list_contains_lem :
    (list : CString) (sep : ℕ) (s : CString)
    → sep ≢ 0
    → list_contains list sep s ≡ some (any_prefix (list_items sep list) s)
unfolding list_contains
list_contains_lem list sep s ne = contains_loop_lem (suc (length list)) list sep s ne (omega arith)
