-- ===== src/Str/Tests.antt =====
-- Concrete texts for util/str.c.
use cicy_agent_adr.Prelude.{
  ℕ, ◌-◌, ◌≡◌, refl, true, none, some, arith, take, length, ltb, ◌∷◌, [], ◌++◌, if◌then◌else◌, ◌<◌,
}
use cicy_agent_adr.Prelude.Memory.{Buffer, memcpy, slice}
use cicy_agent_adr.Str.{CString, strncpy, utf8_truncation_index, truncation_loop, is_continuation}
use cicy_agent_adr.Str.Utf8.{IsCut, truncation_index-IsCut}
use cicy_agent_adr.Str.Copy.{strncpy_lem}
use cicy_agent_adr.Str.Tokens.{list_contains, list_items, any_prefix, list_contains_lem}

-- "aé"
abbrev accented : CString
accented = 97 ∷ 195 ∷ 169 ∷ []

abbrev blank : Buffer
blank _ = 7

truncation_runs : utf8_truncation_index accented 2 ≡ some 1
unfolding utf8_truncation_index truncation_loop is_continuation
truncation_runs = refl

truncation_index-IsCut_example :
    (n : ℕ) × (utf8_truncation_index accented 2 ≡ some n) × IsCut accented 2 n
truncation_index-IsCut_example = truncation_index-IsCut accented 2 (omega arith)

strncpy_runs : slice (strncpy blank accented 3).0 0 4 ≡ 97 ∷ 195 ∷ 0 ∷ 7 ∷ []
unfolding strncpy slice
strncpy_runs = refl

strncpy_lem_example :
    (0 < 3
      → strncpy blank accented 3 ≡ (
        memcpy blank 0 (take (3 - 1) accented ++ (0 ∷ [])),
        if ltb (length accented) 3 then length accented else 3,
      ))
    × (◌≡◌ {A = ℕ} 3 0 → strncpy blank accented 3 ≡ (memcpy blank 0 accented, length accented))
strncpy_lem_example = strncpy_lem blank accented 3 (omega arith) (omega arith)

-- "ab,c" contains "abd", of which "ab" is a prefix.
abbrev items_list : CString
items_list = 97 ∷ 98 ∷ 44 ∷ 99 ∷ []

longer_contained : list_contains items_list 44 (97 ∷ 98 ∷ 100 ∷ []) ≡ some true
unfolding list_contains
longer_contained = refl

-- With the separator 0 the end of the list is a separator, and the loop goes on behind it.
zero_separator : list_contains items_list 0 (98 ∷ []) ≡ none
unfolding list_contains
zero_separator = refl

list_contains_lem_example :
    list_contains items_list 44 (97 ∷ 98 ∷ 100 ∷ [])
    ≡ some (any_prefix (list_items 44 items_list) (97 ∷ 98 ∷ 100 ∷ []))
list_contains_lem_example = list_contains_lem items_list 44 (97 ∷ 98 ∷ 100 ∷ []) (omega arith)
