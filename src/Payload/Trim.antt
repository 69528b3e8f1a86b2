-- ===== src/Payload/Trim.antt =====
-- `truncate_bytes`, `_cut_at_name_boundary` and `fit_to_budget` (payload.py). A text's `len` is the
-- number of its UTF-8 bytes; the serialized size of a dictionary is a parameter.
use Prim.Native.Char.{len_utf8}
use Prim.Native.String.{len}
use text.Mathlib.Text.{starts_with}
use cap_alerts.Prelude.{
  ℕ, ◌-◌, String, Bool, not, Option, none, some, List, [], ◌∷◌, ◌==◌, ltb, leb, if◌then◌else◌,
  is_empty,
}
use cap_alerts.Prelude.Lists.{contains}
use cap_alerts.Prelude.Text.{concat}
use cap_alerts.Dict
use cap_alerts.Dict.{Dict}
use cap_alerts.Model.Json.{Json, string, object, array, number, boolean, absent}

-- The characters whose bytes all lie among the first `n`: `encoded[:n].decode(errors="ignore")`.
unfoldable pub prefix_within : ℕ → String → String
prefix_within n String.[] = ""
prefix_within n (String.◌∷◌ c text) =
    let rest = String.◌∷◌ c (prefix_within (n - len_utf8 c) text) in
    if leb (len_utf8 c) n then rest else ""

-- `truncate_bytes`
unfoldable pub truncate_bytes : String → ℕ → String
unfolding prefix_within
truncate_bytes text limit_bytes =
    if is_empty text
    then text
    else if leb (len text) limit_bytes
    then text
    else if leb limit_bytes 3
    then "…"
    else concat (prefix_within (limit_bytes - 3) text) "…"

-- `text.removesuffix("…")`
unfoldable pub without_ellipsis : String → String
without_ellipsis String.[] = ""
without_ellipsis (String.◌∷◌ c text) =
    let rest = String.◌∷◌ c (without_ellipsis text) in if String.◌∷◌ c text == "…" then "" else rest

-- `body[:body.rfind(", ")]`, or `none` where `rfind` answers -1.
unfoldable pub before_last : String → Option String
before_last String.[] = none
before_last (String.◌∷◌ c text) = elim (before_last text) [
  | some before ↦ some (String.◌∷◌ c before)
  | none ↦ if starts_with (String.◌∷◌ c text) ", " then some "" else none
]

abbrev pub cut_to : Option String → String → String
cut_to none text = text
cut_to (some before) text = if is_empty before then text else concat before "…"

-- `_cut_at_name_boundary`
unfoldable pub cut_at_name_boundary : String → String
unfolding without_ellipsis before_last
cut_at_name_boundary text = cut_to (before_last (without_ellipsis text)) text

-- `_RECORDER_EXCLUDED` and `UNRECORDED_ATTRIBUTES`
abbrev pub excluded : List String
excluded = "attribution" ∷ "restored" ∷ "supported_features" ∷ "parameters" ∷ "geocodes" ∷ []

-- `TRIM_PRIORITY`
abbrev pub trim_priority : List String
trim_priority =
    "description_alt" ∷ "instruction_alt" ∷ "area_desc" ∷ "description" ∷ "instruction" ∷ []

-- `_MIN_TEXT_KEEP`
abbrev pub min_text_keep : ℕ
min_text_keep = 160

-- `PAYLOAD_BUDGET`
abbrev pub payload_budget : ℕ
payload_budget = 16_384 - 584

abbrev pub Attrs : Type 0
Attrs = Dict Json

abbrev pub recorded : String → Json → Bool
recorded key value = not (contains key excluded)

abbrev pub text_of : Option Json → Option String
text_of (some (string text)) = if is_empty text then none else some text
text_of (some (object m)) = none
text_of (some (array es)) = none
text_of (some (number n)) = none
text_of (some (boolean b)) = none
text_of (some absent) = none
text_of none = none

-- The text under a key, where there is one that is not empty.
abbrev pub text_at : String → Attrs → Option String
text_at key attrs = text_of (Dict.get key attrs)

-- The new text of a field of which `room` bytes may stay.
abbrev pub shortened : String → String → ℕ → String
unfolding truncate_bytes cut_at_name_boundary
shortened key text room =
    if key == "area_desc"
    then cut_at_name_boundary (truncate_bytes text room)
    else truncate_bytes text room

-- One rung of the ladder.
unfoldable pub spend : String → String → ℕ → Attrs → Attrs
unfolding truncate_bytes cut_at_name_boundary
spend key text room trimmed =
    if ltb room min_text_keep
    then Dict.remove key trimmed
    else Dict.put key (string (shortened key text room)) trimmed

-- How the loop ends: with a size within the budget or none at all, or past its last key.
pub data Trimmed : Type 0 where
  fits over : Attrs → Trimmed

abbrev pub attrs_of : Trimmed → Attrs
attrs_of (fits attrs) = attrs
attrs_of (over attrs) = attrs

-- `len(_serialize(...))`, where `none` is a `TypeError`.
module _ (size_of : Attrs → Option ℕ) where
  -- `measure`
  abbrev pub measure : Attrs → Option ℕ
  measure attrs = size_of (Dict.restrict recorded attrs)

  -- The loop over `TRIM_PRIORITY`.
  unfoldable pub trim_loop : ℕ → List String → ℕ → Attrs → Trimmed
  unfolding spend
  trim_loop budget [] size trimmed = over trimmed
  trim_loop budget (key ∷ keys) size trimmed = elim (text_at key trimmed) [
    | none ↦ trim_loop budget keys size trimmed
    | some text ↦
        let trimmed' = spend key text (len text - (size - budget)) trimmed in
        elim (measure trimmed') [
          | none ↦ fits trimmed'
          | some size' ↦
              let rest = trim_loop budget keys size' trimmed' in
              if leb size' budget then fits trimmed' else rest
        ]
  ]

  -- `fit_to_budget`
  unfoldable pub fit_to_budget : ℕ → Attrs → Trimmed
  unfolding trim_loop
  fit_to_budget budget attrs = elim (measure attrs) [
    | none ↦ fits attrs
    | some size ↦
        let trimmed = trim_loop budget trim_priority size attrs in
        if leb size budget then fits attrs else trimmed
  ]
