-- ===== src/Samples/PayloadRuns.antt =====
-- Runs of the recorder payload's trimming (payload.py).
use Prim.Native.String.{len}
use text.Mathlib.TextPositions.{len-append}
use cap_alerts.Prelude.{
  ℕ, ◌+◌, ◌≤◌, ◌<◌, ◌≡◌, ◌⊎◌, inl, inr, refl, String, Option, some, [], ◌∷◌, ◌==◌, arith,
  Bool-cases,
}
use cap_alerts.Prelude.Text.{concat}
use cap_alerts.Dict
use cap_alerts.Model.Json.{Json, string, object, array, number, boolean, absent}
use cap_alerts.Payload.Trim.{
  Attrs, fits, attrs_of, fit_to_budget, trim_loop, spend, truncate_bytes, prefix_within,
  before_last, without_ellipsis, cut_at_name_boundary,
}
use cap_alerts.Payload.Longest.{LongestCut, truncate_bytes-bounded}
use cap_alerts.Payload.Budget.{IsJsonSize, Settled, fit_to_budget-Settled, get-fit_to_budget}

abbrev weight_of : Json → ℕ
weight_of (string text) = len text
weight_of (object m) = 2
weight_of (array es) = 2
weight_of (number n) = 1
weight_of (boolean b) = 4
weight_of absent = 4

abbrev weight : Attrs → ℕ
weight [] = 2
weight ((key, value) ∷ attrs) = len key + weight_of value + weight attrs

-- A size without quotes and separators.
abbrev plain_size : Attrs → Option ℕ
plain_size attrs = some (weight attrs)

weight-put :
    (key text new : String) (attrs : Attrs)
    → Dict.get key attrs ≡ some (string text)
    → weight (Dict.put key (string new) attrs) + len text ≡ weight attrs + len new
unfolding Dict.get Dict.put
weight-put key text new [] e = absurd (ground arith)
weight-put key text new ((i, value) ∷ attrs) e = elim (Bool-cases (i == key)) [
  | inl q ↦ let same : value ≡ string text = cc (rw q at e) in rw (q, same) (omega arith)
  | inr q ↦ rw q (omega (arith, weight-put key text new attrs (rw q at e)))
]

size_some : {n m : ℕ} → some n ≡ some m → n ≡ m
size_some e = cc e

plain_size-IsJsonSize : IsJsonSize plain_size
plain_size-IsJsonSize = record {
  saves = λ key text short attrs n m prefix at before after. omega (
    arith,
    weight-put key text (concat short "…") attrs at,
    size_some before,
    size_some after,
    len-append short "…",
    ellipsis,
  );
}
  where
    ellipsis : len "…" ≡ 3
    ellipsis = refl

abbrev attrs : Attrs
attrs =
    ("id", string "a1")
    ∷ ("parameters", string "unrecorded")
    ∷ ("description_alt", string "Une longue description.")
    ∷ ("description", string "A long description.")
    ∷ []

-- The text in the other language goes, the other attributes stay.
fitted :
    fit_to_budget plain_size 50 attrs
    ≡ fits (
        ("id", string "a1")
        ∷ ("parameters", string "unrecorded")
        ∷ ("description", string "A long description.")
        ∷ [])
unfolding fit_to_budget trim_loop spend Dict.get Dict.put Dict.remove Dict.restrict
fitted = refl

cut_names : cut_at_name_boundary "Baldwin, Mobile, Esc…" ≡ "Baldwin, Mobile…"
unfolding cut_at_name_boundary before_last without_ellipsis
cut_names = refl

cut_bytes : truncate_bytes "données !" 8 ≡ "donn…"
unfolding truncate_bytes prefix_within
cut_bytes = refl

fit_to_budget-Settled_example : Settled plain_size 50 (fit_to_budget plain_size 50 attrs)
fit_to_budget-Settled_example = fit_to_budget-Settled plain_size 50 attrs plain_size-IsJsonSize

get-fit_to_budget_example :
    Dict.get "id" (attrs_of (fit_to_budget plain_size 50 attrs)) ≡ Dict.get "id" attrs
get-fit_to_budget_example = get-fit_to_budget plain_size 50 attrs "id" refl

truncate_bytes-bounded_example :
    ((len "données !" ≤ 8) × (truncate_bytes "données !" 8 ≡ "données !"))
    ⊎ ((8 < len "données !") × LongestCut "données !" 8 (truncate_bytes "données !" 8))
truncate_bytes-bounded_example = truncate_bytes-bounded "données !" 8 (omega arith)
