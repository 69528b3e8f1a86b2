-- ===== src/Payload/Budget.antt =====
-- What `fit_to_budget` achieves (payload.py).
use Prim.Native.String.{len}
use cap_alerts.Prelude.{
  ℕ, ◌+◌, ◌-◌, ◌≤◌, ◌<◌, ◌≡◌, ◌⊎◌, inl, inr, refl, sym, ap, ◌∙◌, String, true, false, Option, none,
  some, List, [], ◌∷◌, arith, ltb, leb, Bool-cases, Option-cases,
}
use cap_alerts.Prelude.Lists.{All, contains}
use cap_alerts.Prelude.Text.{concat}
use cap_alerts.Dict
use cap_alerts.Dict.Restrict.{restrict-put, get-restrict}
use cap_alerts.Model.Json.{Json, string}
use cap_alerts.Payload.Trim.{
  Attrs, recorded, excluded, text_of, text_at, shortened, spend, Trimmed, fits, over, attrs_of,
  measure, trim_loop, fit_to_budget, trim_priority, min_text_keep,
}
use cap_alerts.Payload.Rungs.{text_of-some, spend-put, get-spend_removed, not_over, get-trim_loop}
use cap_alerts.Payload.Cuts.{IsPrefix, shortened-Cut}

-- `json.dumps` in UTF-8: a text that is cut to a prefix and an ellipsis saves at least the bytes by
-- which it is shorter, since an escape is longer than what it stands for.
pub record IsJsonSize (size_of : Attrs → Option ℕ) : Type 0 where
  pub saves :
      (key text short : String) (attrs : Attrs) (n m : ℕ)
      → IsPrefix short text
      → Dict.get key attrs ≡ some (string text)
      → size_of attrs ≡ some n
      → size_of (Dict.put key (string (concat short "…")) attrs) ≡ some m
      → m + len text ≤ n + len short + 3

-- Distinct keys that the recorder stores.
abbrev Keys : List String → Type 0
Keys [] = Unit
Keys (key ∷ keys) = (contains key excluded ≡ false) × (contains key keys ≡ false) × Keys keys

trim_priority-Keys : Keys trim_priority
trim_priority-Keys = (refl, refl, (refl, refl, (refl, refl, (refl, refl, (refl, refl, tt)))))

-- The recorder's part of the dictionary has no size, or one within the budget.
abbrev pub Fitting : (Attrs → Option ℕ) → ℕ → Attrs → Type 0
Fitting size_of budget attrs =
    (measure size_of attrs ≡ none)
    ⊎ ((size : ℕ) × (measure size_of attrs ≡ some size) × (size ≤ budget))

abbrev pub Settled : (Attrs → Option ℕ) → ℕ → Trimmed → Type 0
Settled size_of budget (fits attrs) = Fitting size_of budget attrs
Settled size_of budget (over attrs) = All (λ key. text_at key attrs ≡ none) trim_priority

module _ (size_of : Attrs → Option ℕ) (budget : ℕ) (json : IsJsonSize size_of) where
  -- A rung that keeps a part of its text brings the size within the budget.
  cut_fits :
      (key text : String) (size size' : ℕ) (attrs : Attrs)
      → contains key excluded ≡ false
      → text_at key attrs ≡ some text
      → measure size_of attrs ≡ some size
      → ltb (len text - (size - budget)) min_text_keep ≡ false
      → measure size_of (spend key text (len text - (size - budget)) attrs) ≡ some size'
      → budget < size
      → size' ≤ budget
  unfolding spend
  cut_fits key text size size' attrs stored f m keeps m' above =
      let room = len text - (size - budget) in
      let (at, filled) = text_of-some (Dict.get key attrs) text f in
      let enough : 160 ≤ room = ground arith in
      let (short, prefix, same, fit) =
        shortened-Cut key text room filled (omega (arith, above, enough)) (omega (arith, enough)) in
      let passes : (value : Json) → recorded key value ≡ true = λ value. rw stored refl in
      let put_kept = restrict-put recorded key (string (shortened key text room)) attrs passes in
      let saved =
        json.saves key text short (Dict.restrict recorded attrs) size size' prefix
          (get-restrict recorded key attrs passes ∙ at) m
          (ap (λ t. size_of (Dict.put key (string t) (Dict.restrict recorded attrs))) (sym same)
            ∙ ap size_of (sym put_kept)
            ∙ ap (measure size_of) (sym (spend-put key text room attrs keeps))
            ∙ m') in
      omega (arith, saved, fit, above, enough)

  trim_loop-over :
      (keys : List String) (size : ℕ) (attrs result : Attrs)
      → Keys keys
      → measure size_of attrs ≡ some size
      → budget < size
      → trim_loop size_of budget keys size attrs ≡ over result
      → All (λ key. text_at key result ≡ none) keys
  unfolding trim_loop
  trim_loop-over [] size attrs result k m above e = tt
  trim_loop-over (key ∷ keys) size attrs result (stored, once, k) m above e =
      elim (Option-cases (text_at key attrs)) [
        | inl f ↦
            let rest : trim_loop size_of budget keys size attrs ≡ over result =
              rw (trim_loop, f) at e in
            let here : Dict.get key result ≡ Dict.get key attrs =
              ap (λ t. Dict.get key (attrs_of t)) (sym rest)
              ∙ get-trim_loop size_of budget keys size attrs key once in
            (ap text_of here ∙ f, trim_loop-over keys size attrs result k m above rest)
        | inr (text, f) ↦
            let room = len text - (size - budget) in
            let trimmed = spend key text room attrs in
            elim (Option-cases (measure size_of trimmed)) [
              | inl g ↦ absurd (not_over (rw (trim_loop, f, g) at e))
              | inr (size', g) ↦ elim (Bool-cases (leb size' budget)) [
                | inl h ↦ absurd (not_over (rw (trim_loop, f, g, h) at e))
                | inr h ↦
                    let rest : trim_loop size_of budget keys size' trimmed ≡ over result =
                      rw (trim_loop, f, g, h) at e in
                    let past : budget < size' = ground arith in
                    elim (Bool-cases (ltb room min_text_keep)) [
                      | inl q ↦
                          let here : Dict.get key result ≡ none =
                            ap (λ t. Dict.get key (attrs_of t)) (sym rest)
                            ∙ get-trim_loop size_of budget keys size' trimmed key once
                            ∙ get-spend_removed key text room attrs q in
                          (ap text_of here, trim_loop-over keys size' trimmed result k g past rest)
                      | inr q ↦ absurd (
                          omega
                            (arith, past, cut_fits key text size size' attrs stored f m q g above))
                    ]
              ]
            ]
      ]

  trim_loop-fits :
      (keys : List String) (size : ℕ) (attrs result : Attrs)
      → trim_loop size_of budget keys size attrs ≡ fits result
      → Fitting size_of budget result
  unfolding trim_loop
  trim_loop-fits [] size attrs result e = absurd (not_over (sym e))
  trim_loop-fits (key ∷ keys) size attrs result e = elim (Option-cases (text_at key attrs)) [
    | inl f ↦ trim_loop-fits keys size attrs result (rw (trim_loop, f) at e)
    | inr (text, f) ↦
        let room = len text - (size - budget) in
        let trimmed = spend key text room attrs in
        elim (Option-cases (measure size_of trimmed)) [
          | inl g ↦
              let same : fits trimmed ≡ fits result = rw (trim_loop, f, g) at e in
              inl (ap (λ t. measure size_of (attrs_of t)) (sym same) ∙ g)
          | inr (size', g) ↦ elim (Bool-cases (leb size' budget)) [
            | inl h ↦
                let same : fits trimmed ≡ fits result = rw (trim_loop, f, g, h) at e in
                inr (size', ap (λ t. measure size_of (attrs_of t)) (sym same) ∙ g, ground arith)
            | inr h ↦ trim_loop-fits keys size' trimmed result (rw (trim_loop, f, g, h) at e)
          ]
        ]
  ]

  trim_loop-Settled :
      (size : ℕ) (attrs : Attrs) (result : Trimmed)
      → measure size_of attrs ≡ some size
      → budget < size
      → trim_loop size_of budget trim_priority size attrs ≡ result
      → Settled size_of budget result
  trim_loop-Settled size attrs (fits result) m above e =
      trim_loop-fits trim_priority size attrs result e
  trim_loop-Settled size attrs (over result) m above e =
      trim_loop-over trim_priority size attrs result trim_priority-Keys m above e

-- For a JSON size, fitting a dictionary to a budget ends in one of two ways: what the recorder
-- stores of the result has no size or one of at most the budget, or it is still too large and no
-- text of the ladder is left in it.
pub fit_to_budget-Settled :
    (size_of : Attrs → Option ℕ) (budget : ℕ) (attrs : Attrs)
    → IsJsonSize size_of
    → Settled size_of budget (fit_to_budget size_of budget attrs)
unfolding fit_to_budget
fit_to_budget-Settled size_of budget attrs json = elim (Option-cases (measure size_of attrs)) [
  | inl f ↦ rw (fit_to_budget, f) (inl f)
  | inr (size, f) ↦ elim (Bool-cases (leb size budget)) [
    | inl g ↦ rw (fit_to_budget, f, g) (inr (size, f, ground arith))
    | inr g ↦
        let above : budget < size = ground arith in
        rw (fit_to_budget, f, g)
          (trim_loop-Settled size_of budget json size attrs
            (trim_loop size_of budget trim_priority size attrs) f above refl)
  ]
]

-- Fitting a dictionary to a budget leaves every attribute outside the ladder as it is.
pub get-fit_to_budget :
    (size_of : Attrs → Option ℕ) (budget : ℕ) (attrs : Attrs) (other : String)
    → contains other trim_priority ≡ false
    → Dict.get other (attrs_of (fit_to_budget size_of budget attrs)) ≡ Dict.get other attrs
unfolding fit_to_budget
get-fit_to_budget size_of budget attrs other outside = elim (Option-cases (measure size_of attrs)) [
  | inl f ↦ rw (fit_to_budget, f) refl
  | inr (size, f) ↦ elim (Bool-cases (leb size budget)) [
    | inl g ↦ rw (fit_to_budget, f, g) refl
    | inr g ↦
        rw (fit_to_budget, f, g)
          (get-trim_loop size_of budget trim_priority size attrs other outside)
  ]
]
