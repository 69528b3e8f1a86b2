-- ===== src/Payload/Rungs.antt =====
-- The rungs of the ladder that trims a dictionary (payload.py).
use Prim.Native.String.{len}
use cap_alerts.Prelude.{
  ℕ, ◌-◌, ◌≡◌, inl, inr, refl, ◌∙◌, String, true, false, Option, none, some, List, [], ◌∷◌, ◌==◌,
  arith, ltb, leb, eq_refl, is_empty, Bool-cases, Option-cases,
}
use cap_alerts.Prelude.Lists.{contains}
use cap_alerts.Dict
use cap_alerts.Dict.Laws.{get-put, get-remove}
use cap_alerts.Model.Json.{Json, string, object, array, number, boolean, absent}
use cap_alerts.Payload.Trim.{
  Attrs, text_of, text_at, shortened, spend, fits, over, attrs_of, measure, trim_loop,
  min_text_keep,
}

pub get-spend :
    (key text other : String) (room : ℕ) (attrs : Attrs)
    → (key == other) ≡ false
    → Dict.get other (spend key text room attrs) ≡ Dict.get other attrs
unfolding spend
get-spend key text other room attrs ne = elim (Bool-cases (ltb room min_text_keep)) [
  | inl e ↦ rw (spend, e, get-remove, ne)
  | inr e ↦ rw (spend, e, get-put, ne)
]

pub text_of-some :
    (value : Option Json) (text : String)
    → text_of value ≡ some text
    → (value ≡ some (string text)) × (is_empty text ≡ false)
text_of-some none text e = absurd (ground arith)
text_of-some (some (string t)) text e = elim (Bool-cases (is_empty t)) [
  | inl q ↦ absurd (no_text (rw q at e))
  | inr q ↦ let same : t ≡ text = cc (rw q at e) in rw (← same) (refl, q)
]
  where
    no_text : none ≡ some text → ⊥
    no_text e = cc e
text_of-some (some (object m)) text e = absurd (ground arith)
text_of-some (some (array es)) text e = absurd (ground arith)
text_of-some (some (number n)) text e = absurd (ground arith)
text_of-some (some (boolean b)) text e = absurd (ground arith)
text_of-some (some absent) text e = absurd (ground arith)

module _ (size_of : Attrs → Option ℕ) (budget : ℕ) where
  pub get-trim_loop :
      (keys : List String) (size : ℕ) (attrs : Attrs) (other : String)
      → contains other keys ≡ false
      → Dict.get other (attrs_of (trim_loop size_of budget keys size attrs)) ≡ Dict.get other attrs
  unfolding trim_loop
  get-trim_loop [] size attrs other e = refl
  get-trim_loop (key ∷ keys) size attrs other e =
      let ne : (key == other) ≡ false = ground arith in
      let rest : contains other keys ≡ false = ground arith in
      elim (Option-cases (text_at key attrs)) [
        | inl f ↦ rw (trim_loop, f) (get-trim_loop keys size attrs other rest)
        | inr (text, f) ↦
            let room = len text - (size - budget) in
            let same = get-spend key text other room attrs ne in
            elim (Option-cases (measure size_of (spend key text room attrs))) [
              | inl g ↦ rw (trim_loop, f, g) same
              | inr (size', g) ↦ elim (Bool-cases (leb size' budget)) [
                | inl h ↦ rw (trim_loop, f, g, h) same
                | inr h ↦
                    rw (trim_loop, f, g, h)
                      (get-trim_loop keys size' (spend key text room attrs) other rest ∙ same)
              ]
            ]
      ]

pub spend-put :
    (key text : String) (room : ℕ) (attrs : Attrs)
    → ltb room min_text_keep ≡ false
    → spend key text room attrs ≡ Dict.put key (string (shortened key text room)) attrs
unfolding spend
spend-put key text room attrs keeps = rw (spend, keeps) refl

pub get-spend_removed :
    (key text : String) (room : ℕ) (attrs : Attrs)
    → ltb room min_text_keep ≡ true
    → Dict.get key (spend key text room attrs) ≡ none
unfolding spend
get-spend_removed key text room attrs drops = rw (spend, drops, get-remove, eq_refl key) refl

pub not_over : {a b : Attrs} → fits a ≡ over b → ⊥
not_over e = cc e
