-- ===== src/Ingest/Window.antt =====
-- What a merge leaves in the live set of an ingest (providers/eccc_ingest.py).
use cap_alerts.Prelude.{
  ℕ, ◌-◌, ◌≡◌, inl, inr, refl, ap, ◌∙◌, String, Bool, false, not, Option, none, some, List, [], ◌∷◌,
  ◌==◌, arith, eq_iff, is_empty, Bool-cases, Option-cases, if◌then◌else◌,
}
use cap_alerts.Dict
use cap_alerts.Dict.{Dict}
use cap_alerts.Dict.Laws.{get-put, Distinct-put}
use cap_alerts.Dict.Restrict.{get-restrict-passing, passing}
use cap_alerts.Time.{FromIso}
use cap_alerts.Cap.Document.{CapDoc}
use cap_alerts.Ingest.Live.{upsert, merge_docs, sent_before}
use cap_alerts.Ingest.State.{Ingest, window}

-- The last document under an identifier.
abbrev pub last_with : String → List CapDoc → Option CapDoc
last_with identifier [] = none
last_with identifier (doc ∷ docs) = elim (last_with identifier docs) [
  | some last ↦ some last
  | none ↦ if doc.identifier == identifier then some doc else none
]

abbrev pub or_held : Option CapDoc → Option CapDoc → Option CapDoc
or_held none held = held
or_held (some doc) held = some doc

abbrev pub unless : (CapDoc → Bool) → Option CapDoc → Option CapDoc
unless p none = none
unless p (some doc) = if p doc then none else some doc

get-upsert :
    (identifier : String) (docs : List CapDoc) (live : Dict CapDoc)
    → is_empty identifier ≡ false
    → Dict.get identifier (upsert docs live)
      ≡ or_held (last_with identifier docs) (Dict.get identifier live)
unfolding upsert
get-upsert identifier [] live name = refl
get-upsert identifier (doc ∷ docs) live name =
    let next = if is_empty doc.identifier then live else Dict.put doc.identifier doc live in
    get-upsert identifier docs next name ∙ elim (Option-cases (last_with identifier docs)) [
      | inr (last, e) ↦ rw e refl
      | inl e ↦ rw e (held doc live)
    ]
  where
    held :
        (doc : CapDoc) (live : Dict CapDoc)
        → Dict.get identifier
            (if is_empty doc.identifier then live else Dict.put doc.identifier doc live)
          ≡ or_held
              (if doc.identifier == identifier then some doc else none)
              (Dict.get identifier live)
    held doc live = elim (Bool-cases (is_empty doc.identifier)) [
      | inl e ↦
          let other : (doc.identifier == identifier) ≡ false =
            ground (arith, name, e, eq_iff doc.identifier "", eq_iff doc.identifier identifier) in
          rw (e, other) refl
      | inr e ↦ elim (Bool-cases (doc.identifier == identifier)) [
        | inl f ↦ rw (e, get-put, f) refl
        | inr f ↦ rw (e, get-put, f) refl
      ]
    ]

Distinct-upsert :
    (docs : List CapDoc) (live : Dict CapDoc)
    → Dict.Distinct live
    → Dict.Distinct (upsert docs live)
unfolding upsert
Distinct-upsert [] live h = h
Distinct-upsert (doc ∷ docs) live h = elim (Bool-cases (is_empty doc.identifier)) [
  | inl e ↦ rw e (Distinct-upsert docs live h)
  | inr e ↦ rw e (Distinct-upsert docs _ (Distinct-put doc.identifier doc live h))
]

passing-unless :
    (p : CapDoc → Bool) (identifier : String) (held : Option CapDoc)
    → passing (λ key doc. not (p doc)) identifier held ≡ unless p held
passing-unless p identifier none = refl
passing-unless p identifier (some doc) = elim (Bool-cases (p doc)) [
  | inl e ↦ rw e refl
  | inr e ↦ rw e refl
]

-- A merge holds, under an identifier that is not blank, the last of the new documents with it, or
-- else the one that was held, and neither when its time of sending is more than 48 hours ago.
pub merge_docs_lem :
    (from_iso : FromIso) (to_iso : ℕ → String) (now : ℕ) (docs : List CapDoc) (s : Ingest)
    (identifier : String)
    → Dict.Distinct s.live_docs
    → is_empty identifier ≡ false
    → Dict.get identifier (merge_docs from_iso to_iso now docs s).live_docs
      ≡ unless
          (λ doc. sent_before from_iso to_iso doc.sent (now - window))
          (or_held (last_with identifier docs) (Dict.get identifier s.live_docs))
unfolding merge_docs
merge_docs_lem from_iso to_iso now docs s identifier distinct name =
    get-restrict-passing _ identifier (upsert docs s.live_docs)
      (Distinct-upsert docs s.live_docs distinct)
    ∙ ap (passing (λ key doc. not (sent_before from_iso to_iso doc.sent (now - window))) identifier)
        (get-upsert identifier docs s.live_docs name)
    ∙ passing-unless (λ doc. sent_before from_iso to_iso doc.sent (now - window)) identifier
        (or_held (last_with identifier docs) (Dict.get identifier s.live_docs))
