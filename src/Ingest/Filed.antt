-- ===== src/Ingest/Filed.antt =====
-- What holds of the documents, the counts and the seen identifiers of an ingest
-- (providers/eccc_ingest.py).
use cap_alerts.Prelude.{
  ℕ, suc, ◌<◌, ◌≡◌, inl, inr, refl, String, false, Option, none, some, List, [], ◌∷◌, arith, ltb,
  is_empty, Bool-cases,
}
use cap_alerts.Prelude.Lists.{All}
use cap_alerts.Dict
use cap_alerts.Dict.{Dict}
use cap_alerts.Dict.Laws.{Every-put, Every-remove}
use cap_alerts.Cap.Document.{CapDoc, Reference}
use cap_alerts.Ingest.Live.{note_seen, upsert}
use cap_alerts.Ingest.Repository.{
  served, attempts_of, settle_reference, settle_references, recover_from_repository,
}
use cap_alerts.Ingest.State.{Ingest, or_text, fetch_attempts}

abbrev pub IsFiled : String → CapDoc → Type 0
IsFiled identifier doc = (doc.identifier ≡ identifier) × (is_empty identifier ≡ false)

abbrev pub IsCount : String → ℕ → Type 0
IsCount identifier count = (0 < count) × (count < fetch_attempts)

-- A document stands under its own identifier, and a count is short of the bound. No identifier
-- that is held or seen is blank.
pub record IsSound (s : Ingest) : Type 0 where
  pub filed : Dict.Every IsFiled s.live_docs
  pub counted : Dict.Every IsCount s.repository_attempts
  pub named : Dict.Every (λ identifier sent. is_empty identifier ≡ false) s.seen

pub upsert-IsFiled :
    (docs : List CapDoc) (live : Dict CapDoc)
    → Dict.Every IsFiled live
    → Dict.Every IsFiled (upsert docs live)
unfolding upsert
upsert-IsFiled [] live h = h
upsert-IsFiled (doc ∷ docs) live h = elim (Bool-cases (is_empty doc.identifier)) [
  | inl e ↦ rw e (upsert-IsFiled docs live h)
  | inr e ↦ rw e (upsert-IsFiled docs _ (Every-put IsFiled doc.identifier doc live h (refl, e)))
]

abbrev pub IsNamed : String → String → Type 0
IsNamed identifier sent = is_empty identifier ≡ false

pub note_seen-IsNamed :
    (now_text : String) (docs : List CapDoc) (seen : Dict String)
    → Dict.Every IsNamed seen
    → Dict.Every IsNamed (note_seen now_text docs seen)
unfolding note_seen
note_seen-IsNamed now_text [] seen h = h
note_seen-IsNamed now_text (doc ∷ docs) seen h = elim (Bool-cases (is_empty doc.identifier)) [
  | inl e ↦ rw e (note_seen-IsNamed now_text docs seen h)
  | inr e ↦ rw e (
      note_seen-IsNamed now_text docs _
        (Every-put IsNamed doc.identifier (or_text doc.sent now_text) seen h e))
]

settle_reference-IsSound :
    (identifier sent : String) (doc : Option CapDoc) (s : Ingest)
    → is_empty identifier ≡ false
    → IsSound s
    → IsSound (settle_reference identifier sent doc s)
unfolding settle_reference
settle_reference-IsSound identifier sent (some doc) s name h = record {
  filed = h.filed;
  counted = Every-remove IsCount identifier s.repository_attempts h.counted;
  named = Every-put IsNamed identifier (or_text doc.sent sent) s.seen h.named name;
}
settle_reference-IsSound identifier sent none s name h =
    let attempts = suc (attempts_of (Dict.get identifier s.repository_attempts)) in
    elim (Bool-cases (ltb attempts fetch_attempts)) [
      | inl e ↦ rw e (record {
        filed = h.filed;
        counted =
            Every-put IsCount identifier attempts s.repository_attempts h.counted
              (omega arith, ground arith);
        named = h.named;
      })
      | inr e ↦ rw e (record {
        filed = h.filed;
        counted = Every-remove IsCount identifier s.repository_attempts h.counted;
        named = Every-put IsNamed identifier sent s.seen h.named name;
      })
    ]

abbrev pub IsNamedReference : Reference → Type 0
IsNamedReference (sender, identifier, sent) = is_empty identifier ≡ false

settle_references-IsSound :
    (references : List Reference) (results : Dict (Option CapDoc)) (s : Ingest)
    → All IsNamedReference references
    → IsSound s
    → IsSound (settle_references references results s)
unfolding settle_references
settle_references-IsSound [] results s n h = h
settle_references-IsSound ((sender, identifier, sent) ∷ references) results s (name, n) h =
    settle_references-IsSound references results _ n
      (settle_reference-IsSound identifier sent (served identifier results) s name h)

pub recover_from_repository-IsSound :
    (references : List Reference) (answer : Option (Dict (Option CapDoc))) (s : Ingest)
    → All IsNamedReference references
    → IsSound s
    → IsSound (recover_from_repository references answer s).0
unfolding recover_from_repository
recover_from_repository-IsSound references none s n h = h
recover_from_repository-IsSound references (some results) s n h =
    settle_references-IsSound references results s n h
