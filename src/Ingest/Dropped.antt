-- ===== src/Ingest/Dropped.antt =====
-- A document that arrives while the scope cannot be resolved (providers/eccc_ingest.py).

use cap_alerts.Prelude.{
  ℕ, ◌-◌, ◌≡◌, inl, inr, refl, ◌∙◌, String, true, false, ◌||◌, none, some, List, [], ◌∷◌, ◌==◌,
  eq_iff, eq_refl, is_empty, Bool-cases, if_either,
}
use cap_alerts.Dict
use cap_alerts.Dict.{Dict}
use cap_alerts.Dict.Laws.{has-put}
use cap_alerts.Time.{FromIso}
use cap_alerts.Cap.Document.{CapDoc, Reference}
use cap_alerts.Ingest.State.{Ingest, window, or_text}
use cap_alerts.Ingest.Repository.{mentioned}
use cap_alerts.Ingest.Live.{
  note_seen, ingest_docs, on_stream_alert_doc, unseen_references, sent_before,
}

module _ (from_iso : FromIso) (to_iso : ℕ → String) where
  -- What is seen is not fetched.
  unseen-mentioned :
      (identifier : String) (now : ℕ) (references : List Reference) (seen : Dict String)
      → Dict.has identifier seen ≡ true
      → mentioned identifier (unseen_references from_iso to_iso now references seen) ≡ false
  unfolding unseen_references
  unseen-mentioned identifier now [] seen h = refl
  unseen-mentioned identifier now ((sender, i, t) ∷ references) seen h =
      let rest = unseen-mentioned identifier now references seen h in
      elim (Bool-cases (i == identifier)) [
        | inl e ↦
            let same = (eq_iff i identifier).0 e in
            elim (Bool-cases (is_empty i)) [ inl f ↦ rw f rest | inr f ↦ rw (f, same, h) rest ]
        | inr e ↦
            if_either (λ refs. mentioned identifier refs ≡ false)
              (is_empty i || Dict.has i seen || sent_before from_iso to_iso t (now - window)) rest
              (rw e rest)
      ]

  -- A streamed document with an identifier, while the scope cannot be resolved, leaves the live set
  -- as it is, and the references of a heartbeat that follows are listed without it.
  pub on_stream_alert_doc-unseen_references :
      (now listed : ℕ) (doc : CapDoc) (references : List Reference) (s : Ingest)
      → is_empty doc.identifier ≡ false
      → ((on_stream_alert_doc from_iso to_iso now none (some doc) s).live_docs ≡ s.live_docs)
        × (mentioned doc.identifier (
              unseen_references from_iso to_iso listed references
                (on_stream_alert_doc from_iso to_iso now none (some doc) s).seen)
            ≡ false)
  unfolding on_stream_alert_doc ingest_docs note_seen
  on_stream_alert_doc-unseen_references now listed doc references s name =
      rw (on_stream_alert_doc, name)
        (
          refl,
          unseen-mentioned doc.identifier listed references
              (Dict.put doc.identifier (or_text doc.sent (to_iso now)) s.seen)
              (has-put doc.identifier doc.identifier (or_text doc.sent (to_iso now)) s.seen
                ∙ rw (eq_refl doc.identifier) refl),
        )
