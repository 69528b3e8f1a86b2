-- ===== src/Ingest/Sound.antt =====
-- What holds of an ingest (providers/eccc_ingest.py) after any callbacks.
use cap_alerts.Prelude.{
  ℕ, ◌≡◌, inl, inr, refl, sym, String, Bool, true, false, ◌||◌, Option, none, some, List, [], ◌∷◌,
  ◌-◌, subst, is_empty, Bool-cases, if_either,
}
use cap_alerts.Prelude.Lists.{All}
use cap_alerts.Dict
use cap_alerts.Dict.{Dict}
use cap_alerts.Dict.Restrict.{Every-restrict}
use cap_alerts.Time.{FromIso}
use cap_alerts.Cap.Document.{CapDoc, Reference}
use cap_alerts.Ingest.Live.{
  admit, note_seen, upsert, merge_docs, backfill, ingest_docs, on_backfill_needed,
  on_stream_alert_doc, unseen_references, forget_attempts, on_stream_heartbeat, throttled, stamp,
  references_of, sent_before, after_backfill,
}
use cap_alerts.Ingest.State.{Ingest, Scope, new_ingest, window}
use cap_alerts.Ingest.Filed.{
  IsFiled, IsCount, IsSound, upsert-IsFiled, IsNamed, note_seen-IsNamed, IsNamedReference,
  recover_from_repository-IsSound,
}
use cap_alerts.Ingest.Steps.{
  Event, connection, alert_doc, heartbeat, backfill_needed, resync, starting, stopping, step, steps,
}

module _ (from_iso : FromIso) (to_iso : ℕ → String) where
  unseen_references-named :
      (now : ℕ) (references : List Reference) (seen : Dict String)
      → All IsNamedReference (unseen_references from_iso to_iso now references seen)
  unfolding unseen_references
  unseen_references-named now [] seen = tt
  unseen_references-named now ((sender, identifier, sent) ∷ references) seen =
      elim (Bool-cases (is_empty identifier)) [
        | inl e ↦ rw e (unseen_references-named now references seen)
        | inr e ↦
            elim (Bool-cases
              (Dict.has identifier seen || sent_before from_iso to_iso sent (now - window))) [
                | inl f ↦ rw (e, f) (unseen_references-named now references seen)
                | inr f ↦ rw (e, f) (e, unseen_references-named now references seen)
              ]
      ]

  merge_docs-IsSound :
      (now : ℕ) (docs : List CapDoc) (s : Ingest)
      → IsSound s
      → IsSound (merge_docs from_iso to_iso now docs s)
  unfolding merge_docs
  merge_docs-IsSound now docs s h = record {
    filed =
        Every-restrict IsFiled _ (upsert docs s.live_docs)
          (upsert-IsFiled docs s.live_docs h.filed);
    counted = h.counted;
    named =
        Every-restrict IsNamed _ (note_seen (to_iso now) docs s.seen)
          (note_seen-IsNamed (to_iso now) docs s.seen h.named);
  }

  -- The other fields do not matter.
  same_documents :
      (s s' : Ingest)
      → s'.live_docs ≡ s.live_docs
      → s'.seen ≡ s.seen
      → s'.repository_attempts ≡ s.repository_attempts
      → IsSound s
      → IsSound s'
  same_documents s s' e f g h = record {
    filed = subst (Dict.Every IsFiled) (sym e) h.filed;
    counted = subst (Dict.Every IsCount) (sym g) h.counted;
    named = subst (Dict.Every IsNamed) (sym f) h.named;
  }

  backfill-IsSound :
      (begun ended : ℕ) (scope : Scope) (answer : Option (List CapDoc)) (s : Ingest)
      → IsSound s
      → IsSound (backfill from_iso to_iso begun ended scope answer s).0
  unfolding backfill
  backfill-IsSound begun ended scope none s h = same_documents s (stamp begun s) refl refl refl h
  backfill-IsSound begun ended scope (some docs) s h =
      same_documents (merge_docs from_iso to_iso ended docs (stamp begun s)) _ refl refl refl (
        merge_docs-IsSound ended docs (stamp begun s)
          (same_documents s (stamp begun s) refl refl refl h))

  ingest_docs-IsSound :
      (now : ℕ) (scope : Option Scope) (docs : List CapDoc) (s : Ingest)
      → IsSound s
      → IsSound (ingest_docs from_iso to_iso now scope docs s)
  unfolding ingest_docs
  ingest_docs-IsSound now none docs s h = h
  ingest_docs-IsSound now (some scope) docs s h =
      let kept = admit scope s.live_docs docs in
      same_documents (merge_docs from_iso to_iso now kept s) _ refl refl refl
        (merge_docs-IsSound now kept s h)

  after_backfill-IsSound :
      (s : Ingest) (done : Bool) → IsSound s → IsSound (after_backfill (s, done))
  after_backfill-IsSound s true h = same_documents s _ refl refl refl h
  after_backfill-IsSound s false h = same_documents s _ refl refl refl h

  on_backfill_needed-IsSound :
      (now ended : ℕ) (scope : Option Scope) (answer : Option (List CapDoc)) (s : Ingest)
      → IsSound s
      → IsSound (on_backfill_needed from_iso to_iso now ended scope answer s)
  unfolding on_backfill_needed
  on_backfill_needed-IsSound now ended none answer s h =
      if_either IsSound (throttled now s.last_backfill_at) h (same_documents s _ refl refl refl h)
  on_backfill_needed-IsSound now ended (some scope) answer s h =
      let (s', done) = backfill from_iso to_iso now ended scope answer s in
      if_either IsSound (throttled now s.last_backfill_at) h
        (after_backfill-IsSound s' done (backfill-IsSound now ended scope answer s h))

  on_stream_alert_doc-IsSound :
      (now : ℕ) (scope : Option Scope) (doc : Option CapDoc) (s : Ingest)
      → IsSound s
      → IsSound (on_stream_alert_doc from_iso to_iso now scope doc s)
  unfolding on_stream_alert_doc
  on_stream_alert_doc-IsSound now scope none s h = h
  on_stream_alert_doc-IsSound now scope (some doc) s h =
      if_either IsSound (is_empty doc.identifier) h (
        ingest_docs-IsSound now scope (doc ∷ []) _ record {
          filed = h.filed;
          counted = h.counted;
          named = note_seen-IsNamed (to_iso now) (doc ∷ []) s.seen h.named;
        })

  on_stream_heartbeat-IsSound :
      (listed ended : ℕ) (scope : Option Scope) (doc : Option CapDoc)
      (answer : Option (Dict (Option CapDoc))) (s : Ingest)
      → IsSound s
      → IsSound (on_stream_heartbeat from_iso to_iso listed ended scope doc answer s)
  unfolding on_stream_heartbeat
  on_stream_heartbeat-IsSound listed ended scope doc answer s h =
      let listing = references_of doc in
      let wanted = unseen_references from_iso to_iso listed listing s.seen in
      let forgotten = forget_attempts listing s in
      ingest_docs-IsSound ended scope _ _ (
        recover_from_repository-IsSound wanted answer forgotten
          (unseen_references-named listed listing s.seen)
          record {
            filed = h.filed;
            counted = Every-restrict IsCount _ s.repository_attempts h.counted;
            named = h.named;
          })

  step-IsSound : (event : Event) (s : Ingest) → IsSound s → IsSound (step from_iso to_iso event s)
  unfolding step
  step-IsSound (connection up) s h = same_documents s _ refl refl refl h
  step-IsSound (alert_doc now scope doc) s h = on_stream_alert_doc-IsSound now scope doc s h
  step-IsSound (heartbeat listed ended scope doc answer) s h =
      on_stream_heartbeat-IsSound listed ended scope doc answer s h
  step-IsSound (backfill_needed now ended scope answer) s h =
      on_backfill_needed-IsSound now ended scope answer s h
  step-IsSound (resync begun ended scope answer) s h = backfill-IsSound begun ended scope answer s h
  step-IsSound starting s h = same_documents s _ refl refl refl h
  step-IsSound stopping s h = same_documents s _ refl refl refl h

  -- Callbacks keep an ingest sound: each document stands under its own identifier, no identifier
  -- that is held or seen is blank, and no count of failed fetches reaches the bound.
  pub steps-IsSound :
      (events : List Event) (s : Ingest) → IsSound s → IsSound (steps from_iso to_iso events s)
  unfolding steps
  steps-IsSound [] s h = h
  steps-IsSound (event ∷ events) s h =
      steps-IsSound events (step from_iso to_iso event s) (step-IsSound event s h)

pub new_ingest-IsSound : IsSound new_ingest
new_ingest-IsSound = record { filed = tt; counted = tt; named = tt }
