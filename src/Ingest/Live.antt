-- ===== src/Ingest/Live.antt =====
-- The callbacks of `NAADIngest` (providers/eccc_ingest.py). A callback gets the time at which it
-- runs, what the network answers it and the scope that the host resolves.
use cap_alerts.Prelude.{
  ℕ, ◌-◌, String, Bool, true, false, not, ◌&&◌, ◌||◌, Option, none, some, List, [], ◌∷◌, ◌++◌, ltb,
  is_empty, if◌then◌else◌,
}
use cap_alerts.Prelude.Lists.{any, keep_if}
use cap_alerts.Dict
use cap_alerts.Dict.{Dict}
use cap_alerts.Time.{FromIso, parse_instant}
use cap_alerts.Cap.Document.{CapDoc, Reference, identifier_of, is_actual}
use cap_alerts.Ingest.State.{Scope, Ingest, backfill_min_interval, window, or_text, apply, push}
use cap_alerts.Ingest.Repository.{mentioned, recover_from_repository}

-- `_admit`
unfoldable pub admit : Scope → Dict CapDoc → List CapDoc → List CapDoc
admit scope live = keep_if (λ doc.
    is_actual doc
    && (scope.matches doc || any (λ ref. Dict.has (identifier_of ref) live) doc.references))

-- `_note_seen`, where `now_text` is the time of the call.
unfoldable pub note_seen : String → List CapDoc → Dict String → Dict String
note_seen now_text [] seen = seen
note_seen now_text (doc ∷ docs) seen = note_seen now_text docs (
    if is_empty doc.identifier
    then seen
    else Dict.put doc.identifier (or_text doc.sent now_text) seen)

unfoldable pub upsert : List CapDoc → Dict CapDoc → Dict CapDoc
upsert [] live = live
upsert (doc ∷ docs) live =
    upsert docs (if is_empty doc.identifier then live else Dict.put doc.identifier doc live)

abbrev pub is_before : Option ℕ → ℕ → Bool
is_before none cutoff = false
is_before (some sent) cutoff = ltb sent cutoff

abbrev pub stamp : ℕ → Ingest → Ingest
stamp begun s = record s {
  last_backfill_at = some begun;
  feed_fetches = s.feed_fetches ++ begun ∷ [];
}

-- The guard of `_on_backfill_needed`.
abbrev pub throttled : ℕ → Option ℕ → Bool
throttled now none = false
throttled now (some last) = ltb (now - last) backfill_min_interval

-- The `except` and the end of `_on_backfill_needed`.
abbrev pub after_backfill : Ingest × Bool → Ingest
after_backfill (s, true) = record s {
  stream_backfill_warned = false;
  requests = s.requests ++ push ∷ [];
}
after_backfill (s, false) = record s { stream_backfill_warned = true }

-- The attempts for identifiers that the heartbeat lists.
abbrev pub forget_attempts : List Reference → Ingest → Ingest
forget_attempts references s = record s {
  repository_attempts =
      Dict.restrict (λ identifier count. mentioned identifier references) s.repository_attempts;
}

abbrev pub references_of : Option CapDoc → List Reference
references_of none = []
references_of (some doc) = doc.references

module _ (from_iso : FromIso) (to_iso : ℕ → String) where
  -- `_sent_before`
  unfoldable pub sent_before : String → ℕ → Bool
  unfolding parse_instant
  sent_before sent_text cutoff = is_before (parse_instant from_iso sent_text) cutoff

  -- `_merge_docs`
  unfoldable pub merge_docs : ℕ → List CapDoc → Ingest → Ingest
  unfolding note_seen upsert sent_before
  merge_docs now docs s =
      let cutoff = now - window in
      record s {
        live_docs =
            Dict.restrict (λ identifier doc. not (sent_before doc.sent cutoff))
              (upsert docs s.live_docs);
        seen =
            Dict.restrict (λ identifier sent. not (sent_before sent cutoff))
              (note_seen (to_iso now) docs s.seen);
      }

  -- `async_backfill`, with the documents that the feed gives; `none` is an error of the fetch.
  unfoldable pub backfill : ℕ → ℕ → Scope → Option (List CapDoc) → Ingest → Ingest × Bool
  unfolding merge_docs
  backfill begun ended scope none s = (stamp begun s, false)
  backfill begun ended scope (some docs) s =
      let merged = merge_docs ended docs (stamp begun s) in
      (
        record merged {
          requests =
              merged.requests ++ apply (scope.build (Dict.values merged.live_docs)) true ∷ [];
        },
        true,
      )

  -- `async_ingest_docs`; no scope is a `ScopeUnresolvedError`.
  unfoldable pub ingest_docs : ℕ → Option Scope → List CapDoc → Ingest → Ingest
  unfolding admit merge_docs
  ingest_docs now none docs s = s
  ingest_docs now (some scope) docs s =
      let merged = merge_docs now (admit scope s.live_docs docs) s in
      record merged {
        requests =
            merged.requests ++ apply (scope.build (Dict.values merged.live_docs)) false ∷ push ∷ [];
      }

  abbrev pub requested : ℕ → ℕ → Option Scope → Option (List CapDoc) → Ingest → Ingest
  requested now ended none answer s = record s { stream_backfill_warned = true }
  requested now ended (some scope) answer s = after_backfill (backfill now ended scope answer s)

  -- `_on_backfill_needed`
  unfoldable pub on_backfill_needed : ℕ → ℕ → Option Scope → Option (List CapDoc) → Ingest → Ingest
  unfolding backfill
  on_backfill_needed now ended scope answer s =
      let next = requested now ended scope answer s in
      if throttled now s.last_backfill_at then s else next

  -- `_on_stream_alert_doc`, over what `parse_cap_alert` gives.
  unfoldable pub on_stream_alert_doc : ℕ → Option Scope → Option CapDoc → Ingest → Ingest
  unfolding note_seen ingest_docs
  on_stream_alert_doc now scope none s = s
  on_stream_alert_doc now scope (some doc) s =
      let next =
        ingest_docs now scope (doc ∷ [])
          (record s { seen = note_seen (to_iso now) (doc ∷ []) s.seen }) in
      if is_empty doc.identifier then s else next

  -- `_unseen_references`, whose other effect is `forget_attempts`.
  unfoldable pub unseen_references : ℕ → List Reference → Dict String → List Reference
  unfolding sent_before
  unseen_references now [] seen = []
  unseen_references now ((sender, identifier, sent) ∷ references) seen =
      let rest = unseen_references now references seen in
      if is_empty identifier || Dict.has identifier seen || sent_before sent (now - window)
      then rest
      else (sender, identifier, sent) ∷ rest

  -- `_on_stream_heartbeat`: its references are listed at one time and ingested at another.
  unfoldable pub on_stream_heartbeat :
      ℕ → ℕ → Option Scope → Option CapDoc → Option (Dict (Option CapDoc)) → Ingest → Ingest
  unfolding unseen_references recover_from_repository ingest_docs
  on_stream_heartbeat listed ended scope heartbeat answer s =
      let listing = references_of heartbeat in
      let (s', recovered) =
        recover_from_repository (unseen_references listed listing s.seen) answer
          (forget_attempts listing s) in
      ingest_docs ended scope recovered s'

-- `async_start` and `async_stop`, without the task of the client.
abbrev pub start : Ingest → Ingest
start s = record s { started = true }

abbrev pub stop : Ingest → Ingest
stop s = record s { started = false; connected = false }
