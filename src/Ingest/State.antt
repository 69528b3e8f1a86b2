-- ===== src/Ingest/State.antt =====
-- The state of `NAADIngest` (providers/eccc_ingest.py) and what it asks of the host, which is
-- recorded.
use cap_alerts.Prelude.{
  ℕ, ◌*◌, String, Bool, false, Option, none, List, [], ◌∷◌, ◌++◌, map, is_empty, if◌then◌else◌,
}
use cap_alerts.Dict.{Dict}
use cap_alerts.Model.{CapAlert}
use cap_alerts.Cap.Document.{CapDoc, identifier_of}

-- `doc_matches_region` and `build_alerts_from_cap_docs` at the region and the language that the
-- host resolves.
pub record Scope : Type 0 where
  pub matches : CapDoc → Bool
  pub build : List CapDoc → List CapAlert

-- What the host is asked for: `async_apply(alerts, fetched=...)`, `push` and `notify_connection`.
pub data Request : Type 0 where
  apply : List CapAlert → Bool → Request
  push : Request
  notify : Bool → Request

-- The times of the calls of `async_fetch_docs` are recorded, the oldest first.
pub record Ingest : Type 0 where
  pub live_docs : Dict CapDoc
  pub seen : Dict String
  pub repository_attempts : Dict ℕ
  pub repository_recovered : ℕ
  pub connected : Bool
  pub started : Bool
  pub last_backfill_at : Option ℕ
  pub stream_backfill_warned : Bool
  pub feed_fetches : List ℕ
  pub requests : List Request

-- `__init__`
abbrev pub new_ingest : Ingest
new_ingest = record {
  live_docs = [];
  seen = [];
  repository_attempts = [];
  repository_recovered = 0;
  connected = false;
  started = false;
  last_backfill_at = none;
  stream_backfill_warned = false;
  feed_fetches = [];
  requests = [];
}

-- `NAAD_REPOSITORY_FETCH_ATTEMPTS`, `NAAD_STREAM_BACKFILL_MIN_INTERVAL_S` and 48 hours, the times
-- in microseconds.
abbrev pub fetch_attempts : ℕ
fetch_attempts = 3

abbrev pub backfill_min_interval : ℕ
backfill_min_interval = 300 * 1_000_000

abbrev pub window : ℕ
window = 48 * 3600 * 1_000_000

-- `superseded_identifiers`
unfoldable pub superseded_identifiers : List CapDoc → List String
superseded_identifiers [] = []
superseded_identifiers (doc ∷ docs) =
    map identifier_of doc.references ++ superseded_identifiers docs

-- `_on_stream_connection_change`
abbrev pub on_connection_change : Bool → Ingest → Ingest
on_connection_change connected s = record s {
  connected = connected;
  requests = s.requests ++ notify connected ∷ [];
}

-- `text or default`
abbrev pub or_text : String → String → String
or_text text default = if is_empty text then default else text
