-- ===== src/Ingest/Steps.antt =====
-- The callbacks of an ingest (providers/eccc_ingest.py) as steps, each run to its end.
use cap_alerts.Prelude.{ℕ, String, Bool, Option, List, [], ◌∷◌}
use cap_alerts.Dict.{Dict}
use cap_alerts.Time.{FromIso}
use cap_alerts.Cap.Document.{CapDoc}
use cap_alerts.Ingest.Live.{
  start, stop, on_stream_alert_doc, on_stream_heartbeat, on_backfill_needed, backfill,
}
use cap_alerts.Ingest.State.{Ingest, Scope, on_connection_change}

-- A connection, a document, a heartbeat or a reconnection of the stream, the safety resync of the
-- host, and the start and the stop.
pub data Event : Type 0 where
  connection : Bool → Event
  alert_doc : ℕ → Option Scope → Option CapDoc → Event
  heartbeat : ℕ → ℕ → Option Scope → Option CapDoc → Option (Dict (Option CapDoc)) → Event
  backfill_needed : ℕ → ℕ → Option Scope → Option (List CapDoc) → Event
  resync : ℕ → ℕ → Scope → Option (List CapDoc) → Event
  starting stopping : Event

module _ (from_iso : FromIso) (to_iso : ℕ → String) where
  unfoldable pub step : Event → Ingest → Ingest
  unfolding on_stream_alert_doc on_stream_heartbeat on_backfill_needed backfill
  step (connection up) s = on_connection_change up s
  step (alert_doc now scope doc) s = on_stream_alert_doc from_iso to_iso now scope doc s
  step (heartbeat listed ended scope doc answer) s =
      on_stream_heartbeat from_iso to_iso listed ended scope doc answer s
  step (backfill_needed now ended scope answer) s =
      on_backfill_needed from_iso to_iso now ended scope answer s
  step (resync begun ended scope answer) s = (backfill from_iso to_iso begun ended scope answer s).0
  step starting s = start s
  step stopping s = stop s

  unfoldable pub steps : List Event → Ingest → Ingest
  unfolding step
  steps [] s = s
  steps (event ∷ events) s = steps events (step event s)
