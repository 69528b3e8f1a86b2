-- ===== src/Samples/NormalizeRuns.antt =====
-- Runs of the normalization (normalize.py).

use cap_alerts.Prelude.{
  if◌then◌else◌, ◌≡◌, ◌⊎◌, refl, true, false, none, some, List, [], ◌∷◌, String, ◌==◌,
}
use cap_alerts.Prelude.Lists.{contains}
use cap_alerts.Prelude.Text.{concat, replace_z}
use cap_alerts.Dict
use cap_alerts.Time.{FromIso, naive, parse_iso, as_utc}
use cap_alerts.Model.{CapAlert, blank}
use cap_alerts.Model.Json.{no_members, member, absent}
use cap_alerts.Conventions.{no_conventions}
use cap_alerts.Trigger.Matchers.{severity_rank}
use cap_alerts.GeometryStore.Evict.{Hashing, new_geometry_store, put_content}
use cap_alerts.Normalize.Alerts.{
  compute_phase, normalize_severity, truncate_state, geometry_ref, count_by_onset, upcoming_in,
}
use cap_alerts.Normalize.Vocabulary.{
  live_phases, Expired, Unexpired, compute_phase_lem, normalize_severity-severity_rank,
}
use cap_alerts.Normalize.Counts.{Counted, count_by_onset-Counted}
use cap_alerts.Normalize.Refs.{geometry_ref-put_content}

-- A clock that reads two texts.
abbrev from_iso : FromIso
from_iso text =
    if text == "10:00" then some (naive 10) else if text == "20:00" then some (naive 20) else none

abbrev phase : String
phase = compute_phase from_iso "10:00" "Update" 15 "ended" (("ended", "over") ∷ [])

compute_phase_lem_example :
    (Expired from_iso 15 "10:00" × (phase ≡ "expired"))
    ⊎ (Unexpired from_iso 15 "10:00"
        × ((phase == "expired") ≡ false)
        × (contains phase live_phases ≡ true))
compute_phase_lem_example =
    compute_phase_lem from_iso "10:00" "Update" 15 "ended" (("ended", "over") ∷ [])

abbrev odd : CapAlert
odd = record (blank "a") {
  severity = "Purple";
  provider = "nws";
  geometry = some (member "type" absent no_members);
}

normalize_severity-severity_rank_example :
    Dict.has (normalize_severity (λ s. s) odd no_conventions) severity_rank ≡ true
normalize_severity-severity_rank_example =
    normalize_severity-severity_rank (λ s. s) odd no_conventions

truncated : truncate_state (truncate_state "Flood Watch") ≡ "Flood Watch"
unfolding truncate_state
truncated = refl

abbrev alerts : List CapAlert
alerts = record odd { onset = "20:00" } ∷ odd ∷ record odd { onset = "soon" } ∷ []

one_upcoming : count_by_onset from_iso 15 alerts ≡ (2, 1)
unfolding count_by_onset upcoming_in parse_iso replace_z as_utc
one_upcoming = refl

count_by_onset-Counted_example :
    Counted from_iso 15 alerts
      (count_by_onset from_iso 15 alerts).0
      (count_by_onset from_iso 15 alerts).1
count_by_onset-Counted_example = count_by_onset-Counted from_iso 15 alerts

abbrev hashing : Hashing
hashing = record { serialize = λ geometry. "{}"; digest = λ text. "00" }

geometry_ref-put_content_example :
    Dict.get
      (concat (geometry_ref odd "f") (concat ":" "00"))
      (put_content hashing (geometry_ref odd "e") no_members (new_geometry_store none)).0.entries
    ≡ Dict.get (concat (geometry_ref odd "f") (concat ":" "00")) (new_geometry_store none).entries
geometry_ref-put_content_example =
    geometry_ref-put_content hashing odd odd "e" "f" "00" no_members (new_geometry_store none) refl
      refl refl refl refl refl refl
