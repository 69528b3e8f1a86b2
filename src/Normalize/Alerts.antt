-- ===== src/Normalize/Alerts.antt =====
-- The normalization of single fields, and the counts on `onset` (normalize.py).
use Prim.Native.String.{count}
use cap_alerts.Prelude.{
  ℕ, zero, suc, ◌+◌, ◌-◌, String, Bool, true, false, not, ◌&&◌, Option, none, some, List, [], ◌∷◌,
  ltb, leb, if◌then◌else◌, is_empty,
}
use cap_alerts.Prelude.Lists.{length, contains}
use cap_alerts.Prelude.Text.{concat}
use cap_alerts.Dict
use cap_alerts.Dict.{Dict}
use cap_alerts.Time.{FromIso, parse_iso}
use cap_alerts.Model.{CapAlert}
use cap_alerts.Model.Json.{Members, no_members, member}
use cap_alerts.Conventions.{SourceConventions}

abbrev phases_by_type : Dict String
phases_by_type = ("Alert", "new") ∷ ("Update", "update") ∷ ("Cancel", "cancel") ∷ []

abbrev or_new : Option String → String
or_new none = "new"
or_new (some phase) = phase

-- `_normalize_phase`
unfoldable pub normalize_phase : String → String
normalize_phase msg_type = or_new (Dict.get msg_type phases_by_type)

-- `expires_at is not None and now > expires_at`
abbrev pub is_past : ℕ → Option ℕ → Bool
is_past now none = false
is_past now (some at) = ltb at now

abbrev pub is_terminal_status : String → Dict String → Bool
is_terminal_status lifecycle_status terminal_statuses =
    not (is_empty lifecycle_status) && Dict.has lifecycle_status terminal_statuses

-- `_compute_phase`
unfoldable pub compute_phase : FromIso → String → String → ℕ → String → Dict String → String
unfolding normalize_phase
compute_phase from_iso expires msg_type now lifecycle_status terminal_statuses =
    if is_past now (parse_iso from_iso expires)
    then "expired"
    else if is_terminal_status lifecycle_status terminal_statuses
    then "cancel"
    else normalize_phase msg_type

-- `_CANONICAL_SEVERITIES`
abbrev pub canonical_severities : List String
canonical_severities = "extreme" ∷ "severe" ∷ "moderate" ∷ "minor" ∷ "unknown" ∷ []

abbrev pub hook : Option (CapAlert → Option String) → CapAlert → Option String
hook none a = none
hook (some severity) a = severity a

-- `MAX_STATE_LENGTH`
abbrev pub max_state_length : ℕ
max_state_length = 255

-- `value[:n]`
unfoldable pub take : ℕ → String → String
take zero value = ""
take (suc n) String.[] = ""
take (suc n) (String.◌∷◌ c value) = String.◌∷◌ c (take n value)

-- `_truncate_state`
unfoldable pub truncate_state : String → String
unfolding take
truncate_state value =
    if leb (count value) max_state_length
    then value
    else concat (take (max_state_length - 1) value) "…"

abbrev pub nothing : Option Members → Bool
nothing none = true
nothing (some no_members) = true
nothing (some (member key value others)) = false

-- `_geometry_ref`
unfoldable pub geometry_ref : CapAlert → String → String
geometry_ref a entry_id =
    if nothing a.geometry
    then ""
    else concat (if is_empty entry_id then "" else concat entry_id ":")
        (concat a.provider (concat ":" a.id))

-- `onset_at is not None and onset_at > now`
abbrev pub is_ahead : ℕ → Option ℕ → Bool
is_ahead now none = false
is_ahead now (some at) = ltb now at

module _ (from_iso : FromIso) (now : ℕ) where
  -- The loop of `count_by_onset`.
  unfoldable pub upcoming_in : List CapAlert → ℕ → ℕ
  upcoming_in [] upcoming = upcoming
  upcoming_in (a ∷ alerts) upcoming =
      upcoming_in alerts
        (if is_ahead now (parse_iso from_iso a.onset) then upcoming + 1 else upcoming)

  -- `count_by_onset`
  unfoldable pub count_by_onset : List CapAlert → ℕ × ℕ
  unfolding upcoming_in
  count_by_onset alerts = (length alerts - upcoming_in alerts 0, upcoming_in alerts 0)

-- `str.lower` is a parameter.
module _ (lower : String → String) where
  abbrev pub raw_severity : Option String → String → String
  raw_severity (some raw) severity = raw
  raw_severity none severity = if is_empty severity then "unknown" else lower severity

  -- `_normalize_severity`
  unfoldable pub normalize_severity : CapAlert → SourceConventions → String
  normalize_severity a conventions =
      let raw = raw_severity (hook conventions.severity a) a.severity in
      if contains raw canonical_severities then raw else "unknown"
