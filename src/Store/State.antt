-- ===== src/Store/State.antt =====
-- The state of `AlertStore` (store.py), its events, and what the store needs from its host. The
-- calls of `fire` are recorded in order in `fired`.
use cap_alerts.Prelude.{ℕ, String, Bool, true, Option, List, [], is_empty, if◌then◌else◌}
use cap_alerts.Dict
use cap_alerts.Dict.{Dict}
use cap_alerts.Model.{CapAlert}
use cap_alerts.Conventions.{Rows}
use cap_alerts.Time.{FromIso}

-- `EVENT_INCIDENT_CREATED`, `_UPDATED` and `_REMOVED`.
pub data EventType : Type 0 where
  created updated removed : EventType

-- The payload dictionary; a key that may be missing is an option.
pub record Payload : Type 0 where
  pub entry_id : String
  pub incident_id : String
  pub event : String
  pub severity : String
  pub phase : String
  pub phase_changed : Bool
  pub changed_fields : List String
  pub area_desc : String
  pub previous_severity : Option String
  pub removal_reason : Option String
  pub superseded_by : Option String
  pub entity_id : Option String

abbrev pub Event : Type 0
Event = EventType × Payload

-- `lookup_entity_id`, the convention rows in force, and Python's `datetime` conversions.
pub record Host : Type 0 where
  pub lookup_entity_id : String → Option String
  pub rows : Rows
  pub from_iso : FromIso
  pub isoformat : ℕ → String

pub record AlertStore : Type 0 where
  pub entry_id : String
  pub provider : String
  pub defer_until_registered : Bool
  pub previous : Dict CapAlert
  pub deferred : Dict Event
  pub last_seen : Dict String
  pub tombstones : Dict ℕ
  pub tombstoned_identifiers : Dict ℕ
  pub known_at_boot : Dict String
  pub restored : List String
  pub seeded_count : ℕ
  pub reconciliations : ℕ
  pub transitions : ℕ
  pub booting : Bool
  pub fired : List Event

-- `__init__`
abbrev pub new_store : String → String → Dict String → Bool → AlertStore
new_store entry_id provider known_at_boot defer_until_registered = record {
  entry_id = entry_id;
  provider = provider;
  defer_until_registered = defer_until_registered;
  previous = [];
  deferred = [];
  last_seen = [];
  tombstones = [];
  tombstoned_identifiers = [];
  known_at_boot = known_at_boot;
  restored = [];
  seeded_count = 0;
  reconciliations = 0;
  transitions = 0;
  booting = true;
  fired = [];
}

-- `_tombstone`
unfoldable pub tombstone : String → String → ℕ → AlertStore → AlertStore
tombstone alert_id identifier now s = record s {
  tombstones = Dict.put alert_id now s.tombstones;
  tombstoned_identifiers =
      if is_empty identifier
      then s.tombstoned_identifiers
      else Dict.put identifier now s.tombstoned_identifiers;
}
