-- ===== src/Store/Events.antt =====
-- `_fire_event`, `release` and `_flush_deferred` of store.py.
use cap_alerts.Prelude.{
  ◌+◌, String, Bool, true, false, not, ◌&&◌, Option, none, some, List, [], ◌∷◌, ◌++◌, ◌==◌,
  is_empty, if◌then◌else◌,
}
use cap_alerts.Dict
use cap_alerts.Dict.{Dict}
use cap_alerts.Model.{CapAlert}
use cap_alerts.Store.State.{EventType, updated, removed, Payload, Event, Host, AlertStore}
use cap_alerts.Store.Absence.{removal_reason, superseded_by, removal_reason_superseded}

abbrev pub is_removed : EventType → Bool
is_removed removed = true
is_removed _ = false

-- `if text: payload[key] = text`
abbrev if_given : String → Option String
if_given s = if is_empty s then none else some s

abbrev successor : Option String → Option String
successor none = none
successor (some s) = if_given s

abbrev severity_before : EventType → Option CapAlert → Option String
severity_before updated (some prev) = some prev.severity_normalized
severity_before _ _ = none

-- The payload that `_fire_event` builds, the entity's id included.
unfoldable pub payload :
    Host → AlertStore → EventType → CapAlert → Bool → List String → Option CapAlert → Payload
payload h s kind a phase_changed changed previous = record {
  entry_id = s.entry_id;
  incident_id = a.id;
  event = a.event;
  severity = a.severity_normalized;
  phase = a.phase;
  phase_changed = phase_changed;
  changed_fields = changed;
  area_desc = a.area_desc;
  previous_severity = severity_before kind previous;
  removal_reason = if is_removed kind then if_given (removal_reason h a) else none;
  superseded_by =
      if is_removed kind && removal_reason h a == removal_reason_superseded
      then successor (superseded_by h a)
      else none;
  entity_id = h.lookup_entity_id a.id;
}

abbrev pub is_none : Option String → Bool
is_none none = true
is_none (some x) = false

-- Whether an event waits for its entity.
unfoldable pub parks : Host → AlertStore → EventType → CapAlert → Bool
parks h s kind a =
    is_none (h.lookup_entity_id a.id) && s.defer_until_registered && not (is_removed kind)

-- `_fire_event`
unfoldable pub fire_event :
    Host → EventType → CapAlert → Bool → List String → Option CapAlert → AlertStore → AlertStore
unfolding parks
fire_event h kind a phase_changed changed previous s =
    let event : Event = (kind, payload h s kind a phase_changed changed previous) in
    record s {
      transitions = s.transitions + 1;
      deferred = if parks h s kind a then Dict.put a.id event s.deferred else s.deferred;
      fired = if parks h s kind a then s.fired else s.fired ++ event ∷ [];
    }

-- `payload["entity_id"] = entity_id`
abbrev pub with_entity : String → Event → Event
with_entity entity_id (kind, p) = (kind, record p { entity_id = some entity_id })

abbrev release_parked : String → String → Option Event → AlertStore → AlertStore
release_parked alert_id entity_id none s = s
release_parked alert_id entity_id (some event) s = record s {
  deferred = Dict.remove alert_id s.deferred;
  fired = s.fired ++ with_entity entity_id event ∷ [];
}

-- `release`
unfoldable pub release : String → String → AlertStore → AlertStore
release alert_id entity_id s = release_parked alert_id entity_id (Dict.get alert_id s.deferred) s

-- One parked event, with the entity that is registered by now, if any.
abbrev pub registered : Option String → Event → Event
registered none event = event
registered (some entity_id) event = with_entity entity_id event

unfoldable pub late_events : Host → Dict Event → List Event
late_events h [] = []
late_events h ((alert_id, event) ∷ d) =
    registered (h.lookup_entity_id alert_id) event ∷ late_events h d

-- `_flush_deferred`
unfoldable pub flush_deferred : Host → AlertStore → AlertStore
unfolding late_events
flush_deferred h s = record s { deferred = []; fired = s.fired ++ late_events h s.deferred }
