-- ===== src/Samples/CoordinatorRuns.antt =====
-- Runs of the coordinator's filters and of its events (coordinator.py).
use cap_alerts.Prelude.{◌≡◌, refl, String, true, false, none, some, List, [], ◌∷◌, ◌++◌}
use cap_alerts.Dict
use cap_alerts.Model.{CapAlert, blank}
use cap_alerts.Prelude.Lists.{All, contains}
use cap_alerts.Model.Json.{Members, member, no_members, string}
use cap_alerts.GeometryStore.Evict.{
  Hashing, GeometryStore, new_geometry_store, put_content, put_serialized, written,
  evict_owner_to_cap, evict_loop, oldest, drop, owner_of, purge_missing, purge_refs,
}
use cap_alerts.Coordinator.Polygons.{apply_polygons, externalized}
use cap_alerts.Coordinator.Published.{Publishes, refs_of, store_of, alerts_of, apply_polygons-refs}
use cap_alerts.Store.State.{Payload}
use cap_alerts.Coordinator.Filters.{
  filter_by_geocode_prefixes, matches_geocode_prefixes, exclude_marine_alerts,
}
use cap_alerts.Coordinator.Events.{
  Call, begin, event, job, starts, drain, new_cycle, all_called, called, begin_cycle, post_event,
  after_held_events, fire_held_events,
}
use cap_alerts.Coordinator.InOrder.{told, events_in, told-all_called}

abbrev fold : String → String
fold text = text

abbrev zhangjiakou : CapAlert
zhangjiakou = record (blank "a") { geocodes = ("CMA", "130709" ∷ []) ∷ [] }

abbrev elsewhere : CapAlert
elsewhere = record (blank "b") { geocodes = ("CMA", "44" ∷ []) ∷ []; is_marine = true }

narrowed :
    filter_by_geocode_prefixes fold (zhangjiakou ∷ elsewhere ∷ []) ("13" ∷ [])
    ≡ some (zhangjiakou ∷ [])
unfolding filter_by_geocode_prefixes matches_geocode_prefixes Dict.values
narrowed = refl

no_codes : filter_by_geocode_prefixes fold (blank "c" ∷ []) ("13" ∷ []) ≡ none
unfolding filter_by_geocode_prefixes matches_geocode_prefixes Dict.values
no_codes = refl

ashore : exclude_marine_alerts (zhangjiakou ∷ elsewhere ∷ []) true ≡ zhangjiakou ∷ []
unfolding exclude_marine_alerts
ashore = refl

abbrev created : Payload
created = record {
  entry_id = "entry";
  incident_id = "a";
  event = "Flood";
  severity = "severe";
  phase = "new";
  phase_changed = true;
  changed_fields = [];
  area_desc = "";
  previous_severity = none;
  removal_reason = none;
  superseded_by = none;
  entity_id = none;
}

-- Two events before the start, a waiting job, and one event after the start.
abbrev calls : List Call
calls =
    begin
    ∷ event "incident_created" created
    ∷ job 7
    ∷ starts
    ∷ event "incident_updated" created
    ∷ drain
    ∷ event "incident_removed" created
    ∷ []

nothing_held : (all_called calls (new_cycle false)).held_events ≡ none
unfolding all_called called begin_cycle post_event after_held_events fire_held_events
nothing_held = refl

told-all_called_example :
    told (all_called calls (new_cycle false))
    ≡ told (new_cycle false) ++ events_in calls (new_cycle false)
told-all_called_example = told-all_called calls (new_cycle false)

abbrev hashing : Hashing
hashing = record { serialize = λ m. "{}"; digest = λ text. "d1" }

abbrev point : Members
point = member "type" (string "Point") no_members

abbrev mapped : CapAlert
mapped = record (blank "m") { geometry = some point; geometry_ref = "entry:nws:m"; phase = "new" }

-- A store with a polygon of this entry that nobody keeps, and one of another entry.
abbrev stocked : GeometryStore
stocked = record (new_geometry_store none) {
  entries = ("entry:nws:old:d0", point) ∷ ("other:nws:x:d0", point) ∷ [];
  sizes = ("entry:nws:old:d0", 2) ∷ ("other:nws:x:d0", 2) ∷ [];
  owner_bytes = ("entry", 2) ∷ ("other", 2) ∷ [];
}

published :
    Dict.keys (store_of (apply_polygons hashing "entry" (mapped ∷ []) stocked)).entries
    ≡ "other:nws:x:d0" ∷ "entry:nws:m:d1" ∷ []
unfolding apply_polygons externalized put_content put_serialized written evict_owner_to_cap
    evict_loop oldest drop owner_of purge_missing purge_refs Dict.keys Dict.get Dict.put Dict.has
    Dict.remove
published = refl

apply_polygons-refs_example :
    All
      (Publishes (refs_of (apply_polygons hashing "entry" (mapped ∷ []) stocked)))
      (alerts_of (apply_polygons hashing "entry" (mapped ∷ []) stocked))
    × (Dict.has "entry:nws:old:d0"
          (store_of (apply_polygons hashing "entry" (mapped ∷ []) stocked)).entries
        ≡ false)
apply_polygons-refs_example =
    apply_polygons-refs hashing "entry" (mapped ∷ []) stocked "entry:nws:old:d0" refl nobody
  where
    nobody :
        contains "entry:nws:old:d0" (refs_of (apply_polygons hashing "entry" (mapped ∷ []) stocked))
        ≡ false
    nobody = unfold apply_polygons externalized put_content in refl
