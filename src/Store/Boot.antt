-- ===== src/Store/Boot.antt =====
-- `_reconcile_known_at_boot` of store.py: the alerts that the registry knew before the restart.
use cap_alerts.Prelude.{ℕ, ◌+◌, String, Bool, true, none, [], ◌∷◌, ltb, if◌then◌else◌}
use cap_alerts.Prelude.Text.{text_le}
use cap_alerts.Dict
use cap_alerts.Dict.{Dict}
use cap_alerts.Model.{CapAlert, blank}
use cap_alerts.Store.State.{AlertStore, Host, removed, tombstone}
use cap_alerts.Store.Absence.{nonempty}
use cap_alerts.Store.Events.{fire_event}

-- `sorted(d.items())`; the keys are distinct, so the order is theirs.
unfoldable pub insert_sorted : String → String → Dict String → Dict String
insert_sorted k v [] = (k, v) ∷ []
insert_sorted k v ((j, w) ∷ d) =
    let rest = insert_sorted k v d in if text_le k j then (k, v) ∷ (j, w) ∷ d else (j, w) ∷ rest

unfoldable pub sorted_items : Dict String → Dict String
unfolding insert_sorted
sorted_items [] = []
sorted_items ((k, v) ∷ d) = insert_sorted k v (sorted_items d)

-- `for alert_id in incoming: d.pop(alert_id, None)`
unfoldable pub pop_keys : Dict CapAlert → Dict String → Dict String
pop_keys [] d = d
pop_keys ((alert_id, a) ∷ incoming) d = pop_keys incoming (Dict.remove alert_id d)

-- What the registry kept of an alert.
abbrev pub registry_alert : String → String → String → CapAlert
registry_alert provider alert_id event = record (blank alert_id) {
  provider = provider;
  event = event;
  phase = "cancel";
  severity_normalized = "unknown";
}

module _ (h : Host) (now : ℕ) where
  unfoldable pub announce_gone : Dict String → AlertStore → AlertStore
  announce_gone [] s = s
  announce_gone ((alert_id, event) ∷ known) s = announce_gone known (
      fire_event h removed (registry_alert s.provider alert_id event) true [] none
        (tombstone alert_id "" now s))

  -- The part after the set is known to be nonempty and the incoming ids have left it.
  unfoldable pub count_fetch : AlertStore → AlertStore
  unfolding announce_gone sorted_items
  count_fetch s =
      if ltb (s.reconciliations + 1) 2
      then record s { reconciliations = s.reconciliations + 1 }
      else record (announce_gone (sorted_items s.known_at_boot)
          (record s { reconciliations = s.reconciliations + 1 })) { known_at_boot = [] }

  unfoldable pub reconcile_known_at_boot : Dict CapAlert → Bool → AlertStore → AlertStore
  unfolding count_fetch pop_keys
  reconcile_known_at_boot incoming fetched s =
      let seen = record s { known_at_boot = pop_keys incoming s.known_at_boot } in
      if nonempty s.known_at_boot then (if fetched then count_fetch seen else seen) else s
