-- ===== src/Store/Process.antt =====
-- `process`, `restore` and the properties of `AlertStore` (store.py).
use cap_alerts.Prelude.{
  ℕ, ◌+◌, ◌-◌, ◌*◌, String, Bool, true, false, not, Option, none, some, List, [], ◌∷◌, ◌++◌, ltb,
  is_empty, if◌then◌else◌,
}
use cap_alerts.Prelude.Lists.{keep_if, contains}
use cap_alerts.Dict
use cap_alerts.Dict.{Dict}
use cap_alerts.Model.{CapAlert}
use cap_alerts.Store.State.{AlertStore, Host}
use cap_alerts.Store.Fields.{alert_from_record}
use cap_alerts.Store.Events.{flush_deferred}
use cap_alerts.Store.Reconcile.{Pass, visit_all, miss_all}
use cap_alerts.Store.Boot.{reconcile_known_at_boot}

-- `TOMBSTONE_IDLE_TTL`, 48 hours in microseconds.
abbrev pub tombstone_idle_ttl : ℕ
tombstone_idle_ttl = 48 * 3600 * 1000000

-- The keyword arguments of `process`.
pub record Options : Type 0 where
  pub scope_changed : Bool
  pub superseded_identifiers : List String
  pub fetched : Bool

-- `{a.id: a for a in alerts}`
unfoldable pub by_id_from : Dict CapAlert → List CapAlert → Dict CapAlert
by_id_from d [] = d
by_id_from d (a ∷ alerts) = by_id_from (Dict.put a.id a d) alerts

abbrev pub by_id : List CapAlert → Dict CapAlert
by_id = by_id_from []

-- `{prev.identifier: prev for prev in previous.values() if prev.identifier}`
unfoldable pub by_identifier_from : Dict CapAlert → Dict CapAlert → Dict CapAlert
by_identifier_from d [] = d
by_identifier_from d ((alert_id, prev) ∷ previous) =
    by_identifier_from (if is_empty prev.identifier then d else Dict.put prev.identifier prev d)
      previous

-- `referenced_identifiers`
unfoldable pub references_of : Dict CapAlert → List String
references_of [] = []
references_of ((alert_id, a) ∷ incoming) = a.references ++ references_of incoming

-- The tombstones that are still defended at `now`.
abbrev pub young : ℕ → Dict ℕ → Dict ℕ
young now = Dict.restrict (λ _ seen. ltb (now - tombstone_idle_ttl) seen)

-- The events of the last reconciliation go out, the count restarts, old tombstones age out.
unfoldable pub prepare : Host → ℕ → AlertStore → AlertStore
unfolding flush_deferred
prepare h now s = record (flush_deferred h s) {
  transitions = 0;
  tombstones = young now s.tombstones;
  tombstoned_identifiers = young now s.tombstoned_identifiers;
}

-- `for alert_id in incoming: if alert_id in active: last_seen[alert_id] = now_iso`
unfoldable pub confirm : String → Dict CapAlert → Dict CapAlert → Dict String → Dict String
confirm now_iso active [] seen = seen
confirm now_iso active ((alert_id, a) ∷ incoming) seen =
    confirm now_iso active incoming
      (if Dict.has alert_id active then Dict.put alert_id now_iso seen else seen)

-- What stands after the last event.
unfoldable pub settle : Host → ℕ → Dict CapAlert → Bool → Dict CapAlert → AlertStore → AlertStore
unfolding confirm
settle h now incoming fetched active s = record s {
  booting = if fetched then false else s.booting;
  last_seen =
      Dict.restrict (λ alert_id _. Dict.has alert_id active)
        (confirm (h.isoformat now) active incoming s.last_seen);
  restored = keep_if (λ id. Dict.has id active) s.restored;
  previous = active;
}

abbrev pub start : AlertStore → Pass
start s = record { store = s; active = []; result = [] }

-- Both loops of `process`, from the state that `prepare` left.
unfoldable pub passes : Host → ℕ → Options → Dict CapAlert → AlertStore → Pass
passes h now o incoming s =
    miss_all h now incoming o.scope_changed (references_of incoming ++ o.superseded_identifiers)
      s.previous (visit_all h now (by_identifier_from [] s.previous) incoming (start s))

abbrev pub finish : Host → ℕ → Bool → Dict CapAlert → Pass → AlertStore × List CapAlert
finish h now fetched incoming p = (
  settle h now incoming fetched p.active (reconcile_known_at_boot h now incoming fetched p.store),
  p.result,
)

-- `process`
unfoldable pub process :
    Host → ℕ → Options → List CapAlert → AlertStore → AlertStore × List CapAlert
unfolding passes prepare settle
process h now o alerts s =
    finish h now o.fetched (by_id alerts) (passes h now o (by_id alerts) (prepare h now s))

abbrev has_text : Option String → Bool
has_text none = false
has_text (some s) = not (is_empty s)

abbrev seed : String → String → Dict String → AlertStore → AlertStore
seed confirmed_at alert_id record' s = record s {
  known_at_boot = Dict.remove alert_id s.known_at_boot;
  previous =
      Dict.put alert_id
        (record (alert_from_record alert_id s.provider record') {
          stale = true;
          last_confirmed = confirmed_at;
        })
        s.previous;
  last_seen = Dict.put alert_id confirmed_at s.last_seen;
  restored = if contains alert_id s.restored then s.restored else alert_id ∷ s.restored;
  seeded_count = s.seeded_count + 1;
}

unfoldable pub restore_all : String → Dict (Dict String) → AlertStore → AlertStore
restore_all confirmed_at [] s = s
restore_all confirmed_at ((alert_id, record') ∷ records) s =
    restore_all confirmed_at records
      (if has_text (Dict.get "identifier" record') then seed confirmed_at alert_id record' s else s)

-- `restore`
unfoldable pub restore : Dict (Dict String) → String → AlertStore → AlertStore
unfolding restore_all
restore records confirmed_at s = restore_all confirmed_at records (record s { seeded_count = 0 })

-- `boot_pending`
abbrev pub boot_pending : AlertStore → List String
boot_pending s = Dict.keys s.known_at_boot
