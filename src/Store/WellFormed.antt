-- ===== src/Store/WellFormed.antt =====
-- The well-formedness of an alert store between two reconciliations (store.py), and what `process`
-- starts from.
use cap_alerts.Prelude.{ℕ, String, ◌≡◌, refl, Bool, true, false, none, List, [], ◌∷◌}
use cap_alerts.Dict
use cap_alerts.Dict.{Dict, Distinct}
use cap_alerts.Dict.Laws.{Every-put, Distinct-put}
use cap_alerts.Dict.Restrict.{get-restrict_absent}
use cap_alerts.Model.{CapAlert}
use cap_alerts.Store.State.{AlertStore, Host, new_store}
use cap_alerts.Store.Removals.{NoParkedRemoval, removals-flush_deferred, removals}
use cap_alerts.Store.Local.{Keyed}
use cap_alerts.Store.Process.{by_id, by_id_from, prepare}

-- Every tracked alert stands once and under its own id; no id is at once tracked and awaited from
-- before the boot, or either of them and tombstoned; no removal is parked.
pub record IsWellFormed (s : AlertStore) : Type 0 where
  pub keyed : Keyed s.previous
  pub distinct : Distinct s.previous
  pub known_distinct : Distinct s.known_at_boot
  pub unparked : NoParkedRemoval s.deferred
  pub live_unknown :
      (id : String) → Dict.has id s.previous ≡ true → Dict.has id s.known_at_boot ≡ false
  pub live_untold : (id : String) → Dict.has id s.previous ≡ true → Dict.get id s.tombstones ≡ none
  pub known_untold :
      (id : String) → Dict.has id s.known_at_boot ≡ true → Dict.get id s.tombstones ≡ none

Keyed-by_id_from :
    (d : Dict CapAlert) (alerts : List CapAlert) → Keyed d → Keyed (by_id_from d alerts)
unfolding by_id_from
Keyed-by_id_from d [] h = h
Keyed-by_id_from d (a ∷ alerts) h =
    Keyed-by_id_from (Dict.put a.id a d) alerts
      (Every-put (λ alert_id b. b.id ≡ alert_id) a.id a d h refl)

pub Keyed-by_id : (alerts : List CapAlert) → Keyed (by_id alerts)
Keyed-by_id alerts = Keyed-by_id_from [] alerts tt

Distinct-by_id_from :
    (d : Dict CapAlert) (alerts : List CapAlert) → Distinct d → Distinct (by_id_from d alerts)
unfolding by_id_from
Distinct-by_id_from d [] h = h
Distinct-by_id_from d (a ∷ alerts) h =
    Distinct-by_id_from (Dict.put a.id a d) alerts (Distinct-put a.id a d h)

pub Distinct-by_id : (alerts : List CapAlert) → Distinct (by_id alerts)
Distinct-by_id alerts = Distinct-by_id_from [] alerts tt

module _ (h : Host) (now : ℕ) where
  pub removals-prepare :
      (id : String) (s : AlertStore)
      → NoParkedRemoval s.deferred
      → removals id (prepare h now s).fired ≡ removals id s.fired
  unfolding prepare
  removals-prepare id s n = removals-flush_deferred id h s n

  -- Preparing keeps well-formedness: tombstones only go, and nothing is parked.
  pub prepare-IsWellFormed : {s : AlertStore} → IsWellFormed s → IsWellFormed (prepare h now s)
  unfolding prepare
  prepare-IsWellFormed {s} w = record {
    keyed = w.keyed;
    distinct = w.distinct;
    known_distinct = w.known_distinct;
    unparked = tt;
    live_unknown = w.live_unknown;
    live_untold = λ id q. get-restrict_absent _ id s.tombstones (w.live_untold id q);
    known_untold = λ id q. get-restrict_absent _ id s.tombstones (w.known_untold id q);
  }

-- A new store, over distinct ids from before the boot, is well formed.
pub new_store-IsWellFormed :
    (entry_id provider : String) (known : Dict String) (defer_until_registered : Bool)
    → Distinct known
    → IsWellFormed (new_store entry_id provider known defer_until_registered)
unfolding Dict.get Dict.has
new_store-IsWellFormed entry_id provider known defer_until_registered d = record {
  keyed = tt;
  distinct = tt;
  known_distinct = d;
  unparked = tt;
  live_unknown = λ id q. cc;
  live_untold = λ id q. refl;
  known_untold = λ id q. refl;
}
