-- ===== src/Store/Unparked.antt =====
-- No step of `process` (store.py) parks a removal.
use cap_alerts.Prelude.{
  ℕ, String, inl, inr, Bool, Option, none, some, List, [], ◌∷◌, Bool-cases, Option-cases, ltb, ◌+◌,
}
use cap_alerts.Dict
use cap_alerts.Dict.{Dict}
use cap_alerts.Model.{CapAlert}
use cap_alerts.Store.State.{AlertStore, Host, created, updated, removed, tombstone}
use cap_alerts.Store.Absence.{nonempty}
use cap_alerts.Store.Removals.{NoParkedRemoval, NoParkedRemoval-fire_event}
use cap_alerts.Store.Reconcile.{
  Pass, is_terminal, ended, admit_superseding, admit_new, admit_known, admit, superseded_prev,
  no_longer_restored, changed_fields, suppressed, revive, visit, visit_all, nil, miss, miss_all,
  replaced, retains,
}
use cap_alerts.Store.Boot.{announce_gone, sorted_items, pop_keys, reconcile_known_at_boot}
use cap_alerts.Store.Process.{Options, passes, start}

abbrev Unparked : AlertStore → Type 0
Unparked s = NoParkedRemoval s.deferred

module _ (h : Host) (now : ℕ) where
  admit_superseding-Unparked :
      (prev : CapAlert) (alert_id : String) (a : CapAlert) (p : Pass)
      → Unparked p.store
      → Unparked (admit_superseding h now prev alert_id a p).store
  unfolding admit_superseding tombstone no_longer_restored
  admit_superseding-Unparked prev alert_id a p n = elim (Bool-cases (is_terminal a)) [
    | inl t ↦ rw t (NoParkedRemoval-fire_event h removed _ _ _ _ _ n)
    | inr t ↦ rw t (NoParkedRemoval-fire_event h updated _ _ _ _ _ n)
  ]

  admit_new-Unparked :
      (alert_id : String) (a : CapAlert) (p : Pass)
      → Unparked p.store
      → Unparked (admit_new h now alert_id a p).store
  unfolding admit_new tombstone
  admit_new-Unparked alert_id a p n = elim (Bool-cases (is_terminal a)) [
    | inl t ↦ elim (Bool-cases (Dict.has alert_id p.store.known_at_boot)) [
      | inl k ↦ rw (t, k) (NoParkedRemoval-fire_event h removed _ _ _ _ _ n)
      | inr k ↦ rw (t, k) (NoParkedRemoval-fire_event h removed _ _ _ _ _ n)
    ]
    | inr t ↦ elim (Bool-cases (Dict.has alert_id p.store.known_at_boot)) [
      | inl k ↦ rw (t, k) n
      | inr k ↦ rw (t, k) (NoParkedRemoval-fire_event h created _ _ _ _ _ n)
    ]
  ]

  admit_known-Unparked :
      (prev : CapAlert) (alert_id : String) (a : CapAlert) (p : Pass)
      → Unparked p.store
      → Unparked (admit_known h now prev alert_id a p).store
  unfolding admit_known tombstone no_longer_restored
  admit_known-Unparked prev alert_id a p n = elim (Bool-cases (is_terminal a)) [
    | inl t ↦ rw t (NoParkedRemoval-fire_event h removed _ _ _ _ _ n)
    | inr t ↦ elim (Bool-cases (nil (changed_fields prev a p.store))) [
      | inl k ↦ rw (t, k) n
      | inr k ↦ rw (t, k) (NoParkedRemoval-fire_event h updated _ _ _ _ _ n)
    ]
  ]

  admit-Unparked :
      (ids : Dict CapAlert) (found : Option CapAlert) (alert_id : String) (a : CapAlert) (p : Pass)
      → Unparked p.store
      → Unparked (admit h now ids found alert_id a p).store
  admit-Unparked ids (some prev) alert_id a p n = admit_known-Unparked prev alert_id a p n
  admit-Unparked ids none alert_id a p n = elim (Option-cases (superseded_prev ids a.references)) [
    | inl e ↦ rw e (admit_new-Unparked alert_id a p n)
    | inr (prev, e) ↦ rw e (admit_superseding-Unparked prev alert_id a p n)
  ]

  visit-Unparked :
      (ids : Dict CapAlert) (alert_id : String) (a : CapAlert) (p : Pass)
      → Unparked p.store
      → Unparked (visit h now ids alert_id a p).store
  unfolding visit tombstone revive
  visit-Unparked ids alert_id a p n = elim (Bool-cases (is_terminal a)) [
    | inl t ↦ elim (Bool-cases (suppressed alert_id a p.store)) [
      | inl q ↦ rw (t, q) n
      | inr q ↦ rw (t, q) (admit-Unparked ids (Dict.get alert_id p.store.previous) alert_id a p n)
    ]
    | inr t ↦ rw t (
        admit-Unparked ids (Dict.get alert_id p.store.previous) alert_id a
          (ended (revive alert_id a.references p.store) p) n)
  ]

  visit_all-Unparked :
      (ids incoming : Dict CapAlert) (p : Pass)
      → Unparked p.store
      → Unparked (visit_all h now ids incoming p).store
  unfolding visit_all
  visit_all-Unparked ids [] p n = n
  visit_all-Unparked ids ((alert_id, a) ∷ incoming) p n =
      visit_all-Unparked ids incoming (visit h now ids alert_id a p)
        (visit-Unparked ids alert_id a p n)

  miss-Unparked :
      (scope_changed : Bool) (refs : List String) (alert_id : String) (prev : CapAlert) (p : Pass)
      → Unparked p.store
      → Unparked (miss h now scope_changed refs alert_id prev p).store
  unfolding miss tombstone
  miss-Unparked scope_changed refs alert_id prev p n = elim (Bool-cases (replaced refs prev)) [
    | inl r ↦ rw r n
    | inr r ↦ elim (Bool-cases (retains h now scope_changed prev)) [
      | inl k ↦ rw (r, k) n
      | inr k ↦ rw (r, k) (NoParkedRemoval-fire_event h removed _ _ _ _ _ n)
    ]
  ]

  miss_all-Unparked :
      (incoming : Dict CapAlert) (scope_changed : Bool) (refs : List String)
      (previous : Dict CapAlert) (p : Pass)
      → Unparked p.store
      → Unparked (miss_all h now incoming scope_changed refs previous p).store
  unfolding miss_all
  miss_all-Unparked incoming scope_changed refs [] p n = n
  miss_all-Unparked incoming scope_changed refs ((alert_id, prev) ∷ previous) p n =
      elim (Bool-cases (Dict.has alert_id incoming)) [
        | inl q ↦ rw (miss_all, q) (miss_all-Unparked incoming scope_changed refs previous p n)
        | inr q ↦
            rw (miss_all, q)
              (miss_all-Unparked incoming scope_changed refs previous
                (miss h now scope_changed refs alert_id prev p)
                (miss-Unparked scope_changed refs alert_id prev p n))
      ]

  announce_gone-Unparked :
      (known : Dict String) (s : AlertStore) → Unparked s → Unparked (announce_gone h now known s)
  unfolding announce_gone tombstone
  announce_gone-Unparked [] s n = n
  announce_gone-Unparked ((alert_id, event) ∷ known) s n =
      announce_gone-Unparked known _ (NoParkedRemoval-fire_event h removed _ _ _ _ _ n)

  reconcile-Unparked :
      (incoming : Dict CapAlert) (fetched : Bool) (s : AlertStore)
      → Unparked s
      → Unparked (reconcile_known_at_boot h now incoming fetched s)
  unfolding reconcile_known_at_boot
  reconcile-Unparked incoming fetched s n = elim (Bool-cases (nonempty s.known_at_boot)) [
    | inl q ↦ elim (Bool-cases fetched) [
      | inl f ↦ elim (Bool-cases (ltb (s.reconciliations + 1) 2)) [
        | inl l ↦ rw (reconcile_known_at_boot, q, f, l) n
        | inr l ↦
            rw (reconcile_known_at_boot, q, f, l)
              (announce_gone-Unparked (sorted_items (pop_keys incoming s.known_at_boot))
                (record s {
                  known_at_boot = pop_keys incoming s.known_at_boot;
                  reconciliations = s.reconciliations + 1;
                })
                n)
      ]
      | inr f ↦ rw (reconcile_known_at_boot, q, f) n
    ]
    | inr q ↦ rw (reconcile_known_at_boot, q) n
  ]

  -- Nothing that `process` parks, from nothing parked, is a removal.
  pub passes-Unparked :
      (o : Options) (incoming : Dict CapAlert) (s : AlertStore)
      → Unparked s
      → Unparked
          (reconcile_known_at_boot h now incoming o.fetched (passes h now o incoming s).store)
  unfolding passes
  passes-Unparked o incoming s n = reconcile-Unparked incoming o.fetched _ (
      miss_all-Unparked incoming o.scope_changed _ s.previous _
        (visit_all-Unparked _ incoming (start s) n))
