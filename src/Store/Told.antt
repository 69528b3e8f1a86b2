-- ===== src/Store/Told.antt =====
-- What a step of either loop of `process` (store.py) adds to the announced endings.
use cap_alerts.Prelude.{
  ℕ, ◌+◌, String, ◌≡◌, refl, inl, inr, true, Option, none, some, List, [], arith, ◌==◌, Bool-cases,
  Option-cases,
}
use cap_alerts.Dict
use cap_alerts.Dict.{Dict}
use cap_alerts.Model.{CapAlert}
use cap_alerts.Store.State.{Host, created, updated, removed, Event, tombstone}
use cap_alerts.Store.Removals.{removals, one_if, removals-fire_event}
use cap_alerts.Store.Reconcile.{
  Pass, is_terminal, ended, following, moved, admit_superseding, admit_new, admit_known, admit,
  superseded_prev, no_longer_restored, changed_fields, suppressed, revive, visit, nil,
}

-- Nothing is added, or one ending of the alert, which is terminal and was not suppressed.
pub data Told (id : String) (a : CapAlert) (xs ys : List Event) : Type 0 where
  quiet : removals id ys ≡ removals id xs → Told id a xs ys
  told :
      is_terminal a ≡ true → removals id ys ≡ removals id xs + one_if (a.id == id) → Told id a xs ys

module _ (id : String) (h : Host) (now : ℕ) (alert_id : String) (a : CapAlert) (p : Pass) where
  admit_superseding-Told :
      (prev : CapAlert)
      → Told id a p.store.fired (admit_superseding h now prev alert_id a p).store.fired
  unfolding admit_superseding tombstone no_longer_restored
  admit_superseding-Told prev = elim (Bool-cases (is_terminal a)) [
    | inl t ↦ rw t (told t (removals-fire_event id h removed _ _ _ _ _))
    | inr t ↦ rw t (
        quiet (
          omega (
            arith,
            removals-fire_event id h updated (following prev a) (moved prev a)
                (changed_fields prev a p.store) (some prev) (no_longer_restored prev p.store),
          )))
  ]

  admit_new-Told : Told id a p.store.fired (admit_new h now alert_id a p).store.fired
  unfolding admit_new tombstone
  admit_new-Told = elim (Bool-cases (is_terminal a)) [
    | inl t ↦ elim (Bool-cases (Dict.has alert_id p.store.known_at_boot)) [
      | inl k ↦ rw (t, k) (told t (removals-fire_event id h removed _ _ _ _ _))
      | inr k ↦ rw (t, k) (told t (removals-fire_event id h removed _ _ _ _ _))
    ]
    | inr t ↦ elim (Bool-cases (Dict.has alert_id p.store.known_at_boot)) [
      | inl k ↦ rw (t, k) (quiet refl)
      | inr k ↦
          rw (t, k)
            (quiet (
              omega (
                arith,
                removals-fire_event id h created (record a { phase_changed = true }) true [] none
                    p.store,
              )))
    ]
  ]

  admit_known-Told :
      (prev : CapAlert) → Told id a p.store.fired (admit_known h now prev alert_id a p).store.fired
  unfolding admit_known tombstone no_longer_restored
  admit_known-Told prev = elim (Bool-cases (is_terminal a)) [
    | inl t ↦ rw t (told t (removals-fire_event id h removed _ _ _ _ _))
    | inr t ↦ elim (Bool-cases (nil (changed_fields prev a p.store))) [
      | inl k ↦ rw (t, k) (quiet refl)
      | inr k ↦
          rw (t, k)
            (quiet (
              omega (
                arith,
                removals-fire_event id h updated (following prev a) (moved prev a)
                    (changed_fields prev a p.store) (some prev) (no_longer_restored prev p.store),
              )))
    ]
  ]

  admit-Told :
      (ids : Dict CapAlert) (found : Option CapAlert)
      → Told id a p.store.fired (admit h now ids found alert_id a p).store.fired
  admit-Told ids (some prev) = admit_known-Told prev
  admit-Told ids none = elim (Option-cases (superseded_prev ids a.references)) [
    | inl e ↦ rw e admit_new-Told
    | inr (prev, e) ↦ rw e (admit_superseding-Told prev)
  ]

pub visit-Told :
    (id : String) (h : Host) (now : ℕ) (ids : Dict CapAlert) (alert_id : String) (a : CapAlert)
    (p : Pass)
    → Told id a p.store.fired (visit h now ids alert_id a p).store.fired
unfolding visit tombstone revive
visit-Told id h now ids alert_id a p = elim (Bool-cases (is_terminal a)) [
  | inl t ↦ elim (Bool-cases (suppressed alert_id a p.store)) [
    | inl q ↦ rw (t, q) (quiet refl)
    | inr q ↦ rw (t, q) (admit-Told id h now alert_id a p ids (Dict.get alert_id p.store.previous))
  ]
  | inr t ↦ rw t (
      admit-Told id h now alert_id a (ended (revive alert_id a.references p.store) p) ids
        (Dict.get alert_id p.store.previous))
]

-- A terminal alert whose id is tombstoned is suppressed.
pub visit_suppressed :
    (id : String) (h : Host) (now : ℕ) (ids : Dict CapAlert) (alert_id : String) (a : CapAlert)
    (p : Pass)
    → is_terminal a ≡ true
    → Dict.has alert_id p.store.tombstones ≡ true
    → removals id (visit h now ids alert_id a p).store.fired ≡ removals id p.store.fired
unfolding visit tombstone suppressed
visit_suppressed id h now ids alert_id a p t q = rw (t, q)
