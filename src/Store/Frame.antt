-- ===== src/Store/Frame.antt =====
-- What the steps of `process` (store.py) leave alone: everything but the tombstones, the restored
-- marks, the parked and fired events and their count.
use cap_alerts.Prelude.{
  ℕ, String, ◌≡◌, refl, ◌∙◌, inl, inr, Bool, Option, none, some, List, [], ◌∷◌, Bool-cases,
  Option-cases,
}
use cap_alerts.Dict
use cap_alerts.Dict.{Dict}
use cap_alerts.Model.{CapAlert}
use cap_alerts.Store.State.{AlertStore, Host, tombstone}
use cap_alerts.Store.Events.{fire_event}
use cap_alerts.Store.Reconcile.{
  Pass, is_terminal, admit_superseding, admit_new, admit_known, admit, superseded_prev,
  no_longer_restored, changed_fields, ended, suppressed, revive, visit, visit_all, nil, miss,
  miss_all, replaced, retains,
}
use cap_alerts.Store.Boot.{announce_gone}

abbrev frame :
    AlertStore → String × String × Bool × Dict CapAlert × Dict String × Dict String × ℕ × ℕ × Bool
frame s = (
  s.entry_id, s.provider, s.defer_until_registered, s.previous, s.last_seen, s.known_at_boot,
  s.seeded_count, s.reconciliations, s.booting,
)

abbrev pub Frame : AlertStore → AlertStore → Type 0
Frame s t = frame t ≡ frame s

module _ (h : Host) (now : ℕ) where
  admit_superseding-Frame :
      (prev : CapAlert) (alert_id : String) (a : CapAlert) (p : Pass)
      → Frame p.store (admit_superseding h now prev alert_id a p).store
  unfolding admit_superseding fire_event tombstone no_longer_restored
  admit_superseding-Frame prev alert_id a p = elim (Bool-cases (is_terminal a)) [
    | inl t ↦ rw t
    | inr t ↦ rw t
  ]

  admit_new-Frame :
      (alert_id : String) (a : CapAlert) (p : Pass)
      → Frame p.store (admit_new h now alert_id a p).store
  unfolding admit_new fire_event tombstone no_longer_restored
  admit_new-Frame alert_id a p = elim (Bool-cases (is_terminal a)) [
    | inl t ↦ elim (Bool-cases (Dict.has alert_id p.store.known_at_boot)) [
      | inl k ↦ rw (t, k)
      | inr k ↦ rw (t, k)
    ]
    | inr t ↦ elim (Bool-cases (Dict.has alert_id p.store.known_at_boot)) [
      | inl k ↦ rw (t, k)
      | inr k ↦ rw (t, k)
    ]
  ]

  admit_known-Frame :
      (prev : CapAlert) (alert_id : String) (a : CapAlert) (p : Pass)
      → Frame p.store (admit_known h now prev alert_id a p).store
  unfolding admit_known fire_event tombstone no_longer_restored
  admit_known-Frame prev alert_id a p = elim (Bool-cases (is_terminal a)) [
    | inl t ↦ rw t
    | inr t ↦ elim (Bool-cases (nil (changed_fields prev a p.store))) [
      | inl k ↦ rw (t, k)
      | inr k ↦ rw (t, k)
    ]
  ]

  admit-Frame :
      (ids : Dict CapAlert) (found : Option CapAlert) (alert_id : String) (a : CapAlert) (p : Pass)
      → Frame p.store (admit h now ids found alert_id a p).store
  admit-Frame ids (some prev) alert_id a p = admit_known-Frame prev alert_id a p
  admit-Frame ids none alert_id a p = elim (Option-cases (superseded_prev ids a.references)) [
    | inl e ↦ rw e (admit_new-Frame alert_id a p)
    | inr (prev, e) ↦ rw e (admit_superseding-Frame prev alert_id a p)
  ]

  pub visit-Frame :
      (ids : Dict CapAlert) (alert_id : String) (a : CapAlert) (p : Pass)
      → Frame p.store (visit h now ids alert_id a p).store
  unfolding visit tombstone revive
  visit-Frame ids alert_id a p = elim (Bool-cases (is_terminal a)) [
    | inl t ↦ elim (Bool-cases (suppressed alert_id a p.store)) [
      | inl q ↦ rw (t, q)
      | inr q ↦ rw (t, q) (admit-Frame ids (Dict.get alert_id p.store.previous) alert_id a p)
    ]
    | inr t ↦ rw t (
        admit-Frame ids (Dict.get alert_id p.store.previous) alert_id a
          (ended (revive alert_id a.references p.store) p))
  ]

  pub visit_all-Frame :
      (ids incoming : Dict CapAlert) (p : Pass)
      → Frame p.store (visit_all h now ids incoming p).store
  unfolding visit_all
  visit_all-Frame ids [] p = refl
  visit_all-Frame ids ((alert_id, a) ∷ incoming) p =
      visit_all-Frame ids incoming (visit h now ids alert_id a p) ∙ visit-Frame ids alert_id a p

  pub miss-Frame :
      (scope_changed : Bool) (refs : List String) (alert_id : String) (prev : CapAlert) (p : Pass)
      → Frame p.store (miss h now scope_changed refs alert_id prev p).store
  unfolding miss fire_event tombstone
  miss-Frame scope_changed refs alert_id prev p = elim (Bool-cases (replaced refs prev)) [
    | inl r ↦ rw r
    | inr r ↦ elim (Bool-cases (retains h now scope_changed prev)) [
      | inl k ↦ rw (r, k)
      | inr k ↦ rw (r, k)
    ]
  ]

  pub miss_all-Frame :
      (incoming : Dict CapAlert) (scope_changed : Bool) (refs : List String)
      (previous : Dict CapAlert) (p : Pass)
      → Frame p.store (miss_all h now incoming scope_changed refs previous p).store
  unfolding miss_all
  miss_all-Frame incoming scope_changed refs [] p = refl
  miss_all-Frame incoming scope_changed refs ((alert_id, prev) ∷ previous) p =
      elim (Bool-cases (Dict.has alert_id incoming)) [
        | inl q ↦ rw (miss_all, q) (miss_all-Frame incoming scope_changed refs previous p)
        | inr q ↦
            rw (miss_all, q)
              (miss_all-Frame incoming scope_changed refs previous
                  (miss h now scope_changed refs alert_id prev p)
                ∙ miss-Frame scope_changed refs alert_id prev p)
      ]

  pub announce_gone-Frame :
      (known : Dict String) (s : AlertStore) → Frame s (announce_gone h now known s)
  unfolding announce_gone fire_event tombstone
  announce_gone-Frame [] s = refl
  announce_gone-Frame ((alert_id, event) ∷ known) s = announce_gone-Frame known _
