-- ===== src/Store/Outcome.antt =====
-- What one step of the first loop of `process` (store.py) does to the tracked set: it closes the
-- alert or it tracks it. What a step leaves alone.
use cap_alerts.Prelude.{
  ℕ, String, ◌≡◌, refl, inl, inr, true, false, Option, none, some, [], ◌∷◌, ◌++◌, arith, Bool-cases,
  if◌then◌else◌,
}
use cap_alerts.Dict
use cap_alerts.Dict.{Dict}
use cap_alerts.Model.{CapAlert}
use cap_alerts.Store.State.{AlertStore, Host, tombstone}
use cap_alerts.Store.Events.{fire_event}
use cap_alerts.Store.Reconcile.{
  Pass, is_terminal, ended, following, admit_superseding, admit_new, admit_known, admit_unseen,
  admit, superseded_prev, no_longer_restored, suppressed, revive, visit,
}

-- A terminal alert leaves the active set as it was and is tombstoned at `now`; a live one goes to
-- its end with its id, phase and identifier, and its tombstone is cleared.
pub data Outcome (now : ℕ) (alert_id : String) (a : CapAlert) (tombstones : Dict ℕ) (p q : Pass)
    : Type 0 where
  closed :
      is_terminal a ≡ true
      → q.active ≡ p.active
      → q.result ≡ p.result
      → q.store.tombstones ≡ Dict.put alert_id now tombstones
      → Outcome now alert_id a tombstones p q
  tracked :
      (b : CapAlert)
      → is_terminal a ≡ false
      → (b.id ≡ a.id) × (b.phase ≡ a.phase) × (b.identifier ≡ a.identifier)
      → q.active ≡ Dict.put alert_id b p.active
      → q.result ≡ p.result ++ b ∷ []
      → q.store.tombstones ≡ tombstones
      → Outcome now alert_id a tombstones p q

module _ (h : Host) (now : ℕ) (alert_id : String) (a : CapAlert) (p : Pass) where
  admit_superseding-Outcome :
      (prev : CapAlert)
      → Outcome now alert_id a p.store.tombstones p (admit_superseding h now prev alert_id a p)
  unfolding admit_superseding fire_event tombstone no_longer_restored
  admit_superseding-Outcome prev = elim (Bool-cases (is_terminal a)) [
    | inl t ↦ rw t (closed t refl refl refl)
    | inr t ↦ rw t (tracked (following prev a) t (refl, refl, refl) refl refl refl)
  ]

  admit_new-Outcome : Outcome now alert_id a p.store.tombstones p (admit_new h now alert_id a p)
  unfolding admit_new fire_event tombstone
  admit_new-Outcome = elim (Bool-cases (is_terminal a)) [
    | inl t ↦ elim (Bool-cases (Dict.has alert_id p.store.known_at_boot)) [
      | inl k ↦ rw (t, k) (closed t refl refl refl)
      | inr k ↦ rw (t, k) (closed t refl refl refl)
    ]
    | inr t ↦ elim (Bool-cases (Dict.has alert_id p.store.known_at_boot)) [
      | inl k ↦
          rw (t, k)
            (tracked (record a { phase_changed = false }) t (refl, refl, refl) refl refl refl)
      | inr k ↦
          rw (t, k)
            (tracked (record a { phase_changed = true }) t (refl, refl, refl) refl refl refl)
    ]
  ]

  admit_known-Outcome :
      (prev : CapAlert)
      → Outcome now alert_id a p.store.tombstones p (admit_known h now prev alert_id a p)
  unfolding admit_known fire_event tombstone no_longer_restored
  admit_known-Outcome prev = elim (Bool-cases (is_terminal a)) [
    | inl t ↦ rw t (closed t refl refl refl)
    | inr t ↦ rw t (tracked (following prev a) t (refl, refl, refl) refl refl (ground arith))
  ]

  admit_unseen-Outcome :
      (found : Option CapAlert)
      → Outcome now alert_id a p.store.tombstones p (admit_unseen h now found alert_id a p)
  admit_unseen-Outcome none = admit_new-Outcome
  admit_unseen-Outcome (some prev) = admit_superseding-Outcome prev

  admit-Outcome :
      (ids : Dict CapAlert) (found : Option CapAlert)
      → Outcome now alert_id a p.store.tombstones p (admit h now ids found alert_id a p)
  admit-Outcome ids none = admit_unseen-Outcome (superseded_prev ids a.references)
  admit-Outcome ids (some prev) = admit_known-Outcome prev

-- The tombstones against which a step is read: a live alert's own is cleared first.
abbrev pub cleared : String → CapAlert → Dict ℕ → Dict ℕ
cleared alert_id a tombstones =
    if is_terminal a then tombstones else Dict.remove alert_id tombstones

-- A step reads of the pass before it only what it was to extend.
rebase :
    {now : ℕ} {alert_id : String} {a : CapAlert} {tombstones : Dict ℕ} {p q : Pass} (s : AlertStore)
    → Outcome now alert_id a tombstones (ended s p) q
    → Outcome now alert_id a tombstones p q
rebase s (closed t active result tombs) = closed t active result tombs
rebase s (tracked b t same active result tombs) = tracked b t same active result tombs

pub visit-Outcome :
    (h : Host) (now : ℕ) (ids : Dict CapAlert) (alert_id : String) (a : CapAlert) (p : Pass)
    → Outcome now alert_id a
        (cleared alert_id a p.store.tombstones)
        p
        (visit h now ids alert_id a p)
unfolding visit tombstone revive
visit-Outcome h now ids alert_id a p = elim (Bool-cases (is_terminal a)) [
  | inl t ↦ elim (Bool-cases (suppressed alert_id a p.store)) [
    | inl q ↦ rw (t, q) (closed t refl refl refl)
    | inr q ↦ rw (t, q) (admit-Outcome h now alert_id a p ids (Dict.get alert_id p.store.previous))
  ]
  | inr t ↦ rw t (
      rebase (revive alert_id a.references p.store) (
        admit-Outcome h now alert_id a (ended (revive alert_id a.references p.store) p) ids
          (Dict.get alert_id p.store.previous)))
]
