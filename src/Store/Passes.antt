-- ===== src/Store/Passes.antt =====
-- What `process` (store.py) says of an id after its two loops and the boot reconciliation.
use cap_alerts.Prelude.{ℕ, String, ◌≡◌, ◌∙◌, ap, false, not, ◌&&◌, List, [], ◌++◌}
use cap_alerts.Dict
use cap_alerts.Dict.{Dict, Distinct}
use cap_alerts.Model.{CapAlert}
use cap_alerts.Store.State.{AlertStore, Host}
use cap_alerts.Store.Reconcile.{Pass, visit_all}
use cap_alerts.Store.Boot.{reconcile_known_at_boot}
use cap_alerts.Store.Process.{Options, passes, start, by_identifier_from, references_of}
use cap_alerts.Store.Frame.{Frame, visit_all-Frame, miss_all-Frame}
use cap_alerts.Store.Local.{Same, Keyed, visit_all_other}
use cap_alerts.Store.Missed.{miss_all_other}
use cap_alerts.Store.Gone.{Unsaid, Unsaid-trans, reconcile-other}
use cap_alerts.Store.WellFormed.{IsWellFormed}

pub Same-Unsaid : {id : String} {p q : Pass} → Same id p q → Unsaid id p.store q.store
Same-Unsaid s = record { tombs = s.tombs; count = s.count }

-- The identifiers that stand for a supersession in this reconciliation.
abbrev pub refs : Options → Dict CapAlert → List String
refs o incoming = references_of incoming ++ o.superseded_identifiers

-- After the first loop.
abbrev pub visited : Host → ℕ → Dict CapAlert → AlertStore → Pass
visited h now incoming s = visit_all h now (by_identifier_from [] s.previous) incoming (start s)

-- After both loops and the boot reconciliation.
abbrev pub reconciled : Host → ℕ → Options → Dict CapAlert → AlertStore → AlertStore
reconciled h now o incoming s =
    reconcile_known_at_boot h now incoming o.fetched (passes h now o incoming s).store

module _ (h : Host) (now : ℕ) (o : Options) (incoming : Dict CapAlert) (s : AlertStore) where
  pub passes-Frame : Frame s (passes h now o incoming s).store
  unfolding passes
  passes-Frame =
      miss_all-Frame h now incoming o.scope_changed (refs o incoming) s.previous
        (visited h now incoming s)
      ∙ visit_all-Frame h now (by_identifier_from [] s.previous) incoming (start s)

  -- The set of the boot, after the loops, is the one before them.
  pub known_at_boot-passes : (passes h now o incoming s).store.known_at_boot ≡ s.known_at_boot
  known_at_boot-passes = ap (λ f. f.5) passes-Frame

module _ (id : String) (h : Host) (now : ℕ) (o : Options) (incoming : Dict CapAlert)
    (s : AlertStore) where
  pub not_gone :
      (not (Dict.has id incoming) && Dict.has id s.known_at_boot) ≡ false
      → Unsaid id (passes h now o incoming s).store (reconciled h now o incoming s)
  not_gone e =
      reconcile-other id h now incoming o.fetched (passes h now o incoming s).store
        (rw (known_at_boot-passes h now o incoming s) e)

  -- Of an id that did not come in and was not tracked the loops say nothing.
  pub unseen :
      IsWellFormed s
      → Keyed incoming
      → Dict.has id incoming ≡ false
      → Dict.has id s.previous ≡ false
      → Unsaid id s (passes h now o incoming s).store
  unfolding passes
  unseen w keyed e f =
      Unsaid-trans
        (Same-Unsaid
          (visit_all_other id h now (by_identifier_from [] s.previous) incoming (start s) keyed e))
        (Same-Unsaid (
          miss_all_other id h now incoming o.scope_changed (refs o incoming) s.previous
            (visited h now incoming s) w.keyed f))
