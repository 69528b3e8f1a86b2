-- ===== src/Store/Missing.antt =====
-- What becomes of a tracked alert that a poll leaves out (store.py, the absence policy).
use cap_alerts.Prelude.{
  ℕ, ◌+◌, String, ◌≡◌, sym, ap, subst, ◌∙◌, true, false, none, some, List, if◌then◌else◌,
}
use mathlib.Core.Bool.{false≢true}
use cap_alerts.Dict
use cap_alerts.Dict.{Dict, Distinct}
use cap_alerts.Dict.Laws.{has-get}
use cap_alerts.Model.{CapAlert}
use cap_alerts.Store.State.{AlertStore, Host}
use cap_alerts.Store.Removals.{removals}
use cap_alerts.Store.Reconcile.{replaced, retains, retained}
use cap_alerts.Store.Process.{Options, process, prepare, passes, settle, by_id}
use cap_alerts.Store.Gone.{Unsaid}
use cap_alerts.Store.Passes.{refs, reconciled, not_gone}
use cap_alerts.Store.Placed.{
  Placed, came_ended, came_live, superseded, retained_stale, lost, stranger, passes-Placed, get-nil,
}
use cap_alerts.Store.WellFormed.{
  IsWellFormed, Keyed-by_id, Distinct-by_id, removals-prepare, prepare-IsWellFormed,
}

-- Superseded: dropped without a word. Retained: tracked on, stale, without a word. Otherwise:
-- dropped, its ending announced once and tombstoned. `t` is the store afterwards.
abbrev pub Fate :
    String → Host → ℕ → Options → Dict CapAlert → CapAlert → AlertStore → AlertStore → Type 0
Fate id h now o incoming prev s t =
    if replaced (refs o incoming) prev
    then (Dict.get id t.previous ≡ none) × (removals id t.fired ≡ removals id s.fired)
    else if retains h now o.scope_changed prev
    then (Dict.get id t.previous ≡ some (retained h now id prev s))
      × (removals id t.fired ≡ removals id s.fired)
    else (Dict.get id t.previous ≡ none)
      × (removals id t.fired ≡ removals id s.fired + 1)
      × (Dict.get id t.tombstones ≡ some now)

same_prev :
    (id : String) {a b : CapAlert} (d : Dict CapAlert)
    → Dict.get id d ≡ some a
    → Dict.get id d ≡ some b
    → a ≡ b
same_prev id d e f = cc (e, f)

module _ (id : String) (h : Host) (now : ℕ) (o : Options) (alerts : List CapAlert) (s : AlertStore)
    (w : IsWellFormed s) (prev : CapAlert) (out : Dict.has id (by_id alerts) ≡ false)
    (known : Dict.get id s.previous ≡ some prev) where
  abbrev t : AlertStore
  t = (process h now o alerts s).0

  -- The boot reconciliation says nothing of a tracked id.
  after :
      Unsaid id
        (passes h now o (by_id alerts) (prepare h now s)).store
        (reconciled h now o (by_id alerts) (prepare h now s))
  after = not_gone id h now o (by_id alerts) (prepare h now s) (rw (out, unknown))
    where
      unknown : Dict.has id (prepare h now s).known_at_boot ≡ false
      unknown = unfold prepare in w.live_unknown id (has-get id prev s.previous known)

  fresh : removals id (prepare h now s).fired ≡ removals id s.fired
  fresh = removals-prepare h now id s w.unparked

  fate :
      Placed id h now o
        (by_id alerts)
        (prepare h now s)
        (passes h now o (by_id alerts) (prepare h now s))
      → Fate id h now o (by_id alerts) prev s t
  unfolding process settle
  fate (came_ended a e active tombs) =
      absurd (false≢true (sym out ∙ has-get id a (by_id alerts) e.0))
  fate (came_live a b e same active tombs) =
      absurd (false≢true (sym out ∙ has-get id a (by_id alerts) e.0))
  fate (superseded b e r same) =
      let this = same_prev id s.previous e.1 known in
      rw (subst (λ c. replaced (refs o (by_id alerts)) c ≡ true) this r)
        (same.active ∙ get-nil id, after.count ∙ same.count ∙ fresh)
  fate (retained_stale b e r active tombs count) =
      let this = same_prev id s.previous e.1 known in
      rw
        (
          subst (λ c. replaced (refs o (by_id alerts)) c ≡ false) this r.0,
          subst (λ c. retains h now o.scope_changed c ≡ true) this r.1,
        )
        (active ∙ ap (λ c. some (retained h now id c s)) this, after.count ∙ count ∙ fresh)
  fate (lost b e r active tombs count) =
      let this = same_prev id s.previous e.1 known in
      rw
        (
          subst (λ c. replaced (refs o (by_id alerts)) c ≡ false) this r.0,
          subst (λ c. retains h now o.scope_changed c ≡ false) this r.1,
        )
        (active, after.count ∙ count ∙ rw fresh, after.tombs ∙ tombs)
  fate (stranger e same) = absurd (false≢true (sym e.1 ∙ has-get id prev s.previous known))

-- In a well-formed store, a tracked alert whose id a poll leaves out: if its identifier is among
-- the references of the poll or the superseded identifiers given, it is no longer tracked and no
-- `incident_removed` is fired for it; else, if the scope is unchanged and its source's policy
-- retains it, it is tracked on with the `stale` mark and its last confirmation, again without a
-- word; else it is no longer tracked, exactly one `incident_removed` is fired and it is tombstoned.
pub process-Fate :
    (id : String) (h : Host) (now : ℕ) (o : Options) (alerts : List CapAlert) (s : AlertStore)
    → IsWellFormed s
    → (prev : CapAlert) → Dict.has id (by_id alerts) ≡ false
    → Dict.get id s.previous ≡ some prev
    → Fate id h now o (by_id alerts) prev s (process h now o alerts s).0
process-Fate id h now o alerts s w prev out known = fate id h now o alerts s w prev out known (
    passes-Placed id h now o (by_id alerts) (prepare h now s) (prepare-IsWellFormed h now w)
      (Keyed-by_id alerts) (Distinct-by_id alerts))
