-- ===== src/Store/Once.antt =====
-- Each ending is announced once (store.py, issues #145 and #185).
use cap_alerts.Prelude.{
  ℕ, String, ◌≡◌, refl, ◌∙◌, inl, inr, Bool, true, false, none, some, List, [], arith, eq_refl,
  Bool-cases,
}
use cap_alerts.Dict
use cap_alerts.Dict.{Dict, Distinct}
use cap_alerts.Dict.Laws.{get-put, get-has, has-get, Every-get}
use cap_alerts.Model.{CapAlert}
use cap_alerts.Store.State.{AlertStore, Host, Event, removed, tombstone}
use cap_alerts.Store.Events.{fire_event}
use cap_alerts.Store.Removals.{removals, removals-fire_event}
use cap_alerts.Store.Reconcile.{Pass, visit, miss, replaced, retains, vanished}
use cap_alerts.Store.Process.{
  Options, process, prepare, passes, settle, start, by_id, by_identifier_from,
}
use cap_alerts.Store.Outcome.{Outcome, closed, tracked, visit-Outcome}
use cap_alerts.Store.Told.{Told, quiet, told, visit-Told}
use cap_alerts.Store.Local.{Keyed, At, visit_all-At, visit_all_other}
use cap_alerts.Store.Missed.{MissedAt, miss_all-MissedAt, miss_all_back}
use cap_alerts.Store.Gone.{
  Unsaid, Unsaid-trans, Said, Once, unsaid, said, Once-after, Once-before, reconcile-Once,
}
use cap_alerts.Store.Passes.{
  Same-Unsaid, refs, visited, reconciled, known_at_boot-passes, not_gone, unseen,
}
use cap_alerts.Store.WellFormed.{
  IsWellFormed, Keyed-by_id, Distinct-by_id, removals-prepare, prepare-IsWellFormed,
}

Once-count :
    {id : String} {now : ℕ} {xs ys zs : List Event} {tombstones : Dict ℕ}
    → removals id ys ≡ removals id xs
    → Said id now ys zs tombstones
    → Said id now xs zs tombstones
Once-count e (unsaid f) = unsaid (f ∙ e)
Once-count e (said f g) = said (omega (arith, e)) g

-- The step for an alert under its own id.
Told-Once :
    {id : String} {now : ℕ} {a : CapAlert} {tombstones : Dict ℕ} {p q : Pass}
    → a.id ≡ id
    → Told id a p.store.fired q.store.fired
    → Outcome now id a tombstones p q
    → Once id now p.store q.store
Told-Once keyed (quiet e) o = unsaid e
Told-Once {id} keyed (told t e) (closed t' active result tombs) =
    said (e ∙ rw (keyed, eq_refl)) (rw (tombs, get-put, eq_refl))
Told-Once keyed (told t e) (tracked b t' same active result tombs) = absurd (cc (t, t'))

module _ (id : String) (h : Host) (now : ℕ) where
  visit-Once :
      (ids : Dict CapAlert) (a : CapAlert) (p : Pass)
      → a.id ≡ id
      → Once id now p.store (visit h now ids id a p).store
  visit-Once ids a p keyed =
      Told-Once keyed (visit-Told id h now ids id a p) (visit-Outcome h now ids id a p)

  miss-Once :
      (scope_changed : Bool) (refs : List String) (prev : CapAlert) (p : Pass)
      → prev.id ≡ id
      → Once id now p.store (miss h now scope_changed refs id prev p).store
  unfolding miss tombstone
  miss-Once scope_changed refs prev p keyed = elim (Bool-cases (replaced refs prev)) [
    | inl r ↦ rw r (unsaid refl)
    | inr r ↦ elim (Bool-cases (retains h now scope_changed prev)) [
      | inl k ↦ rw (r, k) (unsaid refl)
      | inr k ↦
          rw (r, k)
            (said
              (removals-fire_event id h removed (vanished h now prev) _ [] none _
                ∙ rw (keyed, eq_refl))
              (unfold fire_event in rw (get-put, eq_refl)))
    ]
  ]

module _ (id : String) (h : Host) (now : ℕ) (o : Options) (incoming : Dict CapAlert)
    (s : AlertStore) (w : IsWellFormed s) (keyed : Keyed incoming)
    (distinct : Distinct incoming) where
  -- The id came in.
  incoming-Once :
      (a : CapAlert) → Dict.get id incoming ≡ some a → Once id now s (reconciled h now o incoming s)
  unfolding passes
  incoming-Once a e =
      let ids = by_identifier_from [] s.previous in
      let at : At id h now ids a (start s) (visited h now incoming s) =
        visit_all-At id h now ids incoming a (start s) keyed distinct e in
      let here : Dict.has id incoming ≡ true = has-get id a incoming e in
      let own : a.id ≡ id = Every-get (λ k b. b.id ≡ k) id a incoming keyed e in
      let back =
        miss_all_back id h now incoming o.scope_changed (refs o incoming) s.previous
          (visited h now incoming s) w.keyed here in
      Once-after s at.before.store (reconciled h now o incoming s) (Same-Unsaid at.same_before) (
        Once-before at.before.store (visit h now ids id a at.before).store
          (reconciled h now o incoming s) (visit-Once id h now ids a at.before own)
          (Unsaid-trans (Same-Unsaid at.same_after)
            (Unsaid-trans (Same-Unsaid back) (not_gone id h now o incoming s (rw here)))))

  -- The id did not come in, and the previous poll had it.
  missed-Once :
      (prev : CapAlert)
      → Dict.has id incoming ≡ false
      → Dict.get id s.previous ≡ some prev
      → Once id now s (reconciled h now o incoming s)
  unfolding passes
  missed-Once prev e f =
      let ids = by_identifier_from [] s.previous in
      let at : MissedAt id h now incoming o.scope_changed (refs o incoming) prev
          (visited h now incoming s) (passes h now o incoming s) =
        miss_all-MissedAt id h now incoming o.scope_changed (refs o incoming) s.previous prev
          (visited h now incoming s) w.keyed w.distinct f in
      let own : prev.id ≡ id = Every-get (λ k b. b.id ≡ k) id prev s.previous w.keyed f in
      let live : Dict.has id s.previous ≡ true = has-get id prev s.previous f in
      let before : Unsaid id s at.before.store =
        Unsaid-trans (Same-Unsaid (visit_all_other id h now ids incoming (start s) keyed e))
          (Same-Unsaid at.same_before) in
      let after : Unsaid id (miss h now o.scope_changed (refs o incoming) id prev at.before).store
          (reconciled h now o incoming s) =
        Unsaid-trans (rw e at (Same-Unsaid at.same_after))
          (not_gone id h now o incoming s (rw (e, w.live_unknown id live))) in
      Once-after s at.before.store (reconciled h now o incoming s) before (
        Once-before at.before.store
          (miss h now o.scope_changed (refs o incoming) id prev at.before).store
          (reconciled h now o incoming s)
          (miss-Once id h now o.scope_changed (refs o incoming) prev at.before own) after)

  passes-Once : Once id now s (reconciled h now o incoming s)
  passes-Once = elim (Bool-cases (Dict.has id incoming)) [
    | inl e ↦ let (a, f) = get-has id incoming e in incoming-Once a f
    | inr e ↦ elim (Bool-cases (Dict.has id s.previous)) [
      | inl f ↦ let (prev, g) = get-has id s.previous f in missed-Once prev e g
      | inr f ↦
          Once-after s (passes h now o incoming s).store (reconciled h now o incoming s)
            (unseen id h now o incoming s w keyed e f)
            (reconcile-Once id h now incoming o.fetched (passes h now o incoming s).store
              (rw (known_at_boot-passes h now o incoming s) w.known_distinct))
    ]
  ]

-- In one reconciliation of a well-formed store at most one `incident_removed` is fired for an id,
-- and where one is, the id's ending is tombstoned at that moment.
pub process-Once :
    (id : String) (h : Host) (now : ℕ) (o : Options) (alerts : List CapAlert) (s : AlertStore)
    → IsWellFormed s
    → Once id now s (process h now o alerts s).0
unfolding process settle
process-Once id h now o alerts s w =
    let s0 = prepare h now s in
    let w0 = prepare-IsWellFormed h now w in
    Once-count (removals-prepare h now id s w.unparked)
      (passes-Once id h now o (by_id alerts) s0 w0 (Keyed-by_id alerts) (Distinct-by_id alerts))
