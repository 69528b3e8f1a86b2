-- ===== src/Store/Placed.antt =====
-- Where an id stands after the two loops of `process` (store.py), case by case.
use cap_alerts.Prelude.{
  ℕ, ◌+◌, String, ◌≡◌, refl, ◌∙◌, ap, inl, inr, true, false, none, some, [], eq_refl, Bool-cases,
}
use cap_alerts.Dict
use cap_alerts.Dict.{Dict, Distinct}
use cap_alerts.Dict.Laws.{get-put, get-remove, get-has, has-get, Every-get}
use cap_alerts.Model.{CapAlert}
use cap_alerts.Store.State.{AlertStore, Host}
use cap_alerts.Store.Removals.{removals}
use cap_alerts.Store.Reconcile.{Pass, is_terminal, visit, miss, replaced, retains, retained}
use cap_alerts.Store.Process.{Options, passes, start, by_identifier_from}
use cap_alerts.Store.Outcome.{Outcome, closed, tracked, visit-Outcome, cleared}
use cap_alerts.Store.Frame.{visit_all-Frame}
use cap_alerts.Store.Local.{Same, Same-trans, Keyed, At, visit_all-At, visit_all_other}
use cap_alerts.Store.Missed.{
  lost_tomb, lost_count, miss-replaced, miss-retained, miss-lost, MissedAt, miss_all-MissedAt,
  miss_all_other, miss_all_back,
}
use cap_alerts.Store.Passes.{refs, visited}
use cap_alerts.Store.WellFormed.{IsWellFormed}

pub get-nil : (id : String) → Dict.get {V = CapAlert} id [] ≡ none
unfolding Dict.get
get-nil id = refl

module _ (id : String) (h : Host) (now : ℕ) (o : Options) (incoming : Dict CapAlert)
    (s : AlertStore) where
  pub data Placed (p : Pass) : Type 0 where
    -- it came in terminal
    came_ended :
        (a : CapAlert)
        → (Dict.get id incoming ≡ some a) × (is_terminal a ≡ true)
        → Dict.get id p.active ≡ none
        → Dict.get id p.store.tombstones ≡ some now
        → Placed p
    -- it came in live
    came_live :
        (a b : CapAlert)
        → (Dict.get id incoming ≡ some a) × (is_terminal a ≡ false)
        → (b.id ≡ a.id) × (b.phase ≡ a.phase) × (b.identifier ≡ a.identifier)
        → Dict.get id p.active ≡ some b
        → Dict.get id p.store.tombstones ≡ none
        → Placed p
    -- it was tracked, is missing, and an alert that supersedes it is at hand
    superseded :
        (prev : CapAlert)
        → (Dict.has id incoming ≡ false) × (Dict.get id s.previous ≡ some prev)
        → replaced (refs o incoming) prev ≡ true
        → Same id (start s) p
        → Placed p
    -- it was tracked, is missing, and is retained
    retained_stale :
        (prev : CapAlert)
        → (Dict.has id incoming ≡ false) × (Dict.get id s.previous ≡ some prev)
        → (replaced (refs o incoming) prev ≡ false) × (retains h now o.scope_changed prev ≡ true)
        → Dict.get id p.active ≡ some (retained h now id prev s)
        → Dict.get id p.store.tombstones ≡ Dict.get id s.tombstones
        → removals id p.store.fired ≡ removals id s.fired
        → Placed p
    -- it was tracked, is missing, and is ended
    lost :
        (prev : CapAlert)
        → (Dict.has id incoming ≡ false) × (Dict.get id s.previous ≡ some prev)
        → (replaced (refs o incoming) prev ≡ false) × (retains h now o.scope_changed prev ≡ false)
        → Dict.get id p.active ≡ none
        → Dict.get id p.store.tombstones ≡ some now
        → removals id p.store.fired ≡ removals id s.fired + 1
        → Placed p
    -- it was neither tracked nor came in
    stranger :
        (Dict.has id incoming ≡ false) × (Dict.has id s.previous ≡ false)
        → Same id (start s) p
        → Placed p

module _ (id : String) (h : Host) (now : ℕ) (o : Options) (incoming : Dict CapAlert)
    (s : AlertStore) (w : IsWellFormed s) (keyed : Keyed incoming)
    (distinct : Distinct incoming) where
  abbrev Place : Type 0
  Place = Placed id h now o incoming s (passes h now o incoming s)

  arrival :
      (a : CapAlert) (p q : Pass)
      → Dict.get id incoming ≡ some a
      → Dict.get id p.active ≡ none
      → Outcome now id a (cleared id a p.store.tombstones) p q
      → Same id q (passes h now o incoming s)
      → Place
  arrival a p q e new (closed t active result tombs) after =
      came_ended a (e, t) (after.active ∙ rw active new)
        (after.tombs ∙ rw (tombs, get-put, eq_refl))
  arrival a p q e new (tracked b t same active result tombs) after =
      came_live a b (e, t) same (after.active ∙ rw (active, get-put, eq_refl))
        (after.tombs ∙ rw tombs (rw t (rw (get-remove, eq_refl))))

  came : (a : CapAlert) → Dict.get id incoming ≡ some a → Place
  unfolding passes
  came a e =
      let ids = by_identifier_from [] s.previous in
      let at : At id h now ids a (start s) (visited h now incoming s) =
        visit_all-At id h now ids incoming a (start s) keyed distinct e in
      let back =
        miss_all_back id h now incoming o.scope_changed (refs o incoming) s.previous
          (visited h now incoming s) w.keyed (has-get id a incoming e) in
      arrival a at.before (visit h now ids id a at.before) e (at.same_before.active ∙ get-nil id)
        (visit-Outcome h now ids id a at.before) (Same-trans at.same_after back)

  departure :
      (prev : CapAlert) (m : Pass)
      → (Dict.has id incoming ≡ false) × (Dict.get id s.previous ≡ some prev)
      → prev.id ≡ id
      → Same id (start s) m
      → m.store.last_seen ≡ s.last_seen
      → Same id (miss h now o.scope_changed (refs o incoming) id prev m) (passes h now o incoming s)
      → Place
  departure prev m ef own before seen after = elim (Bool-cases (replaced (refs o incoming) prev)) [
    | inl r ↦ superseded prev ef r (
        Same-trans before
          (rw (miss-replaced h now o.scope_changed (refs o incoming) id prev m r) at after))
    | inr r ↦ elim (Bool-cases (retains h now o.scope_changed prev)) [
      | inl k ↦
          let kept =
            rw (miss-retained h now o.scope_changed (refs o incoming) id prev m r k) at after in
          retained_stale prev ef (r, k) (kept.active ∙ rw (get-put, eq_refl, seen))
            (kept.tombs ∙ before.tombs) (kept.count ∙ before.count)
      | inr k ↦
          let gone =
            rw (miss-lost h now o.scope_changed (refs o incoming) id prev m r k) at after in
          lost prev ef (r, k) (gone.active ∙ before.active ∙ get-nil id)
            (gone.tombs ∙ lost_tomb h now o.scope_changed (refs o incoming) id prev m)
            (gone.count
              ∙ lost_count h now o.scope_changed (refs o incoming) id prev m own
              ∙ rw before.count)
    ]
  ]

  missing :
      (prev : CapAlert) → Dict.has id incoming ≡ false → Dict.get id s.previous ≡ some prev → Place
  unfolding passes
  missing prev e f =
      let ids = by_identifier_from [] s.previous in
      let at : MissedAt id h now incoming o.scope_changed (refs o incoming) prev
          (visited h now incoming s) (passes h now o incoming s) =
        miss_all-MissedAt id h now incoming o.scope_changed (refs o incoming) s.previous prev
          (visited h now incoming s) w.keyed w.distinct f in
      let own : prev.id ≡ id = Every-get (λ k b. b.id ≡ k) id prev s.previous w.keyed f in
      let before : Same id (start s) at.before =
        Same-trans (visit_all_other id h now ids incoming (start s) keyed e) at.same_before in
      let after : Same id (miss h now o.scope_changed (refs o incoming) id prev at.before)
          (passes h now o incoming s) =
        rw e at at.same_after in
      let seen : at.before.store.last_seen ≡ s.last_seen =
        ap (λ r. r.4) (at.frame ∙ visit_all-Frame h now ids incoming (start s)) in
      departure prev at.before (e, f) own before seen after

  pub passes-Placed : Place
  unfolding passes
  passes-Placed = elim (Bool-cases (Dict.has id incoming)) [
    | inl e ↦ let (a, f) = get-has id incoming e in came a f
    | inr e ↦ elim (Bool-cases (Dict.has id s.previous)) [
      | inl f ↦ let (prev, g) = get-has id s.previous f in missing prev e g
      | inr f ↦
          stranger (e, f)
            (Same-trans
              (visit_all_other id h now (by_identifier_from [] s.previous) incoming (start s) keyed
                e)
              (miss_all_other id h now incoming o.scope_changed (refs o incoming) s.previous
                (visited h now incoming s) w.keyed f))
    ]
  ]
