-- ===== src/Store/Local.antt =====
-- The loops of `process` (store.py) are local: what they do to one id is what the step for that id
-- does to it.
use cap_alerts.Prelude.{
  ℕ, String, ◌≡◌, refl, ◌∙◌, subst, inl, inr, false, some, List, [], ◌∷◌, arith, ◌==◌, eq_iff,
  Bool-cases,
}
use cap_alerts.Dict
use cap_alerts.Dict.{Dict, Distinct, Every}
use cap_alerts.Dict.Laws.{get-put, get-remove}
use cap_alerts.Model.{CapAlert}
use cap_alerts.Store.State.{Host, Event}
use cap_alerts.Store.Removals.{removals}
use cap_alerts.Store.Reconcile.{Pass, is_terminal, visit, visit_all}
use cap_alerts.Store.Outcome.{Outcome, closed, tracked, visit-Outcome, cleared}
use cap_alerts.Store.Frame.{Frame, visit-Frame}
use cap_alerts.Store.Told.{Told, quiet, told, visit-Told}

-- Two passes agree on an id: its tracked alert, its tombstone, its announced endings.
pub record Same (id : String) (p q : Pass) : Type 0 where
  pub active : Dict.get id q.active ≡ Dict.get id p.active
  pub tombs : Dict.get id q.store.tombstones ≡ Dict.get id p.store.tombstones
  pub count : removals id q.store.fired ≡ removals id p.store.fired

pub Same-refl : (id : String) (p : Pass) → Same id p p
Same-refl id p = record { active = refl; tombs = refl; count = refl }

pub Same-trans : {id : String} {p q r : Pass} → Same id p q → Same id q r → Same id p r
Same-trans s t = record {
  active = t.active ∙ s.active;
  tombs = t.tombs ∙ s.tombs;
  count = t.count ∙ s.count;
}

-- Every alert stands under its own id.
abbrev pub Keyed : Dict CapAlert → Type 0
Keyed = Every (λ alert_id a. a.id ≡ alert_id)

get-cleared :
    (id alert_id : String) (a : CapAlert) (d : Dict ℕ)
    → (alert_id == id) ≡ false
    → Dict.get id (cleared alert_id a d) ≡ Dict.get id d
get-cleared id alert_id a d ne = elim (Bool-cases (is_terminal a)) [
  | inl t ↦ rw t
  | inr t ↦ rw t (rw (get-remove, ne))
]

Told-other :
    {id : String} {a : CapAlert} {xs ys : List Event}
    → Told id a xs ys
    → (a.id == id) ≡ false
    → removals id ys ≡ removals id xs
Told-other (quiet e) ne = e
Told-other (told t e) ne = e ∙ rw ne (omega arith)

step_other :
    {id alert_id : String} {now : ℕ} {a : CapAlert} {p q : Pass}
    → Outcome now alert_id a (cleared alert_id a p.store.tombstones) p q
    → removals id q.store.fired ≡ removals id p.store.fired
    → (alert_id == id) ≡ false
    → Same id p q
step_other {id} {alert_id} {now} {a} {p} (closed t active result tombs) count ne = record {
  active = rw active;
  tombs = rw (tombs, get-put, ne) (get-cleared id alert_id a p.store.tombstones ne);
  count = count;
}
step_other {id} {alert_id} {now} {a} {p} (tracked b t same active result tombs) count ne = record {
  active = rw (active, get-put, ne);
  tombs = rw tombs (get-cleared id alert_id a p.store.tombstones ne);
  count = count;
}

module _ (id : String) (h : Host) (now : ℕ) where
  -- A step for another id.
  pub visit_other :
      (ids : Dict CapAlert) (alert_id : String) (a : CapAlert) (p : Pass)
      → a.id ≡ alert_id
      → (alert_id == id) ≡ false
      → Same id p (visit h now ids alert_id a p)
  visit_other ids alert_id a p keyed ne =
      step_other (visit-Outcome h now ids alert_id a p)
        (Told-other (visit-Told id h now ids alert_id a p) (rw keyed ne)) ne

  pub visit_all_other :
      (ids incoming : Dict CapAlert) (p : Pass)
      → Keyed incoming
      → Dict.has id incoming ≡ false
      → Same id p (visit_all h now ids incoming p)
  unfolding visit_all Dict.has
  visit_all_other ids [] p keyed ne = Same-refl id p
  visit_all_other ids ((alert_id, a) ∷ incoming) p keyed ne =
      Same-trans (visit_other ids alert_id a p keyed.0 (ground arith))
        (visit_all_other ids incoming (visit h now ids alert_id a p) keyed.1 (ground arith))

  -- The step for the id, from a state that is as it was at the start for that id.
  pub record At (ids : Dict CapAlert) (a : CapAlert) (p q : Pass) : Type 0 where
    pub before : Pass
    pub same_before : Same id p before
    pub frame : Frame p.store before.store
    pub same_after : Same id (visit h now ids id a before) q

  pub visit_all-At :
      (ids incoming : Dict CapAlert) (a : CapAlert) (p : Pass)
      → Keyed incoming
      → Distinct incoming
      → Dict.get id incoming ≡ some a
      → At ids a p (visit_all h now ids incoming p)
  unfolding visit_all Dict.get
  visit_all-At ids [] a p keyed distinct e = absurd (ground arith)
  visit_all-At ids ((alert_id, b) ∷ incoming) a p keyed distinct e =
      elim (Bool-cases (alert_id == id)) [
        | inl q ↦
            let here : alert_id ≡ id = (eq_iff alert_id id).0 q in
            let this : b ≡ a = ground arith in
            let after = visit_all h now ids incoming (visit h now ids alert_id b p) in
            let rest : Same id (visit h now ids alert_id b p) after =
              visit_all_other ids incoming (visit h now ids alert_id b p) keyed.1
                (subst (λ k. Dict.has k incoming ≡ false) here distinct.0) in
            record {
              before = p;
              same_before = Same-refl id p;
              frame = refl;
              same_after =
                  subst (λ c. Same id (visit h now ids id c p) after) this
                    (subst (λ k. Same id (visit h now ids k b p) after) here rest);
            }
        | inr q ↦
            let rest : At ids a (visit h now ids alert_id b p)
                (visit_all h now ids incoming (visit h now ids alert_id b p)) =
              visit_all-At ids incoming a (visit h now ids alert_id b p) keyed.1 distinct.1
                (rw q at e) in
            record {
              before = rest.before;
              same_before = Same-trans (visit_other ids alert_id b p keyed.0 q) rest.same_before;
              frame = rest.frame ∙ visit-Frame h now ids alert_id b p;
              same_after = rest.same_after;
            }
      ]
