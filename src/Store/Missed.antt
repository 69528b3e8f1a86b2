-- ===== src/Store/Missed.antt =====
-- The second loop of `process` (store.py) is local too: an id that came back is skipped, another is
-- dealt with by its own step alone.
use cap_alerts.Prelude.{
  ℕ, ◌+◌, String, ◌≡◌, refl, ◌∙◌, subst, inl, inr, Bool, true, false, none, some, List, [], ◌∷◌,
  arith, ◌==◌, eq_iff, eq_refl, Bool-cases, if◌then◌else◌,
}
use cap_alerts.Dict
use cap_alerts.Dict.{Dict, Distinct}
use cap_alerts.Dict.Laws.{get-put}
use cap_alerts.Model.{CapAlert}
use cap_alerts.Store.State.{AlertStore, Host, removed, tombstone}
use cap_alerts.Store.Events.{fire_event}
use cap_alerts.Store.Removals.{removals, removals-fire_event}
use cap_alerts.Store.Reconcile.{
  Pass, miss, miss_all, replaced, retains, retained, vanished, keep, ended,
}
use cap_alerts.Store.Frame.{Frame, miss-Frame}
use cap_alerts.Store.Local.{Same, Same-refl, Same-trans, Keyed}

-- The three branches of the body.
module _ (h : Host) (now : ℕ) (scope_changed : Bool) (refs : List String) (id : String)
    (prev : CapAlert) (p : Pass) where
  -- The store after the ending is announced.
  abbrev pub told_lost : AlertStore
  told_lost =
      fire_event h removed (vanished h now prev) (vanished h now prev).phase_changed [] none
        (tombstone id prev.identifier now p.store)

  pub lost_tomb : Dict.get id told_lost.tombstones ≡ some now
  unfolding fire_event tombstone
  lost_tomb = rw (get-put, eq_refl)

  pub lost_count : prev.id ≡ id → removals id told_lost.fired ≡ removals id p.store.fired + 1
  unfolding tombstone
  lost_count own =
      removals-fire_event id h removed (vanished h now prev) (vanished h now prev).phase_changed []
        none _
      ∙ rw (own, eq_refl)

  pub miss-replaced : replaced refs prev ≡ true → miss h now scope_changed refs id prev p ≡ p
  unfolding miss
  miss-replaced r = rw r

  pub miss-retained :
      replaced refs prev ≡ false
      → retains h now scope_changed prev ≡ true
      → miss h now scope_changed refs id prev p ≡ keep id (retained h now id prev p.store) p.store p
  unfolding miss
  miss-retained r k = rw (r, k)

  pub miss-lost :
      replaced refs prev ≡ false
      → retains h now scope_changed prev ≡ false
      → miss h now scope_changed refs id prev p ≡ ended told_lost p
  unfolding miss
  miss-lost r k = rw (r, k)

module _ (id : String) (h : Host) (now : ℕ) where
  miss_other :
      (scope_changed : Bool) (refs : List String) (alert_id : String) (prev : CapAlert) (p : Pass)
      → prev.id ≡ alert_id
      → (alert_id == id) ≡ false
      → Same id p (miss h now scope_changed refs alert_id prev p)
  unfolding miss tombstone
  miss_other scope_changed refs alert_id prev p keyed ne = elim (Bool-cases (replaced refs prev)) [
    | inl r ↦ rw r (Same-refl id p)
    | inr r ↦ elim (Bool-cases (retains h now scope_changed prev)) [
      | inl k ↦ rw (r, k) (record { active = rw (get-put, ne); tombs = refl; count = refl })
      | inr k ↦
          rw (r, k)
            (record {
              active = refl;
              tombs = unfold fire_event in rw (get-put, ne);
              count =
                  removals-fire_event id h removed (vanished h now prev) _ [] none _
                  ∙ rw (keyed, ne) (omega arith);
            })
    ]
  ]

module _ (id : String) (h : Host) (now : ℕ) (incoming : Dict CapAlert) (scope_changed : Bool)
    (refs : List String) where
  -- The body with its `if alert_id in incoming: continue`.
  abbrev body : String → CapAlert → Pass → Pass
  body alert_id prev p =
      if Dict.has alert_id incoming then p else miss h now scope_changed refs alert_id prev p

  body_other :
      (alert_id : String) (prev : CapAlert) (p : Pass)
      → prev.id ≡ alert_id
      → (alert_id == id) ≡ false
      → Same id p (body alert_id prev p)
  body_other alert_id prev p keyed ne = elim (Bool-cases (Dict.has alert_id incoming)) [
    | inl q ↦ rw q (Same-refl id p)
    | inr q ↦ rw q (miss_other id h now scope_changed refs alert_id prev p keyed ne)
  ]

  body-Frame :
      (alert_id : String) (prev : CapAlert) (p : Pass) → Frame p.store (body alert_id prev p).store
  body-Frame alert_id prev p = elim (Bool-cases (Dict.has alert_id incoming)) [
    | inl q ↦ rw q
    | inr q ↦ rw q (miss-Frame h now scope_changed refs alert_id prev p)
  ]

  pub miss_all_other :
      (previous : Dict CapAlert) (p : Pass)
      → Keyed previous
      → Dict.has id previous ≡ false
      → Same id p (miss_all h now incoming scope_changed refs previous p)
  unfolding miss_all Dict.has
  miss_all_other [] p keyed ne = Same-refl id p
  miss_all_other ((alert_id, prev) ∷ previous) p keyed ne =
      Same-trans (body_other alert_id prev p keyed.0 (ground arith))
        (miss_all_other previous (body alert_id prev p) keyed.1 (ground arith))

  -- The step for the id, from a state that is as it was at the start for that id.
  pub record MissedAt (prev : CapAlert) (p q : Pass) : Type 0 where
    pub before : Pass
    pub same_before : Same id p before
    pub frame : Frame p.store before.store
    pub same_after : Same id (body id prev before) q

  pub miss_all-MissedAt :
      (previous : Dict CapAlert) (prev : CapAlert) (p : Pass)
      → Keyed previous
      → Distinct previous
      → Dict.get id previous ≡ some prev
      → MissedAt prev p (miss_all h now incoming scope_changed refs previous p)
  unfolding miss_all Dict.get
  miss_all-MissedAt [] prev p keyed distinct e = absurd (ground arith)
  miss_all-MissedAt ((alert_id, b) ∷ previous) prev p keyed distinct e =
      elim (Bool-cases (alert_id == id)) [
        | inl q ↦
            let here : alert_id ≡ id = (eq_iff alert_id id).0 q in
            let this : b ≡ prev = ground arith in
            let after = miss_all h now incoming scope_changed refs previous (body alert_id b p) in
            let rest : Same id (body alert_id b p) after =
              miss_all_other previous (body alert_id b p) keyed.1
                (subst (λ k. Dict.has k previous ≡ false) here distinct.0) in
            record {
              before = p;
              same_before = Same-refl id p;
              frame = refl;
              same_after =
                  subst (λ c. Same id (body id c p) after) this
                    (subst (λ k. Same id (body k b p) after) here rest);
            }
        | inr q ↦
            let rest : MissedAt prev (body alert_id b p)
                (miss_all h now incoming scope_changed refs previous (body alert_id b p)) =
              miss_all-MissedAt previous prev (body alert_id b p) keyed.1 distinct.1 (rw q at e) in
            record {
              before = rest.before;
              same_before = Same-trans (body_other alert_id b p keyed.0 q) rest.same_before;
              frame = rest.frame ∙ body-Frame alert_id b p;
              same_after = rest.same_after;
            }
      ]

  -- An id that came back is skipped.
  pub miss_all_back :
      (previous : Dict CapAlert) (p : Pass)
      → Keyed previous
      → Dict.has id incoming ≡ true
      → Same id p (miss_all h now incoming scope_changed refs previous p)
  unfolding miss_all
  miss_all_back [] p keyed back = Same-refl id p
  miss_all_back ((alert_id, prev) ∷ previous) p keyed back = elim (Bool-cases (alert_id == id)) [
    | inl q ↦
        let e : Dict.has alert_id incoming ≡ true = rw ((eq_iff alert_id id).0 q) back in
        rw (miss_all, e) (miss_all_back previous p keyed.1 back)
    | inr q ↦
        Same-trans (body_other alert_id prev p keyed.0 q)
          (miss_all_back previous (body alert_id prev p) keyed.1 back)
  ]
