-- ===== src/Store/Active.antt =====
-- What `process` (store.py) returns is the set that it tracks from then on, in order.
use cap_alerts.Prelude.{
  ℕ, String, ◌≡◌, refl, ◌∙◌, ap, inl, inr, Bool, false, List, [], ◌∷◌, ◌++◌, arith, Bool-cases,
  str_ne_sym,
}
use cap_alerts.Dict
use cap_alerts.Dict.{Dict, Distinct, Every}
use cap_alerts.Dict.Laws.{put_fresh, values-append, has-put, Distinct-put, Every-put, absent-get}
use cap_alerts.Model.{CapAlert}
use cap_alerts.Store.State.{AlertStore, Host}
use cap_alerts.Store.Reconcile.{
  Pass, is_terminal, visit, visit_all, miss_all, replaced, retains, retained, keep, ended,
}
use cap_alerts.Store.Process.{Options, passes, start, by_identifier_from}
use cap_alerts.Store.Outcome.{Outcome, closed, tracked, visit-Outcome}
use cap_alerts.Store.Local.{Keyed, visit_all_other}
use cap_alerts.Store.Missed.{miss-replaced, miss-retained, miss-lost, told_lost}
use cap_alerts.Store.Passes.{refs, visited}

-- Every key of the first is new to the second.
abbrev Disjoint {ℓ κ} : {V : Type ℓ} {W : Type κ} → Dict V → Dict W → Type 0
Disjoint [] e = Unit
Disjoint ((k, v) ∷ d) e = (Dict.has k e ≡ false) × Disjoint d e

Disjoint-nil : (d : Dict CapAlert) → Disjoint {W = CapAlert} d []
Disjoint-nil [] = tt
Disjoint-nil ((k, v) ∷ d) = (unfold Dict.has in refl, Disjoint-nil d)

Disjoint-put {ℓ κ} :
    {V : Type ℓ} {W : Type κ} (k : String) (w : W) (d : Dict V) (e : Dict W)
    → Dict.has k d ≡ false
    → Disjoint d e
    → Disjoint d (Dict.put k w e)
unfolding Dict.has
Disjoint-put k w [] e ne h = tt
Disjoint-put k w ((j, v) ∷ d) e ne h = (
  has-put k j w e ∙ rw (str_ne_sym j k (ground arith)) h.0,
  Disjoint-put k w d e (ground arith) h.1,
)

-- `result` lists the values of `active`: live alerts under their own ids, each once.
pub record IsListed (p : Pass) : Type 0 where
  pub listed : p.result ≡ Dict.values p.active
  pub keyed : Keyed p.active
  pub distinct : Distinct p.active
  pub live : Every (λ _ a. is_terminal a ≡ false) p.active

keep-IsListed :
    (alert_id : String) (a : CapAlert) (p q : Pass)
    → IsListed p
    → Dict.has alert_id p.active ≡ false
    → a.id ≡ alert_id
    → is_terminal a ≡ false
    → q.active ≡ Dict.put alert_id a p.active
    → q.result ≡ p.result ++ a ∷ []
    → IsListed q
unfolding Dict.values
keep-IsListed alert_id a p q l new own live active result = record {
  listed =
      result
      ∙ rw (active, put_fresh alert_id a p.active new, values-append)
          (ap (λ r. r ++ a ∷ []) l.listed);
  keyed = rw active (Every-put (λ k b. b.id ≡ k) alert_id a p.active l.keyed own);
  distinct = rw active (Distinct-put alert_id a p.active l.distinct);
  live = rw active (Every-put (λ _ b. is_terminal b ≡ false) alert_id a p.active l.live live);
}

same-IsListed : (p q : Pass) → IsListed p → q.active ≡ p.active → q.result ≡ p.result → IsListed q
same-IsListed p q l active result = record {
  listed = result ∙ rw active l.listed;
  keyed = rw active l.keyed;
  distinct = rw active l.distinct;
  live = rw active l.live;
}

live_phase : (a b : CapAlert) → b.phase ≡ a.phase → is_terminal a ≡ false → is_terminal b ≡ false
unfolding is_terminal
live_phase a b e t = rw e t

-- One step of the first loop.
visited-IsListed :
    {now : ℕ} {alert_id : String} {a : CapAlert} {tombstones : Dict ℕ} (p q : Pass)
    → Outcome now alert_id a tombstones p q
    → a.id ≡ alert_id
    → IsListed p
    → Dict.has alert_id p.active ≡ false
    → IsListed q
visited-IsListed p q (closed t active result tombs) own l new = same-IsListed p q l active result
visited-IsListed {alert_id = alert_id} {a = a} p q (tracked b t same active result tombs) own l
      new =
    keep-IsListed alert_id b p q l new (same.0 ∙ own) (live_phase a b same.1 t) active result

visited-Disjoint {ℓ} :
    {V : Type ℓ} {now : ℕ} {alert_id : String} {a : CapAlert} {tombstones : Dict ℕ} (p q : Pass)
    (rest : Dict V)
    → Outcome now alert_id a tombstones p q
    → Dict.has alert_id rest ≡ false
    → Disjoint rest p.active
    → Disjoint rest q.active
visited-Disjoint p q rest (closed t active result tombs) ne d = rw active d
visited-Disjoint {alert_id = alert_id} p q rest (tracked b t same active result tombs) ne d =
    rw active (Disjoint-put alert_id b rest p.active ne d)

module _ (h : Host) (now : ℕ) where
  visit_all-IsListed :
      (ids incoming : Dict CapAlert) (p : Pass)
      → Keyed incoming
      → Distinct incoming
      → Disjoint incoming p.active
      → IsListed p
      → IsListed (visit_all h now ids incoming p)
  unfolding visit_all
  visit_all-IsListed ids [] p keyed distinct new l = l
  visit_all-IsListed ids ((alert_id, a) ∷ incoming) p keyed distinct new l =
      let q = visit h now ids alert_id a p in
      let o = visit-Outcome h now ids alert_id a p in
      visit_all-IsListed ids incoming q keyed.1 distinct.1
        (visited-Disjoint p q incoming o distinct.0 new.1) (visited-IsListed p q o keyed.0 l new.0)

  module _ (incoming : Dict CapAlert) (scope_changed : Bool) (refs : List String) where
    -- The alerts of the previous poll that are still to come are new to `active`, or came back.
    abbrev ToCome : Dict CapAlert → Pass → Type 0
    ToCome previous p =
        Every (λ k _. Dict.has k incoming ≡ false → Dict.has k p.active ≡ false) previous

    ToCome-put :
        (alert_id : String) (a : CapAlert) (previous : Dict CapAlert) (p : Pass)
        → Dict.has alert_id previous ≡ false
        → ToCome previous p
        → ToCome previous (keep alert_id a p.store p)
    unfolding Dict.has
    ToCome-put alert_id a [] p ne t = tt
    ToCome-put alert_id a ((k, b) ∷ previous) p ne t = (
      λ e. has-put alert_id k a p.active ∙ rw (str_ne_sym k alert_id (ground arith)) (t.0 e),
      ToCome-put alert_id a previous p (ground arith) t.1,
    )

    miss_all-IsListed :
        (previous : Dict CapAlert) (p : Pass)
        → Keyed previous
        → Distinct previous
        → Every (λ _ a. is_terminal a ≡ false) previous
        → ToCome previous p
        → IsListed p
        → IsListed (miss_all h now incoming scope_changed refs previous p)
    unfolding miss_all
    miss_all-IsListed [] p keyed distinct live new l = l
    miss_all-IsListed ((alert_id, prev) ∷ previous) p keyed distinct live new l =
        elim (Bool-cases (Dict.has alert_id incoming)) [
          | inl q ↦
              rw (miss_all, q) (miss_all-IsListed previous p keyed.1 distinct.1 live.1 new.1 l)
          | inr q ↦ elim (Bool-cases (replaced refs prev)) [
            | inl r ↦
                rw (miss_all, q, miss-replaced h now scope_changed refs alert_id prev p r)
                  (miss_all-IsListed previous p keyed.1 distinct.1 live.1 new.1 l)
            | inr r ↦ elim (Bool-cases (retains h now scope_changed prev)) [
              | inl k ↦
                  let a = retained h now alert_id prev p.store in
                  rw (miss_all, q, miss-retained h now scope_changed refs alert_id prev p r k)
                    (miss_all-IsListed previous (keep alert_id a p.store p) keyed.1 distinct.1
                      live.1 (ToCome-put alert_id a previous p distinct.0 new.1)
                      (keep-IsListed alert_id a p (keep alert_id a p.store p) l (new.0 q) keyed.0
                        (live_phase prev a refl live.0) refl refl))
              | inr k ↦
                  rw (miss_all, q, miss-lost h now scope_changed refs alert_id prev p r k)
                    (miss_all-IsListed previous
                      (ended (told_lost h now scope_changed refs alert_id prev p) p) keyed.1
                      distinct.1 live.1 new.1
                      (same-IsListed p
                        (ended (told_lost h now scope_changed refs alert_id prev p) p) l refl refl))
            ]
          ]
        ]

to_come :
    (h : Host) (now : ℕ) (incoming : Dict CapAlert) (s : AlertStore)
    → Keyed incoming
    → (previous : Dict CapAlert)
    → Every
        (λ k _. Dict.has k incoming ≡ false → Dict.has k (visited h now incoming s).active ≡ false)
        previous
to_come h now incoming s keyed [] = tt
to_come h now incoming s keyed ((k, a) ∷ previous) = (
  λ e. absent-get k _ (
      (visit_all_other k h now (by_identifier_from [] s.previous) incoming (start s) keyed e).active
      ∙ unfold Dict.get in refl),
  to_come h now incoming s keyed previous,
)

-- Both loops, from a set of live alerts under their own ids.
pub passes-IsListed :
    (h : Host) (now : ℕ) (o : Options) (incoming : Dict CapAlert) (s : AlertStore)
    → Keyed incoming
    → Distinct incoming
    → Keyed s.previous
    → Distinct s.previous
    → Every (λ _ a. is_terminal a ≡ false) s.previous
    → IsListed (passes h now o incoming s)
unfolding passes
passes-IsListed h now o incoming s keyed distinct pkeyed pdistinct live =
    miss_all-IsListed h now incoming o.scope_changed (refs o incoming) s.previous
      (visited h now incoming s) pkeyed pdistinct live (to_come h now incoming s keyed s.previous)
      (visit_all-IsListed h now (by_identifier_from [] s.previous) incoming (start s) keyed distinct
        (Disjoint-nil incoming)
        (record { listed = unfold Dict.values in refl; keyed = tt; distinct = tt; live = tt }))
