-- ===== src/Normalize/Counts.antt =====
-- `count_by_onset` (normalize.py) against a count of the alerts one by one.
use cap_alerts.Prelude.{
  ℕ, suc, ◌+◌, ◌-◌, ◌≤◌, ◌<◌, ◌≡◌, ◌⊎◌, inl, inr, subst, none, some, List, [], ◌∷◌, true, false,
  arith, ltb, Bool-cases, Option-cases,
}
use cap_alerts.Prelude.Lists.{length}
use cap_alerts.Time.{FromIso, parse_iso}
use cap_alerts.Model.{CapAlert}
use cap_alerts.Normalize.Alerts.{is_ahead, upcoming_in, count_by_onset}

module _ (from_iso : FromIso) (now : ℕ) where
  -- The alert's `onset` reads as a time after now.
  abbrev pub Upcoming : CapAlert → Type 0
  Upcoming a = (onset : ℕ) × (parse_iso from_iso a.onset ≡ some onset) × (now < onset)

  -- It cannot be read, or reads as now or a time before.
  abbrev pub Active : CapAlert → Type 0
  Active a =
      (parse_iso from_iso a.onset ≡ none)
      ⊎ ((onset : ℕ) × (parse_iso from_iso a.onset ≡ some onset) × (onset ≤ now))

  -- `Counted alerts active upcoming`
  pub data Counted : List CapAlert → ℕ → ℕ → Type 0 where
    nobody : Counted [] 0 0
    one_active :
        {a : CapAlert} {alerts : List CapAlert} {n m : ℕ}
        → Active a
        → Counted alerts n m
        → Counted (a ∷ alerts) (suc n) m
    one_upcoming :
        {a : CapAlert} {alerts : List CapAlert} {n m : ℕ}
        → Upcoming a
        → Counted alerts n m
        → Counted (a ∷ alerts) n (suc m)

  -- The loop adds the upcoming alerts to what it has.
  record IsTally (alerts : List CapAlert) : Type 0 where
    active : ℕ
    upcoming : ℕ
    counted : Counted alerts active upcoming
    complete : active + upcoming ≡ length alerts
    added : (n : ℕ) → upcoming_in from_iso now alerts n ≡ n + upcoming

  later :
      (a : CapAlert) (alerts : List CapAlert) → Upcoming a → IsTally alerts → IsTally (a ∷ alerts)
  unfolding upcoming_in
  later a alerts (onset, e, ahead) t = record {
    active = t.active;
    upcoming = suc t.upcoming;
    counted = one_upcoming (onset, e, ahead) t.counted;
    complete = omega (arith, t.complete);
    added = λ n. rw (upcoming_in, e, is_later) (omega (arith, t.added (n + 1)));
  }
    where
      is_later : ltb now onset ≡ true
      is_later = ground arith

  present :
      (a : CapAlert) (alerts : List CapAlert) → Active a → IsTally alerts → IsTally (a ∷ alerts)
  unfolding upcoming_in
  present a alerts h t = record {
    active = suc t.active;
    upcoming = t.upcoming;
    counted = one_active h t.counted;
    complete = omega (arith, t.complete);
    added = λ n. rw (upcoming_in, not_ahead h) (t.added n);
  }
    where
      not_ahead : Active a → is_ahead now (parse_iso from_iso a.onset) ≡ false
      not_ahead (inl e) = rw e
      not_ahead (inr (onset, e, past)) = rw e (ground arith)

  tally : (alerts : List CapAlert) → IsTally alerts
  unfolding upcoming_in
  tally [] = record {
    active = 0;
    upcoming = 0;
    counted = nobody;
    complete = omega arith;
    added = λ n. omega arith;
  }
  tally (a ∷ alerts) = elim (Option-cases (parse_iso from_iso a.onset)) [
    | inl e ↦ present a alerts (inl e) (tally alerts)
    | inr (onset, e) ↦ elim (Bool-cases (ltb now onset)) [
      | inl f ↦ later a alerts (onset, e, ground arith) (tally alerts)
      | inr f ↦ present a alerts (inr (onset, e, ground arith)) (tally alerts)
    ]
  ]

  -- The two results count the alerts one by one: as upcoming those whose `onset` reads as a time
  -- after now, and as active those whose `onset` cannot be read, or reads as now or a time before.
  pub count_by_onset-Counted :
      (alerts : List CapAlert)
      → Counted alerts (count_by_onset from_iso now alerts).0 (count_by_onset from_iso now alerts).1
  unfolding count_by_onset
  count_by_onset-Counted alerts =
      let t = tally alerts in
      let up : t.upcoming ≡ upcoming_in from_iso now alerts 0 = omega (arith, t.added 0) in
      let act : t.active ≡ length alerts - upcoming_in from_iso now alerts 0 =
        omega (arith, t.complete, t.added 0) in
      subst (λ n. Counted alerts n (upcoming_in from_iso now alerts 0)) act
        (subst (λ m. Counted alerts t.active m) up t.counted)
