-- ===== src/Trigger/Armed.antt =====
-- What holds of the timed listener (trigger.py) at all times, for the parts of its callbacks.

use cap_alerts.Prelude.{
  ℕ, ◌≤◌, ◌<◌, ◌≡◌, inl, inr, refl, sym, ◌∙◌, subst, String, Bool, true, false, not, ◌&&◌, Option,
  none, some, List, [], ◌∷◌, ◌++◌, ◌==◌, arith, eq_iff, eq_refl, leb, ◌=ℕ◌, str_ne_sym, Bool-cases,
  Option-cases,
}
use cap_alerts.Prelude.Lists.{keep_if, any, All}
use cap_alerts.Dict
use cap_alerts.Dict.{Dict}
use cap_alerts.Dict.Laws.{get-put, get-remove}
use cap_alerts.Trigger.Matchers.{rank}
use cap_alerts.Trigger.Timed.{
  Setup, Job, Run, Listener, cancel, disarm, armed_for, is_value, schedule, shifted, arm_at, arm,
  value_of,
}

module _ {ℓ} {A : Type ℓ} where
  All-keep_if {κ μ} :
      {P : A → Type κ} {Q : A → Type μ} (p : A → Bool) (xs : List A)
      → All P xs
      → ((x : A) → P x → p x ≡ true → Q x)
      → All Q (keep_if p xs)
  All-keep_if p [] a f = tt
  All-keep_if p (x ∷ xs) a f = elim (Bool-cases (p x)) [
    | inl e ↦ rw e (f x a.0 e, All-keep_if p xs a.1 f)
    | inr e ↦ rw e (All-keep_if p xs a.1 f)
  ]

  pub All-map {κ μ} :
      {P : A → Type κ} {Q : A → Type μ} (xs : List A) → All P xs → ((x : A) → P x → Q x) → All Q xs
  All-map [] a f = tt
  All-map (x ∷ xs) a f = (f x a.0, All-map xs a.1 f)

  pub All-middle {κ} :
      (P : A → Type κ) (xs : List A) (y : A) (ys : List A) → All P (xs ++ y ∷ ys) → P y
  All-middle P [] y ys a = a.0
  All-middle P (x ∷ xs) y ys a = All-middle P xs y ys a.1

-- The action has run for the value of an entity.
abbrev pub ran : String → String → List Run → Bool
ran entity_id value = any (λ run. run.entity_id == entity_id && run.value == value)

-- No two runs are for one value of one entity.
abbrev pub Single : List Run → Type 0
Single [] = Unit
Single (run ∷ runs) = (ran run.entity_id run.value runs ≡ false) × Single runs

module _ (c : Setup) where
  -- The time of a value, and the instant at which the action is to run for it.
  abbrev pub RunsAt : String → ℕ → Type 0
  RunsAt value at = (when : ℕ) × (c.parse_time value ≡ some when) × (at ≡ shifted c when)

  -- A timer of the host is the one that the listener knows, it is at the time of its value, and the
  -- action has not run for that value.
  abbrev pub IsKnown : Dict (ℕ × ℕ) → List Run → Job → Type 0
  IsKnown timers runs job =
      (Dict.get job.entity_id timers ≡ some (job.fire_at, job.handle))
      × RunsAt job.value job.fire_at
      × (ran job.entity_id job.value runs ≡ false)

  pub record IsArmed (l : Listener) : Type 0 where
    pub known : All (IsKnown l.timers l.runs) l.scheduled
    pub past :
        (entity_id value : String)
        → ran entity_id value l.runs ≡ true
        → (at : ℕ) × RunsAt value at × (at ≤ l.now)
    pub single : Single l.runs
    pub severe : All (λ run. c.threshold ≤ rank run.severity) l.runs

  -- The timers that are left once those of an entity are cancelled.
  pub IsKnown-cancel :
      (entity_id : String) (timers : Dict (ℕ × ℕ)) (runs : List Run) (fire_at handle : ℕ)
      (jobs : List Job)
      → Dict.get entity_id timers ≡ some (fire_at, handle)
      → All (IsKnown timers runs) jobs
      → All
          (λ job.
            ((job.entity_id == entity_id) ≡ false)
            × IsKnown (Dict.remove entity_id timers) runs job)
          (cancel handle jobs)
  IsKnown-cancel entity_id timers runs fire_at handle jobs e a =
      All-keep_if _ jobs a (λ job k other. step job k other)
    where
      other_entity :
          (job : Job)
          → Dict.get job.entity_id timers ≡ some (job.fire_at, job.handle)
          → not (job.handle =ℕ handle) ≡ true
          → (job.entity_id == entity_id) ≡ false
      other_entity job k other = elim (Bool-cases (job.entity_id == entity_id)) [
        | inr q ↦ q
        | inl q ↦
            let same : job.entity_id ≡ entity_id = (eq_iff job.entity_id entity_id).0 q in
            let one : ◌≡◌ {A = Option (ℕ × ℕ)} (some (fire_at, handle))
                (some (job.fire_at, job.handle)) =
              sym e ∙ subst (λ x. Dict.get x timers ≡ some (job.fire_at, job.handle)) same k in
            absurd (same_handle one other)
      ]
        where
          same_handle :
              {a b x y : ℕ}
              → ◌≡◌ {A = Option (ℕ × ℕ)} (some (a, b)) (some (x, y))
              → not (y =ℕ b) ≡ true
              → ⊥
          same_handle {a} {b} {x} {y} one other = let h : b ≡ y = cc one in ground arith

      step :
          (job : Job)
          → IsKnown timers runs job
          → not (job.handle =ℕ handle) ≡ true
          → ((job.entity_id == entity_id) ≡ false) × IsKnown (Dict.remove entity_id timers) runs job
      step job k other =
          let ne = other_entity job k.0 other in
          (ne, (rw (get-remove, str_ne_sym job.entity_id entity_id ne) k.0, k.1, k.2))

  none-ne :
      (entity_id : String) (timers : Dict (ℕ × ℕ)) (job : Job)
      → Dict.get entity_id timers ≡ none
      → Dict.get job.entity_id timers ≡ some (job.fire_at, job.handle)
      → (job.entity_id == entity_id) ≡ false
  none-ne entity_id timers job e k = elim (Bool-cases (job.entity_id == entity_id)) [
    | inr q ↦ q
    | inl q ↦
        let same : job.entity_id ≡ entity_id = (eq_iff job.entity_id entity_id).0 q in
        let two : Dict.get job.entity_id timers ≡ none = rw same e in absurd (nothing (sym two ∙ k))
  ]
    where
      nothing : {x : ℕ × ℕ} → none ≡ some x → ⊥
      nothing h = cc h

  pub disarmed :
      (entity_id : String) (l : Listener)
      → All (IsKnown l.timers l.runs) l.scheduled
      → All
          (λ job.
            ((job.entity_id == entity_id) ≡ false) × IsKnown (disarm entity_id l).timers l.runs job)
          (disarm entity_id l).scheduled
  unfolding disarm
  disarmed entity_id l a = elim (Option-cases (Dict.get entity_id l.timers)) [
    | inl e ↦ rw e (
        All-map l.scheduled a (λ job k.
          let ne = none-ne entity_id l.timers job e k.0 in
          (ne, (rw (get-remove, str_ne_sym job.entity_id entity_id ne) k.0, k.1, k.2))))
    | inr ((fire_at, handle), e) ↦
        rw e (IsKnown-cancel entity_id l.timers l.runs fire_at handle l.scheduled e a)
  ]

  pub disarm-IsArmed :
      (entity_id : String) (l : Listener) → IsArmed l → IsArmed (disarm entity_id l)
  unfolding disarm
  disarm-IsArmed entity_id l i = record {
    known = All-map _ (disarmed entity_id l i.known) (λ job k. k.1);
    past = i.past;
    single = i.single;
    severe = i.severe;
  }

  pub schedule-IsArmed :
      (entity_id value : String) (fire_at : ℕ) (l : Listener)
      → RunsAt value fire_at
      → l.now < fire_at
      → IsArmed l
      → All
          (λ job. ((job.entity_id == entity_id) ≡ false) × IsKnown l.timers l.runs job)
          l.scheduled
      → IsArmed (schedule entity_id value fire_at l)
  unfolding schedule
  schedule-IsArmed entity_id value fire_at l at ahead i others = record {
    known = (
      (rw (get-put, eq_refl), at, fresh),
      All-map l.scheduled others
          (λ job k. (rw (get-put, str_ne_sym job.entity_id entity_id k.0) k.1.0, k.1.1, k.1.2)),
    );
    past = i.past;
    single = i.single;
    severe = i.severe;
  }
    where
      same_instant : {s t : ℕ} → RunsAt value s → RunsAt value t → s ≡ t
      same_instant (w, e, f) (v, g, h) = let q : w ≡ v = cc (e, g) in f ∙ rw q (sym h)

      fresh : ran entity_id value l.runs ≡ false
      fresh = elim (Bool-cases (ran entity_id value l.runs)) [
        | inr q ↦ q
        | inl q ↦
            let (t, before, passed) = i.past entity_id value q in
            absurd (omega (arith, same_instant at before, passed, ahead))
      ]

  arm_at-IsArmed :
      (entity_id value : String) (when : Option ℕ) (l : Listener)
      → c.parse_time value ≡ when
      → IsArmed l
      → IsArmed (arm_at c entity_id value when l)
  unfolding arm_at
  arm_at-IsArmed entity_id value none l e i = disarm-IsArmed entity_id l i
  arm_at-IsArmed entity_id value (some when) l e i =
      elim (Bool-cases (is_value (Dict.get entity_id l.fired) value)) [
        | inl q ↦ rw (arm_at, q) (disarm-IsArmed entity_id l i)
        | inr q ↦ elim (Bool-cases (armed_for (Dict.get entity_id l.timers) (shifted c when))) [
          | inl r ↦ rw (arm_at, q, r) i
          | inr r ↦ elim (Bool-cases (leb (shifted c when) l.now)) [
            | inl t ↦ rw (arm_at, q, r, t) (disarm-IsArmed entity_id l i)
            | inr t ↦
                rw (arm_at, q, r, t)
                  (schedule-IsArmed entity_id value (shifted c when) (disarm entity_id l)
                    (when, e, refl) (unfold disarm in ground arith) (disarm-IsArmed entity_id l i)
                    (unfold disarm in disarmed entity_id l i.known))
          ]
        ]
      ]

  pub arm-IsArmed : (entity_id : String) (l : Listener) → IsArmed l → IsArmed (arm c entity_id l)
  unfolding arm
  arm-IsArmed entity_id l i = elim (Option-cases (value_of c entity_id l)) [
    | inl e ↦ rw e (disarm-IsArmed entity_id l i)
    | inr (value, e) ↦ rw e (arm_at-IsArmed entity_id value (c.parse_time value) l refl i)
  ]
