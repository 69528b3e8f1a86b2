-- ===== src/Trigger/Runs.antt =====
-- The timed listener (trigger.py) over any sequence of its callbacks.
use mathlib.Core.Bool.{false≢true}
use cap_alerts.Prelude.{
  ℕ, ◌≤◌, ◌≡◌, inl, inr, refl, sym, ◌∙◌, subst, String, Bool, true, false, ◌&&◌, ◌||◌, not, Option,
  none, some, List, [], ◌∷◌, ◌++◌, ◌==◌, arith, eq_iff, eq_refl, ltb, Bool-cases, str_ne_sym,
}
use cap_alerts.Prelude.Lists.{All, keep_if, contains}
use cap_alerts.Dict
use cap_alerts.Dict.{Dict}
use cap_alerts.Trigger.Matchers.{rank}
use cap_alerts.Trigger.Timed.{
  Setup, Job, Run, Listener, State, ◌⟶◌, retarget, changed, passed, due, removed, new_listener, arm,
  arm_all, forget_all, disarm, disarm_all, handle_entities_update, change_state, fire, fire_state,
  unsubscribe, cancel, is_value,
}
use cap_alerts.Trigger.Armed.{
  IsArmed, IsKnown, IsKnown-cancel, RunsAt, Single, ran, All-middle, All-map, arm-IsArmed,
  disarm-IsArmed,
}

or_right : (x y : Bool) → (x || y) ≡ true → x ≡ false → y ≡ true
or_right true y h e = absurd (false≢true (sym e))
or_right false y h e = h

module _ (c : Setup) where
  arm_all-IsArmed :
      (entities : List String) (l : Listener) → IsArmed c l → IsArmed c (arm_all c entities l)
  unfolding arm_all
  arm_all-IsArmed [] l i = i
  arm_all-IsArmed (entity_id ∷ entities) l i =
      arm_all-IsArmed entities (arm c entity_id l) (arm-IsArmed c entity_id l i)

  disarm_all-IsArmed :
      (armed : List String) (l : Listener) → IsArmed c l → IsArmed c (disarm_all armed l)
  unfolding disarm_all
  disarm_all-IsArmed [] l i = i
  disarm_all-IsArmed (entity_id ∷ armed) l i =
      disarm_all-IsArmed armed (disarm entity_id l) (disarm-IsArmed c entity_id l i)

  -- What the listener is armed for does not depend on what it tracks, has fired or sees.
  with_other :
      (tracked : List String) (fired : Dict String) (states : Dict State) (l : Listener)
      → IsArmed c l
      → IsArmed c (record l { tracked = tracked; fired = fired; states = states })
  with_other tracked fired states l i = record {
    known = i.known;
    past = i.past;
    single = i.single;
    severe = i.severe;
  }

  forget_all-IsArmed :
      (gone : List String) (l : Listener) → IsArmed c l → IsArmed c (forget_all gone l)
  unfolding forget_all
  forget_all-IsArmed [] l i = i
  forget_all-IsArmed (entity_id ∷ gone) l i =
      let d = disarm entity_id l in
      forget_all-IsArmed gone _ (
        with_other d.tracked (Dict.remove entity_id d.fired) d.states d
          (disarm-IsArmed c entity_id l i))

  retarget-IsArmed :
      (entities : List String) (l : Listener)
      → IsArmed c l
      → IsArmed c (handle_entities_update c entities l)
  unfolding handle_entities_update
  retarget-IsArmed entities l i =
      let l' = forget_all (keep_if (λ e. not (contains e entities)) l.tracked) l in
      arm_all-IsArmed entities _
        (with_other entities l'.fired l'.states l' (forget_all-IsArmed _ l i))

  change_state-IsArmed :
      (entity_id : String) (st : Option State) (l : Listener)
      → IsArmed c l
      → IsArmed c (change_state c entity_id st l)
  unfolding change_state
  change_state-IsArmed entity_id st l i = elim (Bool-cases (contains entity_id l.tracked)) [
    | inl q ↦ rw (change_state, q) (arm-IsArmed c entity_id _ (with_other l.tracked l.fired _ l i))
    | inr q ↦ rw (change_state, q) (with_other l.tracked l.fired _ l i)
  ]

  unsubscribe-IsArmed : (l : Listener) → IsArmed c l → IsArmed c (unsubscribe l)
  unfolding unsubscribe
  unsubscribe-IsArmed l i =
      disarm_all-IsArmed (Dict.keys l.timers) _ (with_other [] l.fired l.states l i)

  -- The listener once a timer has been taken off, and the others' timers are left.
  others :
      (job : Job) (l : Listener)
      → IsArmed c l
      → IsKnown c l.timers l.runs job
      → All
          (λ other.
            ((other.entity_id == job.entity_id) ≡ false)
            × IsKnown c (Dict.remove job.entity_id l.timers) l.runs other)
          (cancel job.handle l.scheduled)
  others job l i k =
      IsKnown-cancel c job.entity_id l.timers l.runs job.fire_at job.handle l.scheduled k.0 i.known

  ran-IsArmed :
      (run : Run) (job : Job) (l : Listener)
      → run.entity_id ≡ job.entity_id
      → run.value ≡ job.value
      → c.threshold ≤ rank run.severity
      → job.fire_at ≤ l.now
      → IsKnown c l.timers l.runs job
      → IsArmed c l
      → IsArmed c (record l {
        timers = Dict.remove job.entity_id l.timers;
        scheduled = cancel job.handle l.scheduled;
        runs = run ∷ l.runs;
      })
  ran-IsArmed run job l e v loud passed_ k i = record {
    known = All-map _ (others job l i k) (λ other o. (o.1.0, o.1.1, unseen other o.0 o.1.2));
    past = since;
    single = (rw (e, v) k.2, i.single);
    severe = (loud, i.severe);
  }
    where
      unseen :
          (other : Job)
          → (other.entity_id == job.entity_id) ≡ false
          → ran other.entity_id other.value l.runs ≡ false
          → ran other.entity_id other.value (run ∷ l.runs) ≡ false
      unseen other ne r = rw (e, str_ne_sym other.entity_id job.entity_id ne) r

      since :
          (entity_id value : String)
          → ran entity_id value (run ∷ l.runs) ≡ true
          → (at : ℕ) × RunsAt c value at × (at ≤ l.now)
      since entity_id value r =
          elim (Bool-cases (run.entity_id == entity_id && run.value == value)) [
            | inl q ↦
                let same : run.value ≡ value = ground (arith, eq_iff run.value value) in
                (job.fire_at, subst (λ x. RunsAt c x job.fire_at) (sym v ∙ same) k.1, passed_)
            | inr q ↦ i.past entity_id value (or_right _ _ r q)
          ]

  taken :
      (job : Job) (l : Listener)
      → IsKnown c l.timers l.runs job
      → IsArmed c l
      → IsArmed c (record l {
        timers = Dict.remove job.entity_id l.timers;
        scheduled = cancel job.handle l.scheduled;
      })
  taken job l k i = record {
    known = All-map _ (others job l i k) (λ other o. o.1);
    past = i.past;
    single = i.single;
    severe = i.severe;
  }

  fire_state-IsArmed :
      (job : Job) (l : Listener) (st : Option State)
      → job.fire_at ≤ l.now
      → IsKnown c l.timers l.runs job
      → IsArmed c l
      → IsArmed c (
          fire_state c job.entity_id job.value st (record l {
            timers = Dict.remove job.entity_id l.timers;
            scheduled = cancel job.handle l.scheduled;
          }))
  fire_state-IsArmed job l none passed_ k i = taken job l k i
  fire_state-IsArmed job l (some st) passed_ k i =
      elim (Bool-cases (is_value (Dict.get c.attribute st.attributes) job.value)) [
        | inr q ↦ rw q (taken job l k i)
        | inl q ↦ elim (Bool-cases (ltb (rank st.state) c.threshold)) [
          | inl r ↦ rw (q, r) (with_other l.tracked _ l.states _ (taken job l k i))
          | inr r ↦
              rw (q, r)
                (with_other l.tracked _ l.states _
                  (ran-IsArmed _ job l refl refl (ground arith) passed_ k i))
        ]
      ]

  fire-IsArmed :
      (job : Job) (l : Listener) (sooner later : List Job)
      → l.scheduled ≡ sooner ++ job ∷ later
      → job.fire_at ≤ l.now
      → IsArmed c l
      → IsArmed c (fire c job l)
  unfolding fire
  fire-IsArmed job l sooner later e passed_ i =
      fire_state-IsArmed job l (Dict.get job.entity_id l.states) passed_
        (All-middle (IsKnown c l.timers l.runs) sooner job later
          (subst (All (IsKnown c l.timers l.runs)) e i.known))
        i

  step-IsArmed : {l l' : Listener} → ◌⟶◌ c l l' → IsArmed c l → IsArmed c l'
  step-IsArmed (retarget l entities) i = retarget-IsArmed entities l i
  step-IsArmed (changed l entity_id st) i = change_state-IsArmed entity_id st l i
  step-IsArmed (passed l now later) i = record {
    known = i.known;
    past = λ entity_id value r.
        let (at, when, before) = i.past entity_id value r in
        (at, when, omega (arith, before, later));
    single = i.single;
    severe = i.severe;
  }
  step-IsArmed (due l job sooner later e passed_) i = fire-IsArmed job l sooner later e passed_ i
  step-IsArmed (removed l) i = unsubscribe-IsArmed l i

  -- The listeners that callbacks lead to.
  pub data Reached : Listener → Type 0 where
    start : (now : ℕ) (states : Dict State) → Reached (new_listener now states)
    next : (l l' : Listener) → Reached l → ◌⟶◌ c l l' → Reached l'

  Reached-IsArmed : {l : Listener} → Reached l → IsArmed c l
  Reached-IsArmed (start now states) = record {
    known = tt;
    past = λ entity_id value r. absurd (false≢true r);
    single = tt;
    severe = tt;
  }
  Reached-IsArmed (next l l' reached step) = step-IsArmed step (Reached-IsArmed reached)

  -- The time of a value of a run has come.
  abbrev pub Timely : ℕ → Run → Type 0
  Timely now run = (at : ℕ) × RunsAt c run.value at × (at ≤ now)

  timely :
      (now : ℕ) (runs : List Run)
      → ((entity_id value : String)
          → ran entity_id value runs ≡ true
          → (at : ℕ) × RunsAt c value at × (at ≤ now))
      → All (Timely now) runs
  timely now [] f = tt
  timely now (run ∷ runs) f = (
    f run.entity_id run.value (rw (eq_refl, eq_refl) refl),
    timely now runs (λ entity_id value r. f entity_id value (ground arith)),
  )

  -- Whatever the order of revisions, retargets, timers and the passing of time, in any listener
  -- reached from a new one: the action runs at most once for each value of each entity, never
  -- before the time of that value with the offset, and only at or above the threshold.
  pub Reached-Single :
      (l : Listener)
      → Reached l
      → Single l.runs
        × All (Timely l.now) l.runs
        × All (λ run. c.threshold ≤ rank run.severity) l.runs
  Reached-Single l reached =
      let i = Reached-IsArmed reached in (i.single, timely l.now l.runs i.past, i.severe)
