-- ===== src/Trigger/Respelled.antt =====
-- The timed listener (trigger.py) when a revision writes the same instant in other words.
use cap_alerts.Prelude.{ℕ, ◌≡◌, String, false, some, ◌==◌, arith}
use cap_alerts.Dict
use cap_alerts.Trigger.Timed.{
  Setup, Job, Listener, State, arm, arm_at, fire, fire_state, is_value, shifted,
}

module _ (c : Setup) where
  fire_state_other :
      (entity_id value : String) (st : State) (current : String) (l : Listener)
      → Dict.get c.attribute st.attributes ≡ some current
      → (current == value) ≡ false
      → fire_state c entity_id value (some st) l ≡ l
  fire_state_other entity_id value st current l e ne = rw (e, ne)

  -- A timer is armed for an entity, and a revision changes the text of the attribute but not the
  -- instant that it stands for: the old timer is kept as it is, and when it is due the action does
  -- not run and the new text is not noted as fired, since the timer holds the old text.
  pub arm-fire_respelled :
      (l : Listener) (job : Job) (st : State) (current : String) (when handle : ℕ)
      → Dict.get job.entity_id l.states ≡ some st
      → Dict.get c.attribute st.attributes ≡ some current
      → (current == job.value) ≡ false
      → c.parse_time current ≡ some when
      → is_value (Dict.get job.entity_id l.fired) current ≡ false
      → Dict.get job.entity_id l.timers ≡ some (shifted c when, handle)
      → (arm c job.entity_id l ≡ l)
        × ((fire c job l).runs ≡ l.runs)
        × ((fire c job l).fired ≡ l.fired)
  unfolding arm arm_at fire
  arm-fire_respelled l job st current when handle e f ne p unfired armed =
      (rw (e, f, p, unfired, armed) (ground arith), rw (e, f, ne), rw (e, f, ne))
