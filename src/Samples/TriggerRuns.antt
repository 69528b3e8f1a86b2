-- ===== src/Samples/TriggerRuns.antt =====
-- Runs of the triggers (trigger.py).
use cap_alerts.Prelude.{
  ℕ, ◌+◌, ◌≤◌, ◌≡◌, refl, true, false, none, some, List, [], ◌∷◌, ◌++◌, ◌==◌, String, inl,
  if◌then◌else◌, arith,
}
use cap_alerts.Prelude.Int.{pos}
use cap_alerts.Prelude.Lists.{All, length}
use cap_alerts.Dict
use cap_alerts.Store.State.{Payload}
use cap_alerts.Trigger.Matchers.{rank, at_or_above, severity_move, crossed_up, crossed_down}
use cap_alerts.Trigger.Crossings.{
  matched, Chain, above, crossed_up-crossed_down, crossed_up-at_or_above,
}
use cap_alerts.Trigger.Timed.{
  Setup, State, Job, is_value, Listener, new_listener, retarget, changed, passed, due, arm, arm_at,
  arm_all, disarm, schedule, forget_all, handle_entities_update, change_state, fire,
}
use cap_alerts.Trigger.Armed.{Single}
use cap_alerts.Trigger.Respelled.{arm-fire_respelled}
use cap_alerts.Trigger.Runs.{Reached, start, next, Timely, Reached-Single}

-- An update that moves the severity.
abbrev moved : String → String → Payload
moved before after = record {
  entry_id = "entry";
  incident_id = "a";
  event = "flood";
  severity = after;
  phase = "update";
  phase_changed = false;
  changed_fields = "severity_normalized" ∷ [];
  area_desc = "";
  previous_severity = some before;
  removal_reason = none;
  superseded_by = none;
  entity_id = some "sensor.a";
}

abbrev up_and_down : List Payload
up_and_down = moved "minor" "extreme" ∷ moved "extreme" "moderate" ∷ []

chain : Chain 1 up_and_down 2
unfolding severity_move rank Dict.get
chain = (inl refl, (inl refl, refl))

crossed_up-crossed_down_example :
    matched crossed_up 3 up_and_down + above 3 1 ≡ matched crossed_down 3 up_and_down + above 3 2
crossed_up-crossed_down_example = crossed_up-crossed_down 3 1 2 up_and_down (omega arith) chain

rose : crossed_up (moved "minor" "extreme") 3 ≡ true
unfolding crossed_up severity_move rank Dict.get
rose = refl

crossed_up-at_or_above_example :
    (at_or_above (moved "minor" "extreme") 3 ≡ true)
    × (crossed_down (moved "minor" "extreme") 3 ≡ false)
crossed_up-at_or_above_example = crossed_up-at_or_above (moved "minor" "extreme") 3 rose

-- Two spellings of one instant.
abbrev setup : Setup
setup = record {
  parse_time = λ value.
      if value == "10:00Z" then some 10 else if value == "10:00+00:00" then some 10 else none;
  attribute = "onset";
  threshold = 3;
  offset = pos 0;
}

abbrev severe_at : String → State
severe_at onset = record { state = "severe"; attributes = ("onset", onset) ∷ [] }

abbrev tracking : Listener
tracking = handle_entities_update setup ("sensor.a" ∷ []) (new_listener 5 [])

abbrev seen : Listener
seen = change_state setup "sensor.a" (some (severe_at "10:00Z")) tracking

-- The callbacks with all that they call open, for the tests.
runs_of : Listener → ℕ × ℕ
unfolding handle_entities_update change_state arm arm_at arm_all disarm schedule forget_all fire
    rank Dict.get Dict.has Dict.put Dict.remove
runs_of l = (length l.scheduled, length l.runs)

one_timer : runs_of seen ≡ (1, 0)
unfolding runs_of
one_timer = refl

abbrev at_ten : Listener
at_ten = record seen { now = 10 }

-- The first timer of the host.
abbrev job : Job
job = record { handle = 0; fire_at = 10; entity_id = "sensor.a"; value = "10:00Z" }

abbrev ended : Listener
ended = fire setup job at_ten

it_runs : runs_of ended ≡ (0, 1)
unfolding runs_of
it_runs = refl

scheduled_at_ten : at_ten.scheduled ≡ [] ++ job ∷ []
unfolding runs_of
scheduled_at_ten = refl

Reached-ended : Reached setup ended
unfolding runs_of
Reached-ended =
    next at_ten ended
      (next seen at_ten
        (next tracking seen
          (next (new_listener 5 []) tracking (start 5 [])
            (retarget (new_listener 5 []) ("sensor.a" ∷ [])))
          (changed tracking "sensor.a" (some (severe_at "10:00Z"))))
        (passed seen 10 (omega arith)))
      (due at_ten job [] [] scheduled_at_ten (omega arith))

Reached-Single_example :
    Single ended.runs
    × All (Timely setup ended.now) ended.runs
    × All (λ run. 3 ≤ rank run.severity) ended.runs
Reached-Single_example = Reached-Single setup ended Reached-ended

-- The instant in other words, and the timer once it is due.
abbrev respelled : Listener
respelled = change_state setup "sensor.a" (some (severe_at "10:00+00:00")) seen

it_does_not_run : runs_of (fire setup job (record respelled { now = 10 })) ≡ (0, 0)
unfolding runs_of
it_does_not_run = refl

state_respelled : Dict.get "sensor.a" respelled.states ≡ some (severe_at "10:00+00:00")
unfolding runs_of
state_respelled = refl

value_respelled : Dict.get "onset" (severe_at "10:00+00:00").attributes ≡ some "10:00+00:00"
unfolding Dict.get
value_respelled = refl

unfired : is_value (Dict.get "sensor.a" respelled.fired) "10:00+00:00" ≡ false
unfolding runs_of
unfired = refl

timer_kept : Dict.get "sensor.a" respelled.timers ≡ some (10, 0)
unfolding runs_of
timer_kept = refl

arm-fire_respelled_example :
    (arm setup "sensor.a" respelled ≡ respelled)
    × ((fire setup job respelled).runs ≡ respelled.runs)
    × ((fire setup job respelled).fired ≡ respelled.fired)
arm-fire_respelled_example =
    arm-fire_respelled setup respelled job (severe_at "10:00+00:00") "10:00+00:00" 10 0
      state_respelled value_respelled refl refl unfired timer_kept
