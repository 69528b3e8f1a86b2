-- ===== src/Trigger/Timed.antt =====
-- `_TimedListener` (trigger.py) with its surroundings: the states and the timers of the host, the
-- clock, and the runs of the action in order, the last one first.
use cap_alerts.Prelude.{
  ℕ, suc, ◌+◌, ◌-◌, ◌≤◌, ◌≡◌, String, Bool, false, not, Option, none, some, List, [], ◌∷◌, ◌++◌,
  ◌==◌, ltb, leb, ◌=ℕ◌, if◌then◌else◌,
}
use cap_alerts.Prelude.Int.{ℤ, pos_part, neg_part}
use cap_alerts.Prelude.Lists.{keep_if, contains}
use cap_alerts.Dict
use cap_alerts.Dict.{Dict}
use cap_alerts.Trigger.Matchers.{rank}

-- `_parse_time` (of the host's `dt_util`), and what `__init__` keeps for good.
pub record Setup : Type 0 where
  pub parse_time : String → Option ℕ
  pub attribute : String
  pub threshold : ℕ
  pub offset : ℤ

-- A state of the host; of its attributes, those with a text.
pub record State : Type 0 where
  pub state : String
  pub attributes : Dict String

-- A timer of the host. `handle` is what cancels it.
pub record Job : Type 0 where
  pub handle : ℕ
  pub fire_at : ℕ
  pub entity_id : String
  pub value : String

-- The payload of `_fire`.
pub record Run : Type 0 where
  pub entity_id : String
  pub incident_id : Option String
  pub event : Option String
  pub severity : String
  pub area_desc : Option String
  pub value : String
  pub offset : ℤ

-- `tracked`, `timers` and `fired` are the listener's; the rest is the host's.
pub record Listener : Type 0 where
  pub tracked : List String
  pub timers : Dict (ℕ × ℕ)
  pub fired : Dict String
  pub states : Dict State
  pub scheduled : List Job
  pub next_handle : ℕ
  pub now : ℕ
  pub runs : List Run

-- `__init__`, in a host at some time and in some state.
abbrev pub new_listener : ℕ → Dict State → Listener
new_listener now states = record {
  tracked = [];
  timers = [];
  fired = [];
  states = states;
  scheduled = [];
  next_handle = 0;
  now = now;
  runs = [];
}

-- Cancelling a timer of the host.
abbrev pub cancel : ℕ → List Job → List Job
cancel handle = keep_if (λ job. not (job.handle =ℕ handle))

abbrev unsub : Option (ℕ × ℕ) → List Job → List Job
unsub none jobs = jobs
unsub (some (fire_at, handle)) jobs = cancel handle jobs

-- `_disarm`
unfoldable pub disarm : String → Listener → Listener
disarm entity_id l = record l {
  timers = Dict.remove entity_id l.timers;
  scheduled = unsub (Dict.get entity_id l.timers) l.scheduled;
}

abbrev forget : String → Listener → Listener
forget entity_id l = record l { fired = Dict.remove entity_id l.fired }

-- The loop over the entities that are tracked no longer.
unfoldable pub forget_all : List String → Listener → Listener
forget_all [] l = l
forget_all (entity_id ∷ gone) l = forget_all gone (forget entity_id (disarm entity_id l))

unfoldable pub disarm_all : List String → Listener → Listener
disarm_all [] l = l
disarm_all (entity_id ∷ armed) l = disarm_all armed (disarm entity_id l)

-- `_unsubscribe`
unfoldable pub unsubscribe : Listener → Listener
unsubscribe l = disarm_all (Dict.keys l.timers) (record l { tracked = [] })

abbrev pub is_value : Option String → String → Bool
is_value none value = false
is_value (some v) value = v == value

abbrev pub armed_for : Option (ℕ × ℕ) → ℕ → Bool
armed_for none fire_at = false
armed_for (some (at, handle)) fire_at = at =ℕ fire_at

-- `async_track_point_in_time`, and the entry in `_timers`.
unfoldable pub schedule : String → String → ℕ → Listener → Listener
schedule entity_id value fire_at l = record l {
  scheduled =
      (record { handle = l.next_handle; fire_at = fire_at; entity_id = entity_id; value = value })
      ∷ l.scheduled;
  next_handle = suc l.next_handle;
  timers = Dict.put entity_id (fire_at, l.next_handle) l.timers;
}

module _ (c : Setup) where
  -- `when + self._offset`. Python raises `OverflowError` before the year 1, where this is 0.
  abbrev pub shifted : ℕ → ℕ
  shifted when = when + pos_part c.offset - neg_part c.offset

  abbrev attribute_of : Option State → Option String
  attribute_of none = none
  attribute_of (some st) = Dict.get c.attribute st.attributes

  -- `state.attributes.get(self._attribute) if state else None`
  abbrev pub value_of : String → Listener → Option String
  value_of entity_id l = attribute_of (Dict.get entity_id l.states)

  -- The rest of `_arm` for a value with a time.
  unfoldable pub arm_at : String → String → Option ℕ → Listener → Listener
  unfolding disarm schedule
  arm_at entity_id value none l = disarm entity_id l
  arm_at entity_id value (some when) l =
      if is_value (Dict.get entity_id l.fired) value
      then disarm entity_id l
      else if armed_for (Dict.get entity_id l.timers) (shifted when)
      then l
      else if leb (shifted when) l.now
      then disarm entity_id l
      else schedule entity_id value (shifted when) (disarm entity_id l)

  abbrev arm_value : String → Option String → Listener → Listener
  arm_value entity_id none l = disarm entity_id l
  arm_value entity_id (some value) l = arm_at entity_id value (c.parse_time value) l

  -- `_arm`
  unfoldable pub arm : String → Listener → Listener
  arm entity_id l = arm_value entity_id (value_of entity_id l) l

  unfoldable pub arm_all : List String → Listener → Listener
  arm_all [] l = l
  arm_all (entity_id ∷ entities) l = arm_all entities (arm entity_id l)

  -- `_handle_entities_update`. The subscription to state changes is to the tracked entities.
  unfoldable pub handle_entities_update : List String → Listener → Listener
  handle_entities_update tracked_entities l =
      let gone = keep_if (λ e. not (contains e tracked_entities)) l.tracked in
      arm_all tracked_entities (record (forget_all gone l) { tracked = tracked_entities })

  abbrev set_state : String → Option State → Dict State → Dict State
  set_state entity_id none states = Dict.remove entity_id states
  set_state entity_id (some st) states = Dict.put entity_id st states

  -- A change of a state in the host, and `_handle_state_change` where it is subscribed to.
  unfoldable pub change_state : String → Option State → Listener → Listener
  change_state entity_id st l =
      let l' : Listener = record l { states = set_state entity_id st l.states } in
      if contains entity_id l.tracked then arm entity_id l' else l'

  abbrev started : String → String → State → Run
  started entity_id value st = record {
    entity_id = entity_id;
    incident_id = Dict.get "id" st.attributes;
    event = Dict.get "event" st.attributes;
    severity = st.state;
    area_desc = Dict.get "area_desc" st.attributes;
    value = value;
    offset = c.offset;
  }

  abbrev pub fire_state : String → String → Option State → Listener → Listener
  fire_state entity_id value none l = l
  fire_state entity_id value (some st) l =
      if is_value (Dict.get c.attribute st.attributes) value
      then record l {
        fired = Dict.put entity_id value l.fired;
        runs =
            if ltb (rank st.state) c.threshold then l.runs else started entity_id value st ∷ l.runs;
      }
      else l

  -- `_fire`, called by the host with a timer that it has taken off its list.
  unfoldable pub fire : Job → Listener → Listener
  fire job l = fire_state job.entity_id job.value (Dict.get job.entity_id l.states) (record l {
    timers = Dict.remove job.entity_id l.timers;
    scheduled = cancel job.handle l.scheduled;
  })

  -- What happens to the listener, one callback at a time; a timer runs once its time has come.
  infix 20 ◌⟶◌
  pub data ◌⟶◌ : Listener → Listener → Type 0 where
    retarget : (l : Listener) (entities : List String) → l ⟶ handle_entities_update entities l
    changed :
        (l : Listener) (entity_id : String) (st : Option State) → l ⟶ change_state entity_id st l
    passed : (l : Listener) (now : ℕ) → l.now ≤ now → l ⟶ record l { now = now }
    due :
        (l : Listener) (job : Job) (sooner later : List Job)
        → l.scheduled ≡ sooner ++ job ∷ later
        → job.fire_at ≤ l.now
        → l ⟶ fire job l
    removed : (l : Listener) → l ⟶ unsubscribe l
