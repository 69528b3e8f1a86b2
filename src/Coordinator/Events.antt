-- ===== src/Coordinator/Events.antt =====
-- The contexts of a cycle and the events held through startup (coordinator.py). A context is its
-- number, and each call of `Context()` mints the next one. What the bus fires and the jobs that run
-- are recorded in order.
use cap_alerts.Prelude.{
  ℕ, suc, String, Bool, true, false, ◌&&◌, Option, none, some, List, [], ◌∷◌, ◌++◌, ◌=ℕ◌, map,
  if◌then◌else◌,
}
use cap_alerts.Prelude.Lists.{any}
use cap_alerts.Store.State.{Payload}

pub record Context : Type 0 where
  pub id : ℕ
  pub parent_id : Option ℕ

-- The type of an event, its payload and its context.
abbrev pub Posted : Type 0
Posted = String × Payload × Context

pub data Entry : Type 0 where
  fired : Posted → Entry
  ran : ℕ → Entry

-- `started` is whether `hass.state` has left the states before the start; a job is its number.
pub record Cycle : Type 0 where
  pub minted : ℕ
  pub started : Bool
  pub cycle_context : Context
  pub cycle_origin : Option Context
  pub cycle_settled : Bool
  pub pending_context : Option Context
  pub held_events : Option (List Posted)
  pub after_held : Option (List ℕ)
  pub bus : List Entry

-- The fields that `__init__` sets.
abbrev pub new_cycle : Bool → Cycle
new_cycle started = record {
  minted = 1;
  started = started;
  cycle_context = record { id = 0; parent_id = none };
  cycle_origin = none;
  cycle_settled = false;
  pending_context = none;
  held_events = none;
  after_held = none;
  bus = [];
}

abbrev context_of : Option Context → ℕ → Context
context_of none minted = record { id = minted; parent_id = none }
context_of (some context) minted = context

-- `_begin_cycle`
unfoldable pub begin_cycle : Cycle → Cycle
begin_cycle c = record c {
  minted = suc c.minted;
  cycle_context = context_of c.pending_context c.minted;
  cycle_origin = c.pending_context;
  cycle_settled = false;
  pending_context = none;
}

-- `async_update_listeners`, before the listeners run.
abbrev pub update_listeners : Cycle → Cycle
update_listeners c = record c { cycle_settled = true }

-- `async_request_refresh`, without the refresh.
abbrev pub request_refresh : Option Context → Cycle → Cycle
request_refresh none c = c
request_refresh (some context) c = record c { pending_context = some context }

abbrev id_of : Option Context → Option ℕ
id_of none = none
id_of (some context) = some context.id

-- The context that an event gets.
abbrev pub event_context : Cycle → Context
event_context c =
    if c.cycle_settled
    then record { id = c.minted; parent_id = id_of c.cycle_origin }
    else c.cycle_context

abbrev pub missing {ℓ} : {A : Type ℓ} → Option A → Bool
missing none = true
missing (some x) = false

abbrev pub or_nil {ℓ} : {A : Type ℓ} → Option (List A) → List A
or_nil none = []
or_nil (some xs) = xs

-- `_async_fire_event`; the next context is minted where the event gets its own.
unfoldable pub post_event : String → Payload → Cycle → Cycle
post_event event_type payload c =
    let event : Posted = (event_type, payload, event_context c) in
    let next : Cycle = record c { minted = if c.cycle_settled then suc c.minted else c.minted } in
    if missing c.held_events && c.started
    then record next { bus = c.bus ++ fired event ∷ [] }
    else record next {
      held_events = some (or_nil c.held_events ++ event ∷ []);
      after_held = if missing c.held_events then some [] else c.after_held;
    }

abbrev pub registered : ℕ → List ℕ → List ℕ
registered number jobs = if any (λ j. j =ℕ number) jobs then jobs else jobs ++ number ∷ []

-- `async_after_held_events`
unfoldable pub after_held_events : ℕ → Cycle → Cycle
after_held_events number c = elim c.after_held [
  | none ↦ record c { bus = c.bus ++ ran number ∷ [] }
  | some jobs ↦ record c { after_held = some (registered number jobs) }
]

-- `_async_fire_held_events`
unfoldable pub fire_held_events : Cycle → Cycle
fire_held_events c = elim c.held_events [
  | none ↦ c
  | some held ↦ record c {
    held_events = none;
    after_held = none;
    bus = c.bus ++ (map fired held ++ map ran (or_nil c.after_held));
  }
]

-- The calls in any order; the host starts at most once and then drains.
pub data Call : Type 0 where
  begin settled : Call
  refresh : Option Context → Call
  event : String → Payload → Call
  job : ℕ → Call
  starts drain : Call

unfoldable pub called : Call → Cycle → Cycle
unfolding begin_cycle post_event after_held_events fire_held_events
called begin c = begin_cycle c
called settled c = update_listeners c
called (refresh context) c = request_refresh context c
called (event event_type payload) c = post_event event_type payload c
called (job j) c = after_held_events j c
called starts c = record c { started = true }
called drain c = fire_held_events c

unfoldable pub all_called : List Call → Cycle → Cycle
unfolding called
all_called [] c = c
all_called (call ∷ calls) c = all_called calls (called call c)
