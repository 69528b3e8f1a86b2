-- ===== src/Store/Removals.antt =====
-- How often an ending was announced: the `incident_removed` events for an id among the fired ones.
use cap_alerts.Prelude.{
  ℕ, ◌+◌, String, ◌≡◌, refl, Bool, true, false, ◌&&◌, Option, none, some, List, [], ◌∷◌, ◌++◌, ◌∙◌,
  sym, arith, ◌==◌, if◌then◌else◌,
}
use mathlib.Core.Bool.{false≢true}
use cap_alerts.Dict
use cap_alerts.Dict.Laws.{Every-put}
use cap_alerts.Dict.{Dict, Every}
use cap_alerts.Model.{CapAlert}
use cap_alerts.Store.State.{AlertStore, Host, EventType, Payload, created, updated, removed, Event}
use cap_alerts.Store.Events.{
  is_none, is_removed, parks, fire_event, payload, late_events, registered, flush_deferred,
}

abbrev pub one_if : Bool → ℕ
one_if b = if b then 1 else 0

unfoldable pub removals : String → List Event → ℕ
removals id [] = 0
removals id ((kind, p) ∷ events) =
    one_if (is_removed kind && p.incident_id == id) + removals id events

pub removals-append :
    (id : String) (xs ys : List Event) → removals id (xs ++ ys) ≡ removals id xs + removals id ys
unfolding removals
removals-append id [] ys = omega arith
removals-append id ((kind, p) ∷ xs) ys = omega (arith, removals-append id xs ys)

-- Logging an event that may be parked instead, where no removal is.
log-removals :
    (id : String) (kind : EventType) (p : Payload) (parked : Bool) (xs : List Event)
    → (is_removed kind ≡ true → parked ≡ false)
    → removals id (if parked then xs else xs ++ (kind, p) ∷ [])
      ≡ removals id xs + one_if (is_removed kind && p.incident_id == id)
log-removals id kind p false xs now =
    removals-append id xs ((kind, p) ∷ []) ∙ unfold removals in omega arith
log-removals id created p true xs now = omega arith
log-removals id updated p true xs now = omega arith
log-removals id removed p true xs now = absurd (false≢true (sym (now refl)))

not_parked : (b c : Bool) → (b && c && false) ≡ false
not_parked b c = ground arith

-- Firing counts at once if it is a removal, which is never parked.
pub removals-fire_event :
    (id : String) (h : Host) (kind : EventType) (a : CapAlert) (phase_changed : Bool)
    (changed : List String) (previous : Option CapAlert) (s : AlertStore)
    → removals id (fire_event h kind a phase_changed changed previous s).fired
      ≡ removals id s.fired + one_if (is_removed kind && a.id == id)
unfolding fire_event payload
removals-fire_event id h kind a phase_changed changed previous s =
    log-removals id kind (payload h s kind a phase_changed changed previous) (parks h s kind a)
      s.fired λ r. rw r (not_parked (is_none (h.lookup_entity_id a.id)) s.defer_until_registered)

-- What is parked is no removal.
abbrev pub NoParkedRemoval : Dict Event → Type 0
NoParkedRemoval = Every (λ _ event. is_removed event.0 ≡ false)

parking :
    (kind : EventType) (p : Payload) (parked : Bool) (k : String) (d : Dict Event)
    → (is_removed kind ≡ true → parked ≡ false)
    → NoParkedRemoval d
    → NoParkedRemoval (if parked then Dict.put k (kind, p) d else d)
parking kind p false k d now h = h
parking created p true k d now h = Every-put (λ _ e. is_removed e.0 ≡ false) k (created, p) d h refl
parking updated p true k d now h = Every-put (λ _ e. is_removed e.0 ≡ false) k (updated, p) d h refl
parking removed p true k d now h = absurd (false≢true (sym (now refl)))

pub NoParkedRemoval-fire_event :
    (h : Host) (kind : EventType) (a : CapAlert) (phase_changed : Bool) (changed : List String)
    (previous : Option CapAlert) (s : AlertStore)
    → NoParkedRemoval s.deferred
    → NoParkedRemoval (fire_event h kind a phase_changed changed previous s).deferred
unfolding fire_event
NoParkedRemoval-fire_event h kind a phase_changed changed previous s =
    parking kind (payload h s kind a phase_changed changed previous) (parks h s kind a) a.id
      s.deferred λ r. rw r (not_parked (is_none (h.lookup_entity_id a.id)) s.defer_until_registered)

registered-kind : (o : Option String) (e : Event) → (registered o e).0 ≡ e.0
registered-kind none e = refl
registered-kind (some x) e = refl

-- Flushing what was parked announces no ending.
removals-late_events :
    (id : String) (h : Host) (d : Dict Event)
    → NoParkedRemoval d
    → removals id (late_events h d) ≡ 0
unfolding removals late_events
removals-late_events id h [] n = refl
removals-late_events id h ((k, e) ∷ d) n =
    rw (registered-kind (h.lookup_entity_id k) e, n.0)
      (omega (arith, removals-late_events id h d n.1))

pub removals-flush_deferred :
    (id : String) (h : Host) (s : AlertStore)
    → NoParkedRemoval s.deferred
    → removals id (flush_deferred h s).fired ≡ removals id s.fired
unfolding flush_deferred
removals-flush_deferred id h s n = omega (
  arith,
  removals-append id s.fired (late_events h s.deferred),
  removals-late_events id h s.deferred n,
)
