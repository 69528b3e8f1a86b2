-- ===== src/Coordinator/InOrder.antt =====
-- What reaches the event bus, and in which order (coordinator.py).
use cap_alerts.Prelude.{
  ◌≡◌, inl, inr, refl, sym, ◌∙◌, ap, none, some, List, [], ◌∷◌, ◌++◌, map, append_assoc, append-nil,
  Bool-cases, Option-cases, String, ℕ,
}
use cap_alerts.Store.State.{Payload}
use cap_alerts.Coordinator.Events.{
  Posted, Entry, fired, ran, Cycle, event_context, or_nil, begin_cycle, post_event,
  after_held_events, fire_held_events, Call, begin, settled, refresh, event, job, starts, drain,
  called, all_called,
}

abbrev pub events_of : List Entry → List Posted
events_of [] = []
events_of (fired e ∷ entries) = e ∷ events_of entries
events_of (ran j ∷ entries) = events_of entries

-- The events that went out, and those that are held.
abbrev pub told : Cycle → List Posted
told c = events_of c.bus ++ or_nil c.held_events

-- The events of a call, each with the context of its moment.
abbrev pub event_of : Call → Cycle → List Posted
event_of begin c = []
event_of settled c = []
event_of (refresh context) c = []
event_of (event event_type payload) c = (event_type, payload, event_context c) ∷ []
event_of (job j) c = []
event_of starts c = []
event_of drain c = []

abbrev pub events_in : List Call → Cycle → List Posted
events_in [] c = []
events_in (call ∷ calls) c = event_of call c ++ events_in calls (called call c)

events_of-append : (xs ys : List Entry) → events_of (xs ++ ys) ≡ events_of xs ++ events_of ys
events_of-append [] ys = refl
events_of-append (fired e ∷ xs) ys = ap (λ l. e ∷ l) (events_of-append xs ys)
events_of-append (ran j ∷ xs) ys = events_of-append xs ys

events_of-fired : (es : List Posted) (jobs : List ℕ) → events_of (map fired es ++ map ran jobs) ≡ es
events_of-fired [] [] = refl
events_of-fired [] (j ∷ jobs) = events_of-fired [] jobs
events_of-fired (e ∷ es) jobs = ap (λ l. e ∷ l) (events_of-fired es jobs)

told-post_event :
    (event_type : String) (payload : Payload) (c : Cycle)
    → told (post_event event_type payload c) ≡ told c ++ (event_type, payload, event_context c) ∷ []
unfolding post_event
told-post_event event_type payload c = elim (Option-cases c.held_events) [
  | inl e ↦ elim (Bool-cases c.started) [
    | inl f ↦
        rw (post_event, e, f)
          (append-nil (events_of (c.bus ++ fired (event_type, payload, event_context c) ∷ []))
            ∙ events_of-append c.bus (fired (event_type, payload, event_context c) ∷ [])
            ∙ ap (λ l. l ++ (event_type, payload, event_context c) ∷ [])
                (sym (append-nil (events_of c.bus))))
    | inr f ↦
        rw (post_event, e, f)
          (ap (λ l. l ++ (event_type, payload, event_context c) ∷ [])
            (sym (append-nil (events_of c.bus))))
  ]
  | inr (held, e) ↦
      rw (post_event, e)
        (sym (append_assoc (events_of c.bus) held ((event_type, payload, event_context c) ∷ [])))
]

told-after_held_events : (j : ℕ) (c : Cycle) → told (after_held_events j c) ≡ told c
unfolding after_held_events
told-after_held_events j c = elim (Option-cases c.after_held) [
  | inl e ↦
      rw (after_held_events, e)
        (ap (λ l. l ++ or_nil c.held_events)
          (events_of-append c.bus (ran j ∷ []) ∙ append-nil (events_of c.bus)))
  | inr (jobs, e) ↦ rw (after_held_events, e) refl
]

told-fire_held_events : (c : Cycle) → told (fire_held_events c) ≡ told c
unfolding fire_held_events
told-fire_held_events c = elim (Option-cases c.held_events) [
  | inl e ↦ rw (fire_held_events, e) (ap (λ held. events_of c.bus ++ or_nil held) e)
  | inr (held, e) ↦
      rw (fire_held_events, e)
        (append-nil (events_of (c.bus ++ (map fired held ++ map ran (or_nil c.after_held))))
          ∙ events_of-append c.bus (map fired held ++ map ran (or_nil c.after_held))
          ∙ ap (λ l. events_of c.bus ++ l) (events_of-fired held (or_nil c.after_held)))
]

told-called : (call : Call) (c : Cycle) → told (called call c) ≡ told c ++ event_of call c
unfolding called begin_cycle
told-called begin c = sym (append-nil (told c))
told-called settled c = sym (append-nil (told c))
told-called (refresh none) c = sym (append-nil (told c))
told-called (refresh (some context)) c = sym (append-nil (told c))
told-called (event event_type payload) c = told-post_event event_type payload c
told-called (job j) c = told-after_held_events j c ∙ sym (append-nil (told c))
told-called starts c = sym (append-nil (told c))
told-called drain c = told-fire_held_events c ∙ sym (append-nil (told c))

-- Whatever calls are made, the events that went out, followed by those still held, are the events
-- of before and then those of the calls: each once, in order, with the context that it had when it
-- was fired.
pub told-all_called :
    (calls : List Call) (c : Cycle) → told (all_called calls c) ≡ told c ++ events_in calls c
unfolding all_called
told-all_called [] c = sym (append-nil (told c))
told-all_called (call ∷ calls) c =
    told-all_called calls (called call c)
    ∙ ap (λ l. l ++ events_in calls (called call c)) (told-called call c)
    ∙ append_assoc (told c) (event_of call c) (events_in calls (called call c))
