-- ===== src/Store/Reconcile.antt =====
-- The two loops of `AlertStore.process` (store.py): the body over an incoming alert and the body
-- over an alert of the previous poll that did not come back.
use cap_alerts.Prelude.{
  ℕ, String, Bool, true, false, not, ◌&&◌, ◌||◌, Option, none, some, List, [], ◌∷◌, ◌++◌, ◌==◌,
  is_empty, if◌then◌else◌,
}
use cap_alerts.Prelude.Lists.{any, keep_if, contains}
use cap_alerts.Dict
use cap_alerts.Dict.{Dict}
use cap_alerts.Model.{CapAlert}
use cap_alerts.Store.State.{AlertStore, Host, created, updated, removed, tombstone}
use cap_alerts.Store.Fields.{diff_fields, changed_fields_allowlist, restored_diff_fields}
use cap_alerts.Store.Absence.{retain_on_absence, infer_terminal_phase}
use cap_alerts.Store.Events.{fire_event}

-- The locals of `process` that the loops change: the store itself, `active` and `result`.
pub record Pass : Type 0 where
  pub store : AlertStore
  pub active : Dict CapAlert
  pub result : List CapAlert

-- `alert.phase in ("cancel", "expired")`
unfoldable pub is_terminal : CapAlert → Bool
is_terminal a = a.phase == "cancel" || a.phase == "expired"

-- `continue`, with what the store has become.
abbrev pub ended : AlertStore → Pass → Pass
ended s p = record p { store = s }

-- `active[alert_id] = updated; result.append(updated)`
abbrev pub keep : String → CapAlert → AlertStore → Pass → Pass
keep alert_id a s p = record {
  store = s;
  active = Dict.put alert_id a p.active;
  result = p.result ++ a ∷ [];
}

abbrev pub moved : CapAlert → CapAlert → Bool
moved prev curr = not (prev.phase == curr.phase)

-- `replace(alert, previous_phase=prev.phase, phase_changed=...)`
abbrev pub following : CapAlert → CapAlert → CapAlert
following prev a = record a { previous_phase = prev.phase; phase_changed = moved prev a }

-- The fields that `_changed_fields` compares.
abbrev pub compared : CapAlert → AlertStore → List String
unfolding restored_diff_fields
compared prev s =
    if contains prev.id s.restored then restored_diff_fields else changed_fields_allowlist

-- `_changed_fields`: the list, and the store in which the record is no longer restored.
unfoldable pub changed_fields : CapAlert → CapAlert → AlertStore → List String
unfolding diff_fields compared
changed_fields prev curr s = diff_fields prev curr (compared prev s)

unfoldable pub no_longer_restored : CapAlert → AlertStore → AlertStore
no_longer_restored prev s = record s { restored = keep_if (λ id. not (id == prev.id)) s.restored }

abbrev pub nil : List String → Bool
nil [] = true
nil (x ∷ xs) = false

abbrev or_empty : Option String → String
or_empty none = ""
or_empty (some s) = s

abbrev absent : Option CapAlert → Bool
absent none = true
absent (some a) = false

-- The three tests by which a terminal alert is tombstoned without a word: its id, its lineage, or
-- a first sighting at boot that no entity was known for.
unfoldable pub suppressed : String → CapAlert → AlertStore → Bool
suppressed alert_id a s =
    Dict.has alert_id s.tombstones
    || any (λ ref_id. Dict.has ref_id s.tombstoned_identifiers) a.references
    || (s.booting
        && absent (Dict.get alert_id s.previous)
        && not (Dict.has alert_id s.known_at_boot))

-- `for ref_id in references: d.pop(ref_id, None)`
unfoldable pub pop_all : List String → Dict ℕ → Dict ℕ
pop_all [] d = d
pop_all (ref_id ∷ refs) d = pop_all refs (Dict.remove ref_id d)

-- A live alert clears its own tombstone and those of the lineage that it names.
unfoldable pub revive : String → List String → AlertStore → AlertStore
unfolding pop_all
revive alert_id refs s = record s {
  tombstones = Dict.remove alert_id s.tombstones;
  tombstoned_identifiers = pop_all refs s.tombstoned_identifiers;
}

-- The first reference that a previous alert has as its identifier.
unfoldable pub superseded_prev : Dict CapAlert → List String → Option CapAlert
superseded_prev prev_by_identifier [] = none
superseded_prev prev_by_identifier (ref_id ∷ refs) = elim (Dict.get ref_id prev_by_identifier) [
  | some prev ↦ some prev
  | none ↦ superseded_prev prev_by_identifier refs
]

-- `prev.identifier and prev.identifier in referenced_identifiers`
unfoldable pub replaced : List String → CapAlert → Bool
replaced referenced prev = not (is_empty prev.identifier) && contains prev.identifier referenced

module _ (h : Host) (now : ℕ) where
  -- An alert whose references name one of the previous poll.
  unfoldable pub admit_superseding : CapAlert → String → CapAlert → Pass → Pass
  admit_superseding prev alert_id a p =
      if is_terminal a
      then ended
          (fire_event h removed (following prev a) (moved prev a) [] none
            (tombstone alert_id a.identifier now p.store))
          p
      else keep alert_id (following prev a)
          (fire_event h updated (following prev a) (moved prev a) (changed_fields prev a p.store)
            (some prev) (no_longer_restored prev p.store))
          p

  -- An alert that the previous poll did not have and that supersedes none of it.
  unfoldable pub admit_new : String → CapAlert → Pass → Pass
  admit_new alert_id a p =
      if Dict.has alert_id p.store.known_at_boot && not (is_terminal a)
      then keep alert_id (record a { phase_changed = false }) p.store p
      else if is_terminal a
      then ended
          (fire_event h removed (record a { phase_changed = true }) true [] none
            (tombstone alert_id a.identifier now p.store))
          p
      else keep alert_id (record a { phase_changed = true })
          (fire_event h created (record a { phase_changed = true }) true [] none p.store) p

  -- An alert that the previous poll had.
  unfoldable pub admit_known : CapAlert → String → CapAlert → Pass → Pass
  admit_known prev alert_id a p =
      let changed = changed_fields prev a p.store in
      let s = no_longer_restored prev p.store in
      if is_terminal a
      then ended
          (fire_event h removed (following prev a) (moved prev a) changed none
            (tombstone alert_id a.identifier now s))
          p
      else keep alert_id (following prev a)
          (if nil changed
            then s
            else fire_event h updated (following prev a) (moved prev a) changed (some prev) s)
          p

  abbrev pub admit_unseen : Option CapAlert → String → CapAlert → Pass → Pass
  admit_unseen none = admit_new
  admit_unseen (some prev) = admit_superseding prev

  abbrev pub admit : Dict CapAlert → Option CapAlert → String → CapAlert → Pass → Pass
  admit prev_by_identifier none alert_id a p =
      admit_unseen (superseded_prev prev_by_identifier a.references) alert_id a p
  admit prev_by_identifier (some prev) alert_id a p = admit_known prev alert_id a p

  -- The body of the loop over `incoming`.
  unfoldable pub visit : Dict CapAlert → String → CapAlert → Pass → Pass
  visit prev_by_identifier alert_id a p =
      if is_terminal a
      then if suppressed alert_id a p.store
        then ended (tombstone alert_id a.identifier now p.store) p
        else admit prev_by_identifier (Dict.get alert_id p.store.previous) alert_id a p
      else admit prev_by_identifier (Dict.get alert_id p.store.previous) alert_id a
          (ended (revive alert_id a.references p.store) p)

  unfoldable pub visit_all : Dict CapAlert → Dict CapAlert → Pass → Pass
  visit_all prev_by_identifier [] p = p
  visit_all prev_by_identifier ((alert_id, a) ∷ incoming) p =
      visit_all prev_by_identifier incoming (visit prev_by_identifier alert_id a p)

  -- `replace(prev, stale=True, last_confirmed=..., phase_changed=False)`
  abbrev pub retained : String → CapAlert → AlertStore → CapAlert
  retained alert_id prev s = record prev {
    stale = true;
    last_confirmed = or_empty (Dict.get alert_id s.last_seen);
    phase_changed = false;
  }

  -- `terminal_alert`
  abbrev pub vanished : CapAlert → CapAlert
  vanished prev = record prev {
    previous_phase = prev.phase;
    phase = infer_terminal_phase h prev now;
    phase_changed = not (prev.phase == infer_terminal_phase h prev now);
  }

  unfoldable pub retains : Bool → CapAlert → Bool
  retains scope_changed prev = not scope_changed && retain_on_absence h prev now

  -- The body of the loop over `previous`, for an alert that is not in `incoming`.
  unfoldable pub miss : Bool → List String → String → CapAlert → Pass → Pass
  miss scope_changed referenced alert_id prev p =
      if replaced referenced prev
      then p
      else if retains scope_changed prev
      then keep alert_id (retained alert_id prev p.store) p.store p
      else ended
          (fire_event h removed (vanished prev) (vanished prev).phase_changed [] none
            (tombstone alert_id prev.identifier now p.store))
          p

  unfoldable pub miss_all : Dict CapAlert → Bool → List String → Dict CapAlert → Pass → Pass
  miss_all incoming scope_changed referenced [] p = p
  miss_all incoming scope_changed referenced ((alert_id, prev) ∷ previous) p =
      miss_all incoming scope_changed referenced previous
        (if Dict.has alert_id incoming then p else miss scope_changed referenced alert_id prev p)
