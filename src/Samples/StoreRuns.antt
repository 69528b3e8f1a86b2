-- ===== src/Samples/StoreRuns.antt =====
-- Runs of the alert store (store.py).
use cap_alerts.Prelude.{ℕ, ◌≡◌, subst, refl, true, false, none, some, List, [], ◌∷◌}
use cap_alerts.Dict
use cap_alerts.Dict.{Dict}
use cap_alerts.Model.{CapAlert, blank}
use cap_alerts.Store.State.{AlertStore, Host, new_store}
use cap_alerts.Store.Removals.{removals}
use cap_alerts.Conventions.{row_for}
use cap_alerts.Time.{parse_iso}
use cap_alerts.Store.State.{tombstone}
use cap_alerts.Prelude.Lists.{All}
use cap_alerts.Store.Restored.{alert_from_record-record_from_alert}
use cap_alerts.Store.Fields.{
  diff_fields, getattr, record_fields, record_from_alert, alert_from_record, restored_diff_fields,
}
use cap_alerts.Store.Absence.{
  conventions_for, removal_reason, retain_on_absence, infer_terminal_phase,
}
use cap_alerts.Store.Events.{fire_event, payload, flush_deferred, late_events}
use cap_alerts.Store.Reconcile.{
  is_terminal, visit_all, visit, suppressed, revive, superseded_prev, admit_superseding, admit_new,
  admit_known, changed_fields, no_longer_restored, miss_all, miss, replaced, retains,
}
use cap_alerts.Store.Boot.{reconcile_known_at_boot}
use cap_alerts.Store.Process.{
  Options, process, by_id, passes, prepare, by_id_from, by_identifier_from, references_of, settle,
}
use cap_alerts.Store.Gone.{Once}
use cap_alerts.Store.Once.{process-Once}
use cap_alerts.Store.Silent.{process_silent}
use cap_alerts.Store.Missing.{Fate, process-Fate}
use cap_alerts.Store.Kept.{AllLive, process-IsWellFormed, process-IsListed}
use cap_alerts.Store.WellFormed.{IsWellFormed, new_store-IsWellFormed}

abbrev host : Host
host = record {
  lookup_entity_id = λ id. none;
  rows = [];
  from_iso = λ text. none;
  isoformat = λ now. "now";
}

abbrev poll : Options
poll = record { scope_changed = false; superseded_identifiers = []; fetched = true }

abbrev flood : CapAlert
flood = record (blank "a") { identifier = "urn:1"; phase = "new"; event = "flood" }

abbrev flood_over : CapAlert
flood_over = record flood { phase = "cancel" }

abbrev fresh : AlertStore
fresh = new_store "entry" "nws" [] false

-- `process` with all that it calls open, for the tests.
run : ℕ → List CapAlert → AlertStore → AlertStore × List CapAlert
unfolding process passes prepare flush_deferred late_events by_id_from by_identifier_from
    references_of visit_all visit suppressed revive superseded_prev admit_superseding admit_new
    admit_known is_terminal changed_fields no_longer_restored diff_fields fire_event payload
    tombstone miss_all miss replaced retains retain_on_absence infer_terminal_phase conventions_for
    row_for parse_iso reconcile_known_at_boot settle removals removal_reason Dict.get Dict.has
    Dict.put Dict.remove Dict.restrict Dict.keys Dict.values
run now alerts s = process host now poll alerts s

abbrev issued : AlertStore
issued = (process host 10 poll (flood ∷ []) fresh).0

abbrev over : AlertStore
over = (process host 20 poll (flood_over ∷ []) issued).0

issued_tracked : Dict.get "a" issued.previous ≡ some (record flood { phase_changed = true })
unfolding run
issued_tracked = refl

-- The first sighting fires one event, the ending one more, the repetition none.
endings_told : removals "a" over.fired ≡ 1
unfolding run
endings_told = refl

over_tombstoned : Dict.get "a" over.tombstones ≡ some 20
unfolding run
over_tombstoned = refl

fresh-IsWellFormed : IsWellFormed fresh
fresh-IsWellFormed = new_store-IsWellFormed "entry" "nws" [] false tt

issued-IsWellFormed : IsWellFormed issued
issued-IsWellFormed = process-IsWellFormed host 10 poll (flood ∷ []) fresh fresh-IsWellFormed tt

issued-AllLive : AllLive issued
issued-AllLive = (process-IsListed host 10 poll (flood ∷ []) fresh fresh-IsWellFormed tt).1

process-Once_example : Once "a" 20 issued (process host 20 poll (flood_over ∷ []) issued).0
process-Once_example = process-Once "a" host 20 poll (flood_over ∷ []) issued issued-IsWellFormed

process-IsWellFormed_example : IsWellFormed (process host 20 poll (flood_over ∷ []) issued).0
process-IsWellFormed_example =
    process-IsWellFormed host 20 poll (flood_over ∷ []) issued issued-IsWellFormed issued-AllLive

over-IsWellFormed : IsWellFormed over
over-IsWellFormed =
    process-IsWellFormed host 20 poll (flood_over ∷ []) issued issued-IsWellFormed issued-AllLive

process-IsListed_example :
    ((process host 10 poll (flood ∷ []) fresh).1
      ≡ Dict.values (process host 10 poll (flood ∷ []) fresh).0.previous)
    × AllLive (process host 10 poll (flood ∷ []) fresh).0
process-IsListed_example = process-IsListed host 10 poll (flood ∷ []) fresh fresh-IsWellFormed tt

shown_over : (a : CapAlert) → Dict.get "a" (by_id (flood_over ∷ [])) ≡ some a → is_terminal a ≡ true
unfolding run
shown_over a e = subst (λ b. is_terminal b ≡ true) (same_value e) refl
  where
    same_value : {a : CapAlert} → some flood_over ≡ some a → flood_over ≡ a
    same_value e = cc

process_silent_example :
    (removals "a" (process host 30 poll (flood_over ∷ []) over).0.fired ≡ removals "a" over.fired)
    × (Dict.has "a" (process host 30 poll (flood_over ∷ []) over).0.tombstones ≡ true)
process_silent_example =
    process_silent "a" host 30 poll (flood_over ∷ []) over 20 over-IsWellFormed over_tombstoned
      (refl) shown_over

absent : Dict.has "a" (by_id []) ≡ false
unfolding run
absent = refl

process-Fate_example :
    Fate "a" host 20 poll
      (by_id [])
      (record flood { phase_changed = true })
      issued
      (process host 20 poll [] issued).0
process-Fate_example =
    process-Fate "a" host 20 poll [] issued issued-IsWellFormed
      (record flood { phase_changed = true }) absent issued_tracked

alert_from_record-record_from_alert_example :
    All
      (λ name.
        getattr (alert_from_record "a" "nws" (record_from_alert flood)) name ≡ getattr flood name)
      record_fields
    × (diff_fields
          (alert_from_record "a" "nws" (record_from_alert flood))
          flood
          restored_diff_fields
        ≡ [])
alert_from_record-record_from_alert_example = alert_from_record-record_from_alert "a" "nws" flood
