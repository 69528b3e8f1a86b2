-- ===== src/Store/Silent.antt =====
-- An ending that was announced is not announced again while the feed goes on publishing it or
-- leaves it out (store.py, issue #145).
use cap_alerts.Prelude.{
  ℕ, ◌-◌, String, ◌≡◌, refl, sym, ◌∙◌, inl, inr, Bool, true, false, none, some, List, [],
  Bool-cases, ltb,
}
use mathlib.Core.Bool.{false≢true}
use cap_alerts.Dict
use cap_alerts.Dict.{Dict, Distinct}
use cap_alerts.Dict.Laws.{get-has, has-get, absent-get, has_of_get}
use cap_alerts.Dict.Restrict.{has-restrict_kept}
use cap_alerts.Model.{CapAlert}
use cap_alerts.Store.State.{AlertStore, Host}
use cap_alerts.Store.Removals.{removals}
use cap_alerts.Store.Reconcile.{is_terminal}
use cap_alerts.Store.Process.{
  Options, process, prepare, passes, settle, start, by_id, by_identifier_from, tombstone_idle_ttl,
}
use cap_alerts.Store.Told.{visit_suppressed}
use cap_alerts.Store.Local.{Keyed, At, visit_all-At}
use cap_alerts.Store.Missed.{miss_all_back}
use cap_alerts.Store.Gone.{Unsaid-trans}
use cap_alerts.Store.Passes.{refs, visited, reconciled, not_gone, unseen}
use cap_alerts.Store.Placed.{
  Placed, came_ended, came_live, superseded, retained_stale, lost, stranger, passes-Placed,
}
use cap_alerts.Store.WellFormed.{
  IsWellFormed, Keyed-by_id, Distinct-by_id, removals-prepare, prepare-IsWellFormed,
}

module _ (id : String) (h : Host) (now : ℕ) (o : Options) (incoming : Dict CapAlert)
    (s : AlertStore) (w : IsWellFormed s) (keyed : Keyed incoming) (distinct : Distinct incoming)
    (dead : Dict.has id s.tombstones ≡ true)
    (over : (a : CapAlert) → Dict.get id incoming ≡ some a → is_terminal a ≡ true) where
  abbrev Quiet : Type 0
  Quiet =
      (removals id (reconciled h now o incoming s).fired ≡ removals id s.fired)
      × (Dict.has id (reconciled h now o incoming s).tombstones ≡ true)

  repeated_count :
      (a : CapAlert)
      → Dict.get id incoming ≡ some a
      → removals id (passes h now o incoming s).store.fired ≡ removals id s.fired
  unfolding passes
  repeated_count a e =
      let ids = by_identifier_from [] s.previous in
      let at : At id h now ids a (start s) (visited h now incoming s) =
        visit_all-At id h now ids incoming a (start s) keyed distinct e in
      let back =
        miss_all_back id h now incoming o.scope_changed (refs o incoming) s.previous
          (visited h now incoming s) w.keyed (has-get id a incoming e) in
      back.count
      ∙ at.same_after.count
      ∙ visit_suppressed id h now ids id a at.before (over a e)
          (has_of_get id at.before.store.tombstones s.tombstones at.same_before.tombs dead)
      ∙ at.same_before.count

  repeated_tomb :
      (a : CapAlert)
      → Dict.get id incoming ≡ some a
      → Placed id h now o incoming s (passes h now o incoming s)
      → Dict.get id (passes h now o incoming s).store.tombstones ≡ some now
  repeated_tomb a e (came_ended b f active tombs) = tombs
  repeated_tomb a e (came_live b c f same active tombs) = absurd (false≢true (sym f.1 ∙ over b f.0))
  repeated_tomb a e (superseded prev f r same) =
      absurd (false≢true (sym f.0 ∙ has-get id a incoming e))
  repeated_tomb a e (retained_stale prev f r active tombs count) =
      absurd (false≢true (sym f.0 ∙ has-get id a incoming e))
  repeated_tomb a e (lost prev f r active tombs count) =
      absurd (false≢true (sym f.0 ∙ has-get id a incoming e))
  repeated_tomb a e (stranger f same) = absurd (false≢true (sym f.0 ∙ has-get id a incoming e))

  repeated : (a : CapAlert) → Dict.get id incoming ≡ some a → Quiet
  repeated a e =
      let after = not_gone id h now o incoming s (rw (has-get id a incoming e)) in
      (
        after.count ∙ repeated_count a e,
        has-get id now (reconciled h now o incoming s).tombstones (
            after.tombs ∙ repeated_tomb a e (passes-Placed id h now o incoming s w keyed distinct)),
      )

  -- A tombstoned id is neither tracked nor awaited.
  unless_told : (b : Bool) → (b ≡ true → Dict.get id s.tombstones ≡ none) → b ≡ false
  unless_told false g = refl
  unless_told true g = absurd (false≢true (sym (absent-get id s.tombstones (g refl)) ∙ dead))

  left_out : Dict.has id incoming ≡ false → Quiet
  left_out e =
      let known = unless_told (Dict.has id s.known_at_boot) (w.known_untold id) in
      let u =
        Unsaid-trans
          (unseen id h now o incoming s w keyed e
            (unless_told (Dict.has id s.previous) (w.live_untold id)))
          (not_gone id h now o incoming s (rw (e, known))) in
      (u.count, has_of_get id (reconciled h now o incoming s).tombstones s.tombstones u.tombs dead)

  reconciled-Quiet : Quiet
  reconciled-Quiet = elim (Bool-cases (Dict.has id incoming)) [
    | inl e ↦ let (a, f) = get-has id incoming e in repeated a f
    | inr e ↦ left_out e
  ]

-- In a well-formed store, for an id whose tombstone was refreshed within the idle time: while the
-- feed shows the id as ended or not at all, a reconciliation fires no `incident_removed` for it,
-- and the id is still tombstoned afterwards.
pub process_silent :
    (id : String) (h : Host) (now : ℕ) (o : Options) (alerts : List CapAlert) (s : AlertStore)
    (seen : ℕ)
    → IsWellFormed s
    → Dict.get id s.tombstones ≡ some seen
    → ltb (now - tombstone_idle_ttl) seen ≡ true
    → ((a : CapAlert) → Dict.get id (by_id alerts) ≡ some a → is_terminal a ≡ true)
    → (removals id (process h now o alerts s).0.fired ≡ removals id s.fired)
      × (Dict.has id (process h now o alerts s).0.tombstones ≡ true)
unfolding process settle prepare
process_silent id h now o alerts s seen w told young over =
    let (count, tomb) =
      reconciled-Quiet id h now o (by_id alerts) (prepare h now s) (prepare-IsWellFormed h now w)
        (Keyed-by_id alerts) (Distinct-by_id alerts)
        (has-restrict_kept _ id seen s.tombstones told young) over in
    (count ∙ removals-prepare h now id s w.unparked, tomb)
