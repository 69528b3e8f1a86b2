-- ===== src/Store/Kept.antt =====
-- `process` (store.py) keeps the store well formed, and returns the set that it tracks.
use cap_alerts.Prelude.{
  ℕ, String, ◌≡◌, sym, ◌∙◌, inl, inr, Bool, true, false, none, some, List, arith, Bool-cases,
}
use mathlib.Core.Bool.{false≢true}
use cap_alerts.Dict
use cap_alerts.Dict.{Dict, Distinct, Every}
use cap_alerts.Dict.Laws.{has-get, absent-get}
use cap_alerts.Model.{CapAlert}
use cap_alerts.Store.State.{AlertStore, Host}
use cap_alerts.Store.Reconcile.{Pass, is_terminal}
use cap_alerts.Store.Process.{Options, process, prepare, passes, settle, by_id}
use cap_alerts.Store.Local.{Keyed}
use cap_alerts.Store.Gone.{Unsaid, reconcile_left, reconcile-Distinct}
use cap_alerts.Store.Passes.{reconciled, not_gone, known_at_boot-passes, unseen}
use cap_alerts.Store.Placed.{
  Placed, came_ended, came_live, superseded, retained_stale, lost, stranger, passes-Placed, get-nil,
}
use cap_alerts.Store.Unparked.{passes-Unparked}
use cap_alerts.Store.Active.{passes-IsListed}
use cap_alerts.Store.WellFormed.{IsWellFormed, Keyed-by_id, Distinct-by_id, prepare-IsWellFormed}

-- Every tracked alert is live: its phase is neither `cancel` nor `expired`.
abbrev pub AllLive : AlertStore → Type 0
AllLive s = Every (λ _ a. is_terminal a ≡ false) s.previous

not_both : (a b : Bool) → (a ≡ true → b ≡ false) → b ≡ true → a ≡ false
not_both a b h q = ground arith

nowhere {ℓ} :
    {V : Type ℓ} (id : String) {v : V} (d : Dict V)
    → Dict.get id d ≡ some v
    → Dict.has id d ≡ false
    → ⊥
nowhere id {v} d e f = false≢true (sym f ∙ has-get id v d e)

untracked {ℓ} :
    {V : Type ℓ} (id : String) (d : Dict V) → Dict.get id d ≡ none → Dict.has id d ≡ true → ⊥
untracked id d e q = false≢true (sym (absent-get id d e) ∙ q)

module _ (h : Host) (now : ℕ) (o : Options) (incoming : Dict CapAlert) (s : AlertStore)
    (w : IsWellFormed s) (keyed : Keyed incoming) (distinct : Distinct incoming) where
  abbrev p : Pass
  p = passes h now o incoming s

  abbrev t : AlertStore
  t = reconciled h now o incoming s

  place : (id : String) → Placed id h now o incoming s p
  place id = passes-Placed id h now o incoming s w keyed distinct

  -- An id that the boot set still holds did not come in, was not tracked, and nothing was said.
  awaited :
      (id : String)
      → Dict.has id t.known_at_boot ≡ true
      → (Dict.has id incoming ≡ false)
        × (Dict.has id s.previous ≡ false)
        × (Dict.has id s.known_at_boot ≡ true)
        × Unsaid id p.store t
  awaited id q =
      let (e, k, u) = reconcile_left id h now incoming o.fetched p.store q in
      let known : Dict.has id s.known_at_boot ≡ true =
        rw (known_at_boot-passes h now o incoming s) at k in
      (e, not_both _ _ (w.live_unknown id) known, known, u)

  tracked_unknown :
      (id : String) → Dict.has id p.active ≡ true → Dict.has id t.known_at_boot ≡ false
  tracked_unknown id q = elim (Bool-cases (Dict.has id t.known_at_boot)) [
    | inr e ↦ e
    | inl e ↦ absurd (foreign (place id) ((awaited id e).0, (awaited id e).1) q)
  ]
    where
      foreign :
          Placed id h now o incoming s p
          → (Dict.has id incoming ≡ false) × (Dict.has id s.previous ≡ false)
          → Dict.has id p.active ≡ true
          → ⊥
      foreign (came_ended a e active tombs) (i, v) q = nowhere id incoming e.0 i
      foreign (came_live a b e same active tombs) (i, v) q = nowhere id incoming e.0 i
      foreign (superseded prev e r same) (i, v) q = nowhere id s.previous e.1 v
      foreign (retained_stale prev e r active tombs count) (i, v) q = nowhere id s.previous e.1 v
      foreign (lost prev e r active tombs count) (i, v) q = nowhere id s.previous e.1 v
      foreign (stranger e same) (i, v) q = untracked id p.active (same.active ∙ get-nil id) q

  untold :
      (id : String)
      → Placed id h now o incoming s p
      → Dict.has id p.active ≡ true
      → Dict.get id t.tombstones ≡ none
  untold id (came_ended a e active tombs) q = absurd (untracked id p.active active q)
  untold id (came_live a b e same active tombs) q =
      (not_gone id h now o incoming s (rw (has-get id a incoming e.0))).tombs ∙ tombs
  untold id (superseded prev e r same) q =
      absurd (untracked id p.active (same.active ∙ get-nil id) q)
  untold id (retained_stale prev e r active tombs count) q =
      let live = has-get id prev s.previous e.1 in
      (not_gone id h now o incoming s (rw (e.0, w.live_unknown id live))).tombs
      ∙ tombs
      ∙ w.live_untold id live
  untold id (lost prev e r active tombs count) q = absurd (untracked id p.active active q)
  untold id (stranger e same) q = absurd (untracked id p.active (same.active ∙ get-nil id) q)

  awaited_untold :
      (id : String) → Dict.has id t.known_at_boot ≡ true → Dict.get id t.tombstones ≡ none
  awaited_untold id q =
      let (e, v, k, u) = awaited id q in
      u.tombs ∙ (unseen id h now o incoming s w keyed e v).tombs ∙ w.known_untold id k

module _ (h : Host) (now : ℕ) (o : Options) (alerts : List CapAlert) (s : AlertStore) where
  -- A reconciliation of a well-formed store whose tracked alerts are live returns the alerts that
  -- it tracks from then on, in order, each under its own id and once, and all of them live.
  pub process-IsListed :
      IsWellFormed s
      → AllLive s
      → ((process h now o alerts s).1 ≡ Dict.values (process h now o alerts s).0.previous)
        × AllLive (process h now o alerts s).0
  unfolding process settle
  process-IsListed w live =
      let l =
        passes-IsListed h now o (by_id alerts) (prepare h now s) (Keyed-by_id alerts)
          (Distinct-by_id alerts) (prepare-IsWellFormed h now w).keyed
          (prepare-IsWellFormed h now w).distinct (prepare_live live) in
      (l.listed, l.live)
    where
      prepare_live : AllLive s → AllLive (prepare h now s)
      prepare_live live = live

  -- A reconciliation of a well-formed store whose tracked alerts are live leaves it well formed.
  pub process-IsWellFormed : IsWellFormed s → AllLive s → IsWellFormed (process h now o alerts s).0
  unfolding process settle
  process-IsWellFormed w live =
      let s0 = prepare h now s in
      let w0 = prepare-IsWellFormed h now w in
      let incoming = by_id alerts in
      let keyed = Keyed-by_id alerts in
      let distinct = Distinct-by_id alerts in
      let l = passes-IsListed h now o incoming s0 keyed distinct w0.keyed w0.distinct live in
      record {
        keyed = l.keyed;
        distinct = l.distinct;
        known_distinct =
            reconcile-Distinct h now incoming o.fetched (passes h now o incoming s0).store
              (rw (known_at_boot-passes h now o incoming s0) w0.known_distinct);
        unparked = passes-Unparked h now o incoming s0 w0.unparked;
        live_unknown = tracked_unknown h now o incoming s0 w0 keyed distinct;
        live_untold = λ id q.
            untold h now o incoming s0 w0 keyed distinct id
              (place h now o incoming s0 w0 keyed distinct id) q;
        known_untold = awaited_untold h now o incoming s0 w0 keyed distinct;
      }
