-- ===== src/Ingest/Throttle.antt =====
-- How often the reconnections of the stream fetch the feed (providers/eccc_ingest.py).
use cap_alerts.Prelude.{
  ℕ, ◌+◌, ◌≤◌, ◌≡◌, inl, inr, refl, sym, ap, ◌∙◌, String, false, Option, none, some, List, [], ◌∷◌,
  ◌++◌, arith, ◌⊎◌, if_either, append_assoc, append-nil, Bool-cases,
}
use cap_alerts.Time.{FromIso}
use cap_alerts.Cap.Document.{CapDoc}
use cap_alerts.Ingest.Live.{backfill, merge_docs, on_backfill_needed, throttled, requested}
use cap_alerts.Ingest.State.{Ingest, Scope, backfill_min_interval}
use cap_alerts.Ingest.Steps.{Event, backfill_needed, step, steps}

pub record Reconnection : Type 0 where
  pub now : ℕ
  pub ended : ℕ
  pub scope : Option Scope
  pub answer : Option (List CapDoc)

abbrev pub reconnections : List Reconnection → List Event
reconnections [] = []
reconnections (r ∷ rs) = backfill_needed r.now r.ended r.scope r.answer ∷ reconnections rs

abbrev pub Since : Option ℕ → ℕ → Type 0
Since none time = Unit
Since (some last) time = last + backfill_min_interval ≤ time

-- Each time is at least the interval after the one before it.
abbrev pub Spaced : Option ℕ → List ℕ → Type 0
Spaced last [] = Unit
Spaced last (time ∷ times) = Since last time × Spaced (some time) times

-- The fetches that a run adds are spaced from the last one.
abbrev pub Adds : Ingest → Ingest → Type 0
Adds s s' =
    (times : List ℕ) × (s'.feed_fetches ≡ s.feed_fetches ++ times) × Spaced s.last_backfill_at times

Since-throttled : (now : ℕ) (last : Option ℕ) → throttled now last ≡ false → Since last now
Since-throttled now none e = tt
Since-throttled now (some last) e = ground arith

module _ (from_iso : FromIso) (to_iso : ℕ → String) where
  -- A step fetches nothing and keeps the stamp, or fetches now and stamps the time.
  abbrev Fetches : ℕ → Ingest → Ingest → Type 0
  Fetches now s s' =
      ((s'.feed_fetches ≡ s.feed_fetches) × (s'.last_backfill_at ≡ s.last_backfill_at))
      ⊎ (Since s.last_backfill_at now
          × (s'.feed_fetches ≡ s.feed_fetches ++ now ∷ [])
          × (s'.last_backfill_at ≡ some now))

  step-Fetches :
      (now ended : ℕ) (scope : Option Scope) (answer : Option (List CapDoc)) (s : Ingest)
      → Fetches now s (on_backfill_needed from_iso to_iso now ended scope answer s)
  unfolding on_backfill_needed backfill merge_docs
  step-Fetches now ended none answer s =
      if_either (Fetches now s) (throttled now s.last_backfill_at) (inl (refl, refl))
        (inl (refl, refl))
  step-Fetches now ended (some scope) answer s =
      elim (Bool-cases (throttled now s.last_backfill_at)) [
        | inl e ↦ rw e (inl (refl, refl))
        | inr e ↦
            let (times, stamped) = fetched answer in
            rw e (inr (Since-throttled now s.last_backfill_at e, times, stamped))
      ]
    where
      fetched :
          (answer : Option (List CapDoc))
          → ((requested from_iso to_iso now ended (some scope) answer s).feed_fetches
              ≡ s.feed_fetches ++ now ∷ [])
            × ((requested from_iso to_iso now ended (some scope) answer s).last_backfill_at
                ≡ some now)
      fetched none = (refl, refl)
      fetched (some docs) = (refl, refl)

  -- Whatever state the ingest is in, the fetches of the feed that its reconnections cause are at
  -- least 300 seconds apart, and the first is as long after the last backfill from either source.
  pub reconnections-Spaced :
      (rs : List Reconnection) (s : Ingest) → Adds s (steps from_iso to_iso (reconnections rs) s)
  unfolding steps step
  reconnections-Spaced [] s = ([], sym (append-nil s.feed_fetches), tt)
  reconnections-Spaced (r ∷ rs) s =
      let s' = on_backfill_needed from_iso to_iso r.now r.ended r.scope r.answer s in
      let (times, added, spaced) = reconnections-Spaced rs s' in
      elim (step-Fetches r.now r.ended r.scope r.answer s) [
        | inl (same, kept) ↦ (times, rw same at added, rw kept at spaced)
        | inr (since, fetched, stamped) ↦ (
          r.now ∷ times,
          added ∙ ap (λ l. l ++ times) fetched ∙ append_assoc s.feed_fetches (r.now ∷ []) times,
          (since, rw stamped at spaced),
        )
      ]
