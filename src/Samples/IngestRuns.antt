-- ===== src/Samples/IngestRuns.antt =====
-- Runs of the ECCC ingest (providers/eccc_ingest.py).
use cap_alerts.Prelude.{
  ℕ, ◌+◌, ◌-◌, ◌*◌, ◌≡◌, inr, refl, String, false, none, some, List, [], ◌∷◌, ◌==◌, arith,
  if◌then◌else◌,
}
use cap_alerts.Dict
use cap_alerts.Dict.{Dict}
use cap_alerts.Time.{naive, aware, FromIso, parse_instant}
use cap_alerts.Cap.Document.{CapDoc, blank_doc}
use cap_alerts.Ingest.State.{Scope, new_ingest, window}
use cap_alerts.Ingest.Repository.{mentioned}
use cap_alerts.Ingest.Live.{
  admit, note_seen, upsert, sent_before, merge_docs, backfill, ingest_docs, on_backfill_needed,
  on_stream_alert_doc, unseen_references,
}
use cap_alerts.Ingest.Steps.{alert_doc, starting, step, steps}
use cap_alerts.Ingest.Sound.{new_ingest-IsSound, steps-IsSound}
use cap_alerts.Ingest.Filed.{IsSound}
use cap_alerts.Ingest.Window.{unless, or_held, last_with, merge_docs_lem}
use cap_alerts.Ingest.Throttle.{Reconnection, reconnections, Adds, reconnections-Spaced}
use cap_alerts.Ingest.Dropped.{on_stream_alert_doc-unseen_references}
use cap_alerts.Ingest.GivenUp.{Round, rounds, IsUnserved, rounds-seen}

-- Three days in microseconds.
abbrev noon : ℕ
noon = 3 * 86_400 * 1_000_000

abbrev minute : ℕ
minute = 60 * 1_000_000

abbrev from_iso : FromIso
from_iso text =
    if text == "noon" then some (aware noon) else if text == "start" then some (naive 1) else none

abbrev to_iso : ℕ → String
to_iso now = "noon"

abbrev scope : Scope
scope = record { matches = λ doc. doc.sender == "here"; build = λ docs. [] }

abbrev storm : CapDoc
storm = record blank_doc { identifier = "storm"; sender = "here"; sent = "noon" }

abbrev old_storm : CapDoc
old_storm = record blank_doc { identifier = "old"; sender = "here"; sent = "start" }

abbrev elsewhere : CapDoc
elsewhere = record blank_doc { identifier = "elsewhere"; sender = "there"; sent = "noon" }

-- A document from elsewhere is seen and not held.
held :
    (steps from_iso to_iso (alert_doc noon (some scope) (some elsewhere) ∷ []) new_ingest).live_docs
    ≡ []
unfolding steps step on_stream_alert_doc note_seen ingest_docs admit merge_docs upsert sent_before
    parse_instant Dict.put Dict.restrict
held = refl

merged :
    (merge_docs from_iso to_iso (noon + minute) (storm ∷ old_storm ∷ []) new_ingest).live_docs
    ≡ ("storm", storm) ∷ []
unfolding merge_docs note_seen upsert sent_before parse_instant Dict.put Dict.restrict
merged = refl

abbrev listing : CapDoc
listing = record blank_doc { references = ("sender", "lost", "noon") ∷ [] }

abbrev round : Round
round = record {
  listed = noon + minute;
  ended = noon + minute + 1;
  scope = some scope;
  listing = listing;
  results = ("lost", none) ∷ [];
}

abbrev three : List Round
three = round ∷ round ∷ round ∷ []

unserved : IsUnserved from_iso to_iso "lost" "noon" round
unfolding sent_before parse_instant Dict.get
unserved = record {
  mentions = refl;
  same = (inr (refl, refl), tt);
  recent = refl;
  recent_after = refl;
  unserved = refl;
  other = (tt, tt);
}

rounds-seen_example :
    Dict.get "lost" (steps from_iso to_iso (rounds three) new_ingest).seen ≡ some "noon"
rounds-seen_example =
    rounds-seen from_iso to_iso "lost" "noon" three new_ingest refl new_ingest-IsSound nothing
      (unserved, (unserved, (unserved, tt))) (omega arith)
  where
    nothing : Dict.get "lost" new_ingest.seen ≡ none
    nothing = unfold Dict.get in refl

steps-IsSound_example :
    IsSound
      (steps from_iso to_iso (starting ∷ alert_doc noon (some scope) (some storm) ∷ []) new_ingest)
steps-IsSound_example =
    steps-IsSound from_iso to_iso (starting ∷ alert_doc noon (some scope) (some storm) ∷ [])
      new_ingest new_ingest-IsSound

merge_docs_lem_example :
    Dict.get "storm" (merge_docs from_iso to_iso noon (storm ∷ old_storm ∷ []) new_ingest).live_docs
    ≡ unless
        (λ doc. sent_before from_iso to_iso doc.sent (noon - window))
        (or_held
          (last_with "storm" (storm ∷ old_storm ∷ []))
          (Dict.get "storm" new_ingest.live_docs))
merge_docs_lem_example =
    merge_docs_lem from_iso to_iso noon (storm ∷ old_storm ∷ []) new_ingest "storm" tt refl

abbrev reconnection : ℕ → Reconnection
reconnection now = record {
  now = now;
  ended = now + 1;
  scope = some scope;
  answer = some (storm ∷ []);
}

abbrev flapping : List Reconnection
flapping = reconnection noon ∷ reconnection (noon + minute) ∷ reconnection (noon + 6 * minute) ∷ []

fetched_twice :
    (steps from_iso to_iso (reconnections flapping) new_ingest).feed_fetches
    ≡ noon ∷ (noon + 6 * minute) ∷ []
unfolding steps step on_backfill_needed backfill merge_docs
fetched_twice = refl

reconnections-Spaced_example :
    Adds new_ingest (steps from_iso to_iso (reconnections flapping) new_ingest)
reconnections-Spaced_example = reconnections-Spaced from_iso to_iso flapping new_ingest

on_stream_alert_doc-unseen_references_example :
    ((on_stream_alert_doc from_iso to_iso noon none (some storm) new_ingest).live_docs ≡ [])
    × (mentioned "storm" (
          unseen_references from_iso to_iso
            (noon + minute)
            (("here", "storm", "noon") ∷ [])
            (on_stream_alert_doc from_iso to_iso noon none (some storm) new_ingest).seen)
        ≡ false)
on_stream_alert_doc-unseen_references_example =
    on_stream_alert_doc-unseen_references from_iso to_iso noon (noon + minute) storm
      (("here", "storm", "noon") ∷ []) new_ingest refl
