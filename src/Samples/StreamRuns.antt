-- ===== src/Samples/StreamRuns.antt =====
-- Runs of the NAAD stream client (providers/naad_stream.py).
use cap_alerts.Prelude.{
  ◌-◌, ◌%◌, ◌/◌, ◌≡◌, ◌=ℕ◌, refl, false, none, some, List, [], ◌∷◌, map, arith, if◌then◌else◌,
}
use cap_alerts.Prelude.Lists.{All}
use cap_alerts.NaadStream.Frames.{
  Chars, codes, extract_docs, extract_loop, from_first, through_first, keep_last, begins, take,
  drop,
}
use cap_alerts.NaadStream.Chunks.{extracted}
use cap_alerts.NaadStream.Framing.{Framed, extract_loop-Framed}
use cap_alerts.NaadStream.Client.{
  Patterns, Uniform, Sleep, Attempt, refused, session, last_session, received, closed, broken,
  alert, backoff_min, new_client, run, run_loop, serve, read_loop, set_connected, dispatch,
  is_heartbeat, docs_of,
}
use cap_alerts.NaadStream.Documents.{joined, reads, IsWithin, read_loop-joined}
use cap_alerts.NaadStream.Reconnect.{Alternates, IsUniform, IsBounded, Grows, opened, run-IsSteady}
use cap_alerts.NaadStream.Broken.{breaking, closing, empty, run_loop-breaking}

-- Two documents in three reads: a start tag and an end tag are cut in two.
abbrev texts : List Chars
texts = codes "<?xml?><al" ∷ codes "ert>a</aler" ∷ codes "t>\n<alert>b</alert>" ∷ []

abbrev documents : List Chars
documents = codes "<alert>a</alert>" ∷ codes "<alert>b</alert>" ∷ []

all_documents : docs_of (read_loop (reads texts) [] false) ≡ documents
unfolding read_loop extract_docs extract_loop from_first through_first keep_last begins take drop
all_documents = refl

IsWithin-texts : IsWithin [] texts
unfolding extract_loop from_first through_first keep_last begins take drop
IsWithin-texts = omega arith

read_loop-joined_example : docs_of (read_loop (reads texts) [] false) ≡ (extracted (joined texts)).1
read_loop-joined_example = read_loop-joined texts IsWithin-texts

abbrev patterns : Patterns
patterns = record { sender = λ doc. none; status = λ doc. some "Actual" }

abbrev lost : List Attempt
lost =
    refused
    ∷ session (received (codes "<alert>a</alert>") ∷ broken ∷ [])
    ∷ last_session (closed ∷ [])
    ∷ []

-- Draws half of the ceiling, and the whole of it, in turns.
abbrev drawn : Uniform
drawn n ceiling = if n % 2 =ℕ 0 then ceiling / 2 else ceiling

drawn-IsUniform : IsUniform drawn
drawn-IsUniform n ceiling = ground arith

sleeps :
    (run patterns drawn lost new_client).sleeps
    ≡ record { ceiling = 2_000_000; delay = 2_000_000 }
      ∷ record { ceiling = 1_000_000; delay = 500_000 }
      ∷ []
unfolding run run_loop serve set_connected read_loop extract_docs extract_loop from_first
    through_first keep_last begins take drop dispatch is_heartbeat
sleeps = refl

run-IsSteady_example :
    ((run patterns drawn lost new_client).connected ≡ false)
    × Alternates false (run patterns drawn lost new_client).notified
    × All IsBounded (run patterns drawn lost new_client).sleeps
    × Grows (run patterns drawn lost new_client).backoff (run patterns drawn lost new_client).sleeps
    × ((run patterns drawn lost new_client).backfills ≡ opened lost - 1)
run-IsSteady_example = run-IsSteady patterns drawn drawn-IsUniform lost

-- Two sessions, the second of two reads; each delivers a document and breaks.
abbrev sessions : List (Chars × List Chars)
sessions = (codes "<alert>a</alert>", []) ∷ (codes "<alert>b</al", codes "ert>" ∷ []) ∷ []

both_delivered :
    (run_loop patterns drawn (map breaking sessions) new_client).dispatched
    ≡ alert (codes "<alert>a</alert>") ∷ alert (codes "<alert>b</alert>") ∷ []
unfolding run_loop serve set_connected read_loop extract_docs extract_loop from_first through_first
    keep_last begins take drop dispatch is_heartbeat
both_delivered = refl

run_loop-breaking_example :
    ((run_loop patterns drawn (map breaking sessions) new_client).sleeps
      ≡ (run_loop patterns drawn (map empty sessions) new_client).sleeps)
    × ((run_loop patterns drawn (map breaking sessions) new_client).dispatched
        ≡ (run_loop patterns drawn (map closing sessions) new_client).dispatched)
    × All
        (λ (s : Sleep). s.ceiling ≡ backoff_min)
        (run_loop patterns drawn (map closing sessions) new_client).sleeps
run_loop-breaking_example = run_loop-breaking patterns drawn sessions

-- Noise before the document, and a document that is not complete after it.
extract_loop-Framed_example :
    (tail : Chars) × (docs : List Chars) × (extract_loop 40 (codes "\n<alert>a</alert> <alert>b")
      ≡ some (tail, docs))
    × Framed (codes "\n<alert>a</alert> <alert>b") docs tail
extract_loop-Framed_example =
    extract_loop-Framed 40 (codes "\n<alert>a</alert> <alert>b") (omega arith)
