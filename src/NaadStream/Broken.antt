-- ===== src/NaadStream/Broken.antt =====
-- Sessions that deliver documents and end with an exception (providers/naad_stream.py).
use cap_alerts.Prelude.{
  ℕ, ◌≡◌, inl, inr, refl, sym, subst, ap, ◌∙◌, Bool, true, false, List, [], ◌∷◌, ◌++◌, map,
  Bool-cases, if◌then◌else◌,
}
use cap_alerts.Prelude.Lists.{All, length}
use cap_alerts.NaadStream.Frames.{Chars, extract_docs}
use cap_alerts.NaadStream.Documents.{docs_of-with_earlier}
use cap_alerts.NaadStream.Client.{
  Client, Patterns, Reading, Uniform, Sleep, Ended, returned, raised, received, closed, broken,
  Attempt, session, new_client, set_connected, wait, reset, serve, run_loop, read_loop, saw_data,
  docs_of, with_earlier, dispatch, backoff_min, doubled,
}

-- Reads that bring the texts, and then the last one.
abbrev pub reads_until : Reading → List Chars → List Reading
reads_until last [] = last ∷ []
reads_until last (text ∷ texts) = received text ∷ reads_until last texts

-- A session that delivers one text or more, and then breaks, or is closed.
abbrev pub breaking : Chars × List Chars → Attempt
breaking (text, texts) = session (reads_until broken (text ∷ texts))

abbrev pub closing : Chars × List Chars → Attempt
closing (text, texts) = session (reads_until closed (text ∷ texts))

-- A session that delivers nothing.
abbrev pub empty : Chars × List Chars → Attempt
empty heard = session (closed ∷ [])

saw_data-with_earlier :
    (docs : List Chars) (e : Ended) → saw_data (with_earlier docs e) ≡ saw_data e
saw_data-with_earlier docs (returned saw more) = refl
saw_data-with_earlier docs (raised more) = refl

breaking_saw :
    (texts : List Chars) (buffer : Chars) (saw : Bool)
    → saw_data (read_loop (reads_until broken texts) buffer saw) ≡ false
unfolding read_loop
breaking_saw [] buffer saw = refl
breaking_saw (text ∷ texts) buffer saw =
    let (tail, docs) = extract_docs (buffer ++ text) in
    saw_data-with_earlier docs (read_loop (reads_until broken texts) tail true)
    ∙ breaking_saw texts tail true

closing_saw :
    (texts : List Chars) (buffer : Chars)
    → saw_data (read_loop (reads_until closed texts) buffer true) ≡ true
unfolding read_loop
closing_saw [] buffer = refl
closing_saw (text ∷ texts) buffer =
    let (tail, docs) = extract_docs (buffer ++ text) in
    saw_data-with_earlier docs (read_loop (reads_until closed texts) tail true)
    ∙ closing_saw texts tail

closing_saw_data :
    (text : Chars) (texts : List Chars)
    → saw_data (read_loop (reads_until closed (text ∷ texts)) [] false) ≡ true
unfolding read_loop
closing_saw_data text texts =
    let (tail, docs) = extract_docs text in
    saw_data-with_earlier docs (read_loop (reads_until closed texts) tail true)
    ∙ closing_saw texts tail

same_docs :
    (texts : List Chars) (buffer : Chars) (saw : Bool)
    → docs_of (read_loop (reads_until broken texts) buffer saw)
      ≡ docs_of (read_loop (reads_until closed texts) buffer saw)
unfolding read_loop
same_docs [] buffer saw = refl
same_docs (text ∷ texts) buffer saw =
    let (tail, docs) = extract_docs (buffer ++ text) in
    docs_of-with_earlier docs (read_loop (reads_until broken texts) tail true)
    ∙ ap (λ more. docs ++ more) (same_docs texts tail true)
    ∙ sym (docs_of-with_earlier docs (read_loop (reads_until closed texts) tail true))

module _ (p : Patterns) (uniform : Uniform) where
  -- A turn of the loop with a session.
  abbrev turn : List Reading → Client → Client
  turn readings c =
      wait uniform (reset (saw_data (read_loop readings [] false)) (serve p readings c))

  abbrev ceiling_after : Bool → Client → ℕ
  ceiling_after saw c = if saw then backoff_min else c.backoff

  -- What a turn does to the backoff, the sleeps and the documents.
  record IsTurn (saw : Bool) (docs : List Chars) (c next : Client) : Type 0 where
    backoff : next.backoff ≡ doubled (ceiling_after saw c)
    sleeps :
        next.sleeps
        ≡ record {
          ceiling = ceiling_after saw c;
          delay = uniform (length c.sleeps) (ceiling_after saw c);
        }
          ∷ c.sleeps
    dispatched : next.dispatched ≡ c.dispatched ++ map (dispatch p) docs

  turn-IsTurn :
      (readings : List Reading) (saw : Bool) (c : Client)
      → saw_data (read_loop readings [] false) ≡ saw
      → IsTurn saw (docs_of (read_loop readings [] false)) c (turn readings c)
  unfolding serve set_connected
  turn-IsTurn readings saw c e = elim (Bool-cases c.connected) [
    | inl f ↦ rw (set_connected, f, e) (record { backoff = refl; sleeps = refl; dispatched = refl })
    | inr f ↦ rw (set_connected, f, e) (record { backoff = refl; sleeps = refl; dispatched = refl })
  ]

  same_sleeps :
      (sessions : List (Chars × List Chars)) (c d : Client)
      → c.backoff ≡ d.backoff
      → c.sleeps ≡ d.sleeps
      → (run_loop p uniform (map breaking sessions) c).sleeps
        ≡ (run_loop p uniform (map empty sessions) d).sleeps
  unfolding run_loop
  same_sleeps [] c d e f = f
  same_sleeps ((text, texts) ∷ sessions) c d e f =
      let t =
        turn-IsTurn (reads_until broken (text ∷ texts)) false c
          (breaking_saw (text ∷ texts) [] false) in
      let u = turn-IsTurn (closed ∷ []) false d (breaking_none) in
      same_sleeps sessions (turn (reads_until broken (text ∷ texts)) c) (turn (closed ∷ []) d)
        (t.backoff ∙ ap doubled e ∙ sym u.backoff)
        (t.sleeps
          ∙ (λ i. record { ceiling = e i; delay = uniform (length (f i)) (e i) } ∷ f i)
          ∙ sym u.sleeps)
    where
      breaking_none : saw_data (read_loop (closed ∷ []) [] false) ≡ false
      breaking_none = unfold read_loop in refl

  same_dispatched :
      (sessions : List (Chars × List Chars)) (c d : Client)
      → c.dispatched ≡ d.dispatched
      → (run_loop p uniform (map breaking sessions) c).dispatched
        ≡ (run_loop p uniform (map closing sessions) d).dispatched
  unfolding run_loop
  same_dispatched [] c d e = e
  same_dispatched ((text, texts) ∷ sessions) c d e =
      let t =
        turn-IsTurn (reads_until broken (text ∷ texts)) false c
          (breaking_saw (text ∷ texts) [] false) in
      let u =
        turn-IsTurn (reads_until closed (text ∷ texts)) true d (closing_saw_data text texts) in
      let docs = same_docs (text ∷ texts) [] false in
      same_dispatched sessions (turn (reads_until broken (text ∷ texts)) c)
        (turn (reads_until closed (text ∷ texts)) d)
        (t.dispatched ∙ (λ i. e i ++ map (dispatch p) (docs i)) ∙ sym u.dispatched)

  least_ceilings :
      (sessions : List (Chars × List Chars)) (c : Client)
      → All (λ (s : Sleep). s.ceiling ≡ backoff_min) c.sleeps
      → All
          (λ (s : Sleep). s.ceiling ≡ backoff_min)
          (run_loop p uniform (map closing sessions) c).sleeps
  unfolding run_loop
  least_ceilings [] c least = least
  least_ceilings ((text, texts) ∷ sessions) c least =
      let u =
        turn-IsTurn (reads_until closed (text ∷ texts)) true c (closing_saw_data text texts) in
      least_ceilings sessions (turn (reads_until closed (text ∷ texts)) c)
        (subst (All (λ (s : Sleep). s.ceiling ≡ backoff_min)) (sym u.sleeps) (refl, least))

  -- Any sessions that each deliver some text and then end with an exception: the client sleeps
  -- before its attempts as if no session had delivered anything, although it hands on the same
  -- documents as when the server closes each session after the same text. Where the server closes
  -- them, every sleep has the least backoff as its ceiling.
  pub run_loop-breaking :
      (sessions : List (Chars × List Chars))
      → ((run_loop p uniform (map breaking sessions) new_client).sleeps
          ≡ (run_loop p uniform (map empty sessions) new_client).sleeps)
        × ((run_loop p uniform (map breaking sessions) new_client).dispatched
            ≡ (run_loop p uniform (map closing sessions) new_client).dispatched)
        × All
            (λ (s : Sleep). s.ceiling ≡ backoff_min)
            (run_loop p uniform (map closing sessions) new_client).sleeps
  run_loop-breaking sessions = (
    same_sleeps sessions new_client new_client refl refl,
    same_dispatched sessions new_client new_client refl,
    least_ceilings sessions new_client tt,
  )
