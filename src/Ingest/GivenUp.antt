-- ===== src/Ingest/GivenUp.antt =====
-- The bound on the fetches of a document that the repository never serves
-- (providers/eccc_ingest.py).
use mathlib.Core.Bool.{false≢true}
use cap_alerts.Prelude.{
  ℕ, suc, ◌+◌, ◌-◌, ◌≤◌, ◌≡◌, inl, inr, refl, subst, ◌∙◌, String, true, false, ◌||◌, Option, none,
  some, List, [], ◌∷◌, ◌==◌, arith, eq_refl, is_empty, Option-cases, if_either,
}
use cap_alerts.Prelude.Lists.{All, length, All-keep_if}
use cap_alerts.Dict
use cap_alerts.Dict.{Dict}
use cap_alerts.Dict.Laws.{get-put, absent-get, Every-get}
use cap_alerts.Dict.Restrict.{get-restrict_absent, get-restrict, get-restrict_kept}
use cap_alerts.Time.{FromIso}
use cap_alerts.Cap.Document.{CapDoc, Reference}
use cap_alerts.Ingest.Live.{
  admit, note_seen, merge_docs, ingest_docs, unseen_references, forget_attempts,
  on_stream_heartbeat, sent_before,
}
use cap_alerts.Ingest.Repository.{
  mentioned, served, or_none, attempts_of, settle_references, recovered_from, with_document,
  recover_from_repository,
}
use cap_alerts.Ingest.State.{Ingest, Scope, window}
use cap_alerts.Ingest.Steps.{Event, heartbeat, step, steps}
use cap_alerts.Ingest.Attempts.{IsAt, Progress, settle-Progress, settle-Progress-suc}
use cap_alerts.Ingest.Sound.{steps-IsSound}
use cap_alerts.Ingest.Filed.{IsSound, IsCount}

-- A heartbeat whose fetches are answered.
pub record Round : Type 0 where
  pub listed : ℕ
  pub ended : ℕ
  pub scope : Option Scope
  pub listing : CapDoc
  pub results : Dict (Option CapDoc)

abbrev pub rounds : List Round → List Event
rounds [] = []
rounds (r ∷ rs) = heartbeat r.listed r.ended r.scope (some r.listing) (some r.results) ∷ rounds rs

-- A document that was served has another identifier.
abbrev pub IsOther : String → Option CapDoc → Type 0
IsOther identifier none = Unit
IsOther identifier (some doc) = (doc.identifier == identifier) ≡ false

module _ (from_iso : FromIso) (to_iso : ℕ → String) (identifier sent : String) where
  unseen-IsAt :
      (now : ℕ) (references : List Reference) (seen : Dict String)
      → All (IsAt identifier sent) references
      → All (IsAt identifier sent) (unseen_references from_iso to_iso now references seen)
  unfolding unseen_references
  unseen-IsAt now [] seen a = tt
  unseen-IsAt now ((sender, i, t) ∷ references) seen (h, a) =
      if_either (All (IsAt identifier sent))
        (is_empty i || Dict.has i seen || sent_before from_iso to_iso t (now - window))
        (unseen-IsAt now references seen a) (h, unseen-IsAt now references seen a)

  mentioned-unseen :
      (now : ℕ) (references : List Reference) (seen : Dict String)
      → is_empty identifier ≡ false
      → Dict.get identifier seen ≡ none
      → sent_before from_iso to_iso sent (now - window) ≡ false
      → All (IsAt identifier sent) references
      → mentioned identifier references ≡ true
      → mentioned identifier (unseen_references from_iso to_iso now references seen) ≡ true
  unfolding unseen_references
  mentioned-unseen now [] seen name u recent a m = absurd (false≢true m)
  mentioned-unseen now ((sender, i, t) ∷ references) seen name u recent (inl ne, a) m =
      let rest = mentioned-unseen now references seen name u recent a (rw ne at m) in
      if_either (λ refs. mentioned identifier refs ≡ true)
        (is_empty i || Dict.has i seen || sent_before from_iso to_iso t (now - window)) rest
        (rw ne rest)
  mentioned-unseen now ((sender, i, t) ∷ references) seen name u recent (inr (e, f), a) m =
      rw (e, f, name, absent-get identifier seen u, recent, eq_refl identifier) refl

  -- Documents with other identifiers.
  abbrev AreOther : List CapDoc → Type 0
  AreOther = All (λ doc. (doc.identifier == identifier) ≡ false)

  recovered-AreOther :
      (references : List Reference) (results : Dict (Option CapDoc))
      → Dict.Every (λ key. IsOther identifier) results
      → AreOther (recovered_from references results)
  unfolding recovered_from
  recovered-AreOther [] results h = tt
  recovered-AreOther ((sender, i, t) ∷ references) results h =
      added (recovered_from references results) (served i results)
        (or_none-IsOther (Dict.get i results)
          (λ answer e. Every-get (λ key. IsOther identifier) i answer results h e))
        (recovered-AreOther references results h)
    where
      or_none-IsOther :
          (found : Option (Option CapDoc))
          → ((answer : Option CapDoc) → found ≡ some answer → IsOther identifier answer)
          → IsOther identifier (or_none found)
      or_none-IsOther none h = tt
      or_none-IsOther (some answer) h = h answer refl

      added :
          (docs : List CapDoc) (answer : Option CapDoc)
          → IsOther identifier answer
          → AreOther docs
          → AreOther (with_document answer docs)
      added docs none o d = d
      added docs (some doc) o d = (o, d)

  admit-AreOther :
      (scope : Scope) (live : Dict CapDoc) (docs : List CapDoc)
      → AreOther docs
      → AreOther (admit scope live docs)
  unfolding admit
  admit-AreOther scope live docs h = All-keep_if _ _ docs h

  get-note_seen :
      (now_text : String) (docs : List CapDoc) (seen : Dict String)
      → AreOther docs
      → Dict.get identifier (note_seen now_text docs seen) ≡ Dict.get identifier seen
  unfolding note_seen
  get-note_seen now_text [] seen h = refl
  get-note_seen now_text (doc ∷ docs) seen (o, h) =
      get-note_seen now_text docs _ h
      ∙ if_either (λ d. Dict.get identifier d ≡ Dict.get identifier seen) (is_empty doc.identifier)
          refl (rw (get-put, o) refl)

  ingest_docs-Progress :
      (now : ℕ) (scope : Option Scope) (docs : List CapDoc) (n : ℕ) (s : Ingest)
      → AreOther docs
      → sent_before from_iso to_iso sent (now - window) ≡ false
      → Progress identifier sent n s
      → Progress identifier sent n (ingest_docs from_iso to_iso now scope docs s)
  unfolding ingest_docs merge_docs
  ingest_docs-Progress now none docs n s a recent p = p
  ingest_docs-Progress now (some scope) docs n s a recent p =
      let kept = admit scope s.live_docs docs in
      let seen = note_seen (to_iso now) kept s.seen in
      let same = get-note_seen (to_iso now) kept s.seen (admit-AreOther scope s.live_docs docs a) in
      elim p [
        | inl e ↦ inl (get-restrict_kept _ identifier sent seen (same ∙ e) (rw recent refl))
        | inr (e, h) ↦ inr (get-restrict_absent _ identifier seen (same ∙ e), h)
      ]

  -- A round lists the identifier, with its time of sending, which is within the window when it is
  -- listed and when its answers arrive, and no answer has the identifier.
  pub record IsUnserved (r : Round) : Type 0 where
    pub mentions : mentioned identifier r.listing.references ≡ true
    pub same : All (IsAt identifier sent) r.listing.references
    pub recent : sent_before from_iso to_iso sent (r.listed - window) ≡ false
    pub recent_after : sent_before from_iso to_iso sent (r.ended - window) ≡ false
    pub unserved : served identifier r.results ≡ none
    pub other : Dict.Every (λ key. IsOther identifier) r.results

  heartbeat-Progress :
      (r : Round) (n : ℕ) (s : Ingest)
      → is_empty identifier ≡ false
      → IsUnserved r
      → Progress identifier sent n s
      → Progress identifier sent (suc n) (
          on_stream_heartbeat from_iso to_iso r.listed r.ended r.scope
            (some r.listing)
            (some r.results)
            s)
  unfolding on_stream_heartbeat recover_from_repository
  heartbeat-Progress r n s name u p =
      let wanted = unseen_references from_iso to_iso r.listed r.listing.references s.seen in
      let at = unseen-IsAt r.listed r.listing.references s.seen u.same in
      let forgotten = forget_attempts r.listing.references s in
      let kept : Dict.get identifier forgotten.repository_attempts
          ≡ Dict.get identifier s.repository_attempts =
        get-restrict _ identifier s.repository_attempts (λ count. u.mentions) in
      let settled : Progress identifier sent (suc n)
          (settle_references wanted r.results forgotten) =
        elim p [
          | inl e ↦
              settle-Progress identifier sent wanted r.results (suc n) forgotten at u.unserved
                (inl e)
          | inr (e, h) ↦
              settle-Progress-suc identifier sent wanted r.results n forgotten at u.unserved
                (mentioned-unseen r.listed r.listing.references s.seen name e u.recent u.same
                  u.mentions)
                (inr (e, rw kept h))
        ] in
      ingest_docs-Progress r.ended r.scope (recovered_from wanted r.results) (suc n) _
        (recovered-AreOther wanted r.results u.other) u.recent_after settled

  rounds-Progress :
      (rs : List Round) (n : ℕ) (s : Ingest)
      → is_empty identifier ≡ false
      → All IsUnserved rs
      → Progress identifier sent n s
      → Progress identifier sent (length rs + n) (steps from_iso to_iso (rounds rs) s)
  unfolding steps step
  rounds-Progress [] n s name u p = subst (λ m. Progress identifier sent m s) (omega arith) p
  rounds-Progress (r ∷ rs) n s name (u, us) p =
      let next =
        on_stream_heartbeat from_iso to_iso r.listed r.ended r.scope (some r.listing)
          (some r.results) s in
      subst (λ m. Progress identifier sent m (steps from_iso to_iso (rounds rs) next)) (omega arith)
        (rounds-Progress rs (suc n) next name us (heartbeat-Progress r n s name u p))

  few_attempts :
      (s : Ingest) → IsSound s → 3 ≤ attempts_of (Dict.get identifier s.repository_attempts) → ⊥
  few_attempts s h many = elim (Option-cases (Dict.get identifier s.repository_attempts)) [
    | inl e ↦ absurd (omega (arith, rw e at many))
    | inr (count, e) ↦
        let few = Every-get IsCount identifier count s.repository_attempts h.counted e in
        absurd (omega (arith, few.1, rw e at many))
  ]

  -- An identifier that is not seen yet is marked seen, with its time of sending, after three or
  -- more heartbeats in a row that list it with that time, within 48 hours of it, and whose fetches
  -- are answered and serve no document for it nor one with its identifier.
  pub rounds-seen :
      (rs : List Round) (s : Ingest)
      → is_empty identifier ≡ false
      → IsSound s
      → Dict.get identifier s.seen ≡ none
      → All IsUnserved rs
      → 3 ≤ length rs
      → Dict.get identifier (steps from_iso to_iso (rounds rs) s).seen ≡ some sent
  rounds-seen rs s name h unseen us enough =
      elim (rounds-Progress rs 0 s name us (inr (unseen, omega arith))) [
        | inl e ↦ e
        | inr (e, many) ↦ absurd (
            few_attempts _ (steps-IsSound from_iso to_iso (rounds rs) s h)
              (omega (arith, many, enough)))
      ]
