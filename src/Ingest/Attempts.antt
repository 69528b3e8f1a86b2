-- ===== src/Ingest/Attempts.antt =====
-- The failed fetches of one identifier over the references of a heartbeat
-- (providers/eccc_ingest.py).
use mathlib.Core.Bool.{false≢true}
use cap_alerts.Prelude.{
  ℕ, suc, ◌≤◌, ◌≡◌, ◌⊎◌, inl, inr, refl, String, true, false, Option, none, some, List, [], ◌∷◌,
  ◌==◌, arith, eq_refl, ltb, Bool-cases,
}
use cap_alerts.Prelude.Lists.{All}
use cap_alerts.Dict
use cap_alerts.Dict.{Dict}
use cap_alerts.Dict.Laws.{get-put, get-remove}
use cap_alerts.Cap.Document.{CapDoc, Reference}
use cap_alerts.Ingest.Repository.{
  mentioned, served, attempts_of, settle_reference, settle_references,
}
use cap_alerts.Ingest.State.{Ingest, fetch_attempts}

-- A reference to the identifier has the time of sending.
abbrev pub IsAt : String → String → Reference → Type 0
IsAt identifier sent (sender, i, t) = ((i == identifier) ≡ false) ⊎ ((i ≡ identifier) × (t ≡ sent))

-- `n` failed fetches are counted for the identifier, or it is seen.
abbrev pub Progress : String → String → ℕ → Ingest → Type 0
Progress identifier sent n s =
    (Dict.get identifier s.seen ≡ some sent)
    ⊎ ((Dict.get identifier s.seen ≡ none)
        × (n ≤ attempts_of (Dict.get identifier s.repository_attempts)))

Progress-other :
    (identifier sent i t : String) (doc : Option CapDoc) (n : ℕ) (s : Ingest)
    → (i == identifier) ≡ false
    → Progress identifier sent n s
    → Progress identifier sent n (settle_reference i t doc s)
unfolding settle_reference
Progress-other identifier sent i t (some doc) n s ne (inl e) = inl (rw (get-put, ne) e)
Progress-other identifier sent i t (some doc) n s ne (inr (e, h)) =
    inr (rw (get-put, ne) e, rw (get-remove, ne) h)
Progress-other identifier sent i t none n s ne p =
    let attempts = suc (attempts_of (Dict.get i s.repository_attempts)) in
    elim (Bool-cases (ltb attempts fetch_attempts)) [
      | inl f ↦ elim p [ inl e ↦ rw f (inl e) | inr (e, h) ↦ rw f (inr (e, rw (get-put, ne) h)) ]
      | inr f ↦ elim p [
        | inl e ↦ rw f (inl (rw (get-put, ne) e))
        | inr (e, h) ↦ rw f (inr (rw (get-put, ne) e, rw (get-remove, ne) h))
      ]
    ]

Progress-unserved :
    (identifier sent : String) (n : ℕ) (s : Ingest)
    → Progress identifier sent n s
    → Progress identifier sent (suc n) (settle_reference identifier sent none s)
unfolding settle_reference
Progress-unserved identifier sent n s p =
    let attempts = suc (attempts_of (Dict.get identifier s.repository_attempts)) in
    elim (Bool-cases (ltb attempts fetch_attempts)) [
      | inl f ↦ elim p [
        | inl e ↦ rw f (inl e)
        | inr (e, h) ↦ rw f (inr (e, rw (get-put, eq_refl identifier) (omega (arith, h))))
      ]
      | inr f ↦ rw f (inl (rw (get-put, eq_refl identifier) refl))
    ]

Progress-less :
    (identifier sent : String) (n : ℕ) (s : Ingest)
    → Progress identifier sent (suc n) s
    → Progress identifier sent n s
Progress-less identifier sent n s (inl e) = inl e
Progress-less identifier sent n s (inr (e, h)) = inr (e, omega (arith, h))

pub settle-Progress :
    (identifier sent : String) (references : List Reference) (results : Dict (Option CapDoc))
    (n : ℕ) (s : Ingest)
    → All (IsAt identifier sent) references
    → served identifier results ≡ none
    → Progress identifier sent n s
    → Progress identifier sent n (settle_references references results s)
unfolding settle_references
settle-Progress identifier sent [] results n s a u p = p
settle-Progress identifier sent ((sender, i, t) ∷ references) results n s (inl ne, a) u p =
    settle-Progress identifier sent references results n _ a u
      (Progress-other identifier sent i t (served i results) n s ne p)
settle-Progress identifier sent ((sender, i, t) ∷ references) results n s (inr (e, f), a) u p =
    let next : Progress identifier sent n (settle_reference i t (served i results) s) =
      rw (e, f, u)
        (Progress-less identifier sent n (settle_reference identifier sent none s)
          (Progress-unserved identifier sent n s p)) in
    settle-Progress identifier sent references results n _ a u next

pub settle-Progress-suc :
    (identifier sent : String) (references : List Reference) (results : Dict (Option CapDoc))
    (n : ℕ) (s : Ingest)
    → All (IsAt identifier sent) references
    → served identifier results ≡ none
    → mentioned identifier references ≡ true
    → Progress identifier sent n s
    → Progress identifier sent (suc n) (settle_references references results s)
unfolding settle_references
settle-Progress-suc identifier sent [] results n s a u m p = absurd (false≢true m)
settle-Progress-suc identifier sent ((sender, i, t) ∷ references) results n s (inl ne, a) u m p =
    settle-Progress-suc identifier sent references results n _ a u (rw ne at m)
      (Progress-other identifier sent i t (served i results) n s ne p)
settle-Progress-suc identifier sent ((sender, i, t) ∷ references) results n s (inr (e, f), a) u m
      p =
    let next : Progress identifier sent (suc n) (settle_reference i t (served i results) s) =
      rw (e, f, u) (Progress-unserved identifier sent n s p) in
    settle-Progress identifier sent references results (suc n) _ a u next
