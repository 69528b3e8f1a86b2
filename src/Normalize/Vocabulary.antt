-- ===== src/Normalize/Vocabulary.antt =====
-- The normalized values (normalize.py) lie in the vocabulary that the other parts read.
use Prim.Native.String.{count}
use mathlib.Core.Bool.{false≢true}
use cap_alerts.Prelude.{
  ℕ, zero, suc, ◌≤◌, ◌<◌, ◌≡◌, ◌⊎◌, inl, inr, refl, subst, String, true, false, none, some, ltb,
  List, [], ◌∷◌, ◌==◌, leb, arith, eq_iff, if◌then◌else◌, Bool-cases, Option-cases,
}
use text.Mathlib.TextLemmas.{length-nil, length-cons, length-append}
use cap_alerts.Prelude.Lists.{contains}
use cap_alerts.Prelude.Text.{concat}
use cap_alerts.Dict
use cap_alerts.Dict.{Dict}
use cap_alerts.Time.{FromIso, parse_iso}
use cap_alerts.Model.{CapAlert}
use cap_alerts.Conventions.{SourceConventions}
use cap_alerts.Trigger.Matchers.{severity_rank}
use cap_alerts.Normalize.Alerts.{
  normalize_phase, is_past, is_terminal_status, compute_phase, canonical_severities,
  normalize_severity, truncate_state, take, hook, raw_severity,
}

abbrev pub live_phases : List String
live_phases = "new" ∷ "update" ∷ "cancel" ∷ []

normalize_phase_live : (msg_type : String) → contains (normalize_phase msg_type) live_phases ≡ true
unfolding normalize_phase Dict.get
normalize_phase_live msg_type = elim (Bool-cases ("Alert" == msg_type)) [
  | inl a ↦ rw (normalize_phase, a) refl
  | inr a ↦ elim (Bool-cases ("Update" == msg_type)) [
    | inl b ↦ rw (normalize_phase, a, b) refl
    | inr b ↦ elim (Bool-cases ("Cancel" == msg_type)) [
      | inl c ↦ rw (normalize_phase, a, b, c) refl
      | inr c ↦ rw (normalize_phase, a, b, c) refl
    ]
  ]
]

expired_not_live :
    (phase : String) → contains phase live_phases ≡ true → (phase == "expired") ≡ false
expired_not_live phase e = elim (Bool-cases (phase == "expired")) [
  | inr q ↦ q
  | inl q ↦
      let same : phase ≡ "expired" = (eq_iff phase "expired").0 q in
      absurd (false≢true (subst (λ p. contains p live_phases ≡ true) same e))
]

-- `expires` reads as a time before now.
abbrev pub Expired : FromIso → ℕ → String → Type 0
Expired from_iso now expires = (at : ℕ) × (parse_iso from_iso expires ≡ some at) × (at < now)

-- It cannot be read, or reads as now or a time after.
abbrev pub Unexpired : FromIso → ℕ → String → Type 0
Unexpired from_iso now expires =
    (parse_iso from_iso expires ≡ none)
    ⊎ ((at : ℕ) × (parse_iso from_iso expires ≡ some at) × (now ≤ at))

is_past-cases :
    (from_iso : FromIso) (now : ℕ) (expires : String)
    → (Expired from_iso now expires × (is_past now (parse_iso from_iso expires) ≡ true))
      ⊎ (Unexpired from_iso now expires × (is_past now (parse_iso from_iso expires) ≡ false))
is_past-cases from_iso now expires = elim (Option-cases (parse_iso from_iso expires)) [
  | inl e ↦ inr (inl e, rw e refl)
  | inr (at, e) ↦ elim (Bool-cases (ltb at now)) [
    | inl q ↦ inl ((at, e, ground arith), rw e q)
    | inr q ↦ inr (inr (at, e, ground arith), rw e q)
  ]
]

-- The phase is `expired` exactly where the alert's `expires` reads as a time that is past, whatever
-- the feed says of it; otherwise, also where it cannot be read, it is one of `new`, `update` and
-- `cancel`.
pub compute_phase_lem :
    (from_iso : FromIso) (expires msg_type : String) (now : ℕ) (lifecycle_status : String)
    (terminal_statuses : Dict String)
    → let phase = compute_phase from_iso expires msg_type now lifecycle_status terminal_statuses in
      (Expired from_iso now expires × (phase ≡ "expired"))
      ⊎ (Unexpired from_iso now expires
          × ((phase == "expired") ≡ false)
          × (contains phase live_phases ≡ true))
unfolding compute_phase
compute_phase_lem from_iso expires msg_type now lifecycle_status terminal_statuses =
    elim (is_past-cases from_iso now expires) [
      | inl (past, p) ↦ rw (compute_phase, p) (inl (past, refl))
      | inr (ahead, p) ↦ elim (Bool-cases (is_terminal_status lifecycle_status terminal_statuses)) [
        | inl q ↦ rw (compute_phase, p, q) (inr (ahead, refl, refl))
        | inr q ↦
            let live = normalize_phase_live msg_type in
            rw (compute_phase, p, q)
              (inr (ahead, expired_not_live (normalize_phase msg_type) live, live))
      ]
    ]

ranked :
    (raw : String)
    → Dict.has (if contains raw canonical_severities then raw else "unknown") severity_rank ≡ true
unfolding Dict.has
ranked raw = elim (Bool-cases (contains raw canonical_severities)) [
  | inl e ↦ rw e (ground arith)
  | inr e ↦ rw e refl
]

-- Whatever a feed or a source's own hook says, the normalized severity is one of those that the
-- severity ladder of the triggers ranks.
pub normalize_severity-severity_rank :
    (lower : String → String) (a : CapAlert) (conventions : SourceConventions)
    → Dict.has (normalize_severity lower a conventions) severity_rank ≡ true
unfolding normalize_severity
normalize_severity-severity_rank lower a conventions =
    ranked (raw_severity lower (hook conventions.severity a) a.severity)

count-take : (n : ℕ) (value : String) → count (take n value) ≤ n
unfolding take
count-take zero value = rw length-nil (omega arith)
count-take (suc n) String.[] = rw length-nil (omega arith)
count-take (suc n) (String.◌∷◌ c value) = rw length-cons (omega (arith, count-take n value))

-- A state text is at most 255 characters long once it is truncated, and truncating it again changes
-- nothing.
pub truncate_state_lem :
    (value : String)
    → (count (truncate_state value) ≤ 255)
      × (truncate_state (truncate_state value) ≡ truncate_state value)
unfolding truncate_state
truncate_state_lem value = elim (Bool-cases (leb (count value) 255)) [
  | inl e ↦ rw (truncate_state, e) (ground arith, rw e refl)
  | inr e ↦
      let short : count (concat (take 254 value) "…") ≤ 255 =
        omega (arith, length-append (take 254 value) "…", count-take 254 value, one) in
      let fits : leb (count (concat (take 254 value) "…")) 255 ≡ true = ground arith in
      rw (truncate_state, e) (short, rw fits refl)
]
  where
    one : count "…" ≡ 1
    one = refl
