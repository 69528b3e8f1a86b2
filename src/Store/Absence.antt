-- ===== src/Store/Absence.antt =====
-- The policies that store.py reads off a source's convention row: why a removal happened, who
-- succeeds it, and what an absence means.
use cap_alerts.Prelude.{
  ℕ, String, Bool, true, false, ◌||◌, Option, none, some, [], ◌∷◌, ◌==◌, ltb, leb, is_empty,
  if◌then◌else◌,
}
use cap_alerts.Dict
use cap_alerts.Dict.{Dict}
use cap_alerts.Model.{CapAlert}
use cap_alerts.Conventions.{SourceConventions, row_for, absence_retain}
use cap_alerts.Time.{parse_iso}
use cap_alerts.Store.State.{Host}

abbrev pub removal_reason_superseded : String
removal_reason_superseded = "superseded"

abbrev pub removal_reason_ended : String
removal_reason_ended = "ended"

-- `conventions_for`
unfoldable pub conventions_for : Host → CapAlert → SourceConventions
conventions_for h a = row_for h.rows a.provider a.sender

abbrev or_empty : Option String → String
or_empty none = ""
or_empty (some s) = s

-- `_removal_reason`
unfoldable pub removal_reason : Host → CapAlert → String
unfolding conventions_for
removal_reason h a =
    if is_empty a.lifecycle_status
    then ""
    else or_empty (Dict.get a.lifecycle_status (conventions_for h a).lifecycle_removal_reasons)

-- `_superseded_by`
unfoldable pub superseded_by : Host → CapAlert → Option String
unfolding conventions_for
superseded_by h a = elim (conventions_for h a).superseded_by [ none ↦ none | some hook ↦ hook a ]

-- `bool(mapping)`
abbrev pub nonempty {ℓ} : {V : Type ℓ} → Dict V → Bool
nonempty [] = false
nonempty (x ∷ d) = true

-- The end of `_retain_on_absence`, over the parsed `expires`.
abbrev pub retain_until : SourceConventions → Option ℕ → ℕ → Bool
retain_until c (some expires_at) now = ltb now expires_at
retain_until c none now = nonempty c.lifecycle_removal_reasons || c.discovers_terminations

-- `_retain_on_absence`
unfoldable pub retain_on_absence : Host → CapAlert → ℕ → Bool
unfolding conventions_for
retain_on_absence h a now =
    if (conventions_for h a).absence_policy == absence_retain
    then retain_until (conventions_for h a) (parse_iso h.from_iso a.expires) now
    else false

abbrev pub phase_at : Option ℕ → ℕ → String
phase_at none now = "cancel"
phase_at (some expires_at) now = if leb expires_at now then "expired" else "cancel"

-- `_infer_terminal_phase`
unfoldable pub infer_terminal_phase : Host → CapAlert → ℕ → String
infer_terminal_phase h a now = phase_at (parse_iso h.from_iso a.expires) now
