-- ===== src/Trigger/Matchers.antt =====
-- The matchers over an event's payload (trigger.py), and the severity ladder of normalize.py.
use cap_alerts.Prelude.{
  ℕ, String, Bool, false, ◌&&◌, Option, none, some, [], ◌∷◌, ltb, leb, ◌=ℕ◌, if◌then◌else◌,
}
use cap_alerts.Prelude.Lists.{contains}
use cap_alerts.Dict
use cap_alerts.Dict.{Dict}
use cap_alerts.Store.State.{Payload}

-- `SEVERITY_RANK`
abbrev pub severity_rank : Dict ℕ
severity_rank =
    ("unknown", 0) ∷ ("minor", 1) ∷ ("moderate", 2) ∷ ("severe", 3) ∷ ("extreme", 4) ∷ []

-- `_ANY_RANK`
abbrev pub any_rank : ℕ
any_rank = 0

abbrev or_floor : Option ℕ → ℕ
or_floor none = 0
or_floor (some n) = n

-- `_rank`, of a text and of a key that may be missing.
unfoldable pub rank : String → ℕ
rank severity = or_floor (Dict.get severity severity_rank)

abbrev pub rank_of : Option String → ℕ
rank_of none = 0
rank_of (some severity) = rank severity

-- `_at_or_above`
unfoldable pub at_or_above : Payload → ℕ → Bool
at_or_above payload threshold = leb threshold (rank payload.severity)

-- `_severity_move`
unfoldable pub severity_move : Payload → Option (ℕ × ℕ)
severity_move payload =
    if contains "severity_normalized" payload.changed_fields
    then some (rank_of payload.previous_severity, rank payload.severity)
    else none

abbrev pub rises : ℕ → Option (ℕ × ℕ) → Bool
rises threshold none = false
rises threshold (some (previous, current)) =
    if threshold =ℕ any_rank
    then ltb previous current
    else ltb previous threshold && leb threshold current

abbrev pub falls : ℕ → Option (ℕ × ℕ) → Bool
falls threshold none = false
falls threshold (some (previous, current)) =
    if threshold =ℕ any_rank
    then ltb current previous
    else ltb current threshold && leb threshold previous

-- `_crossed_up`
unfoldable pub crossed_up : Payload → ℕ → Bool
crossed_up payload threshold = rises threshold (severity_move payload)

-- `_crossed_down`
unfoldable pub crossed_down : Payload → ℕ → Bool
crossed_down payload threshold = falls threshold (severity_move payload)
