-- ===== src/Trigger/Crossings.antt =====
-- What the escalation and downgrade matchers (trigger.py) say over the updates of one alert.
use cap_alerts.Prelude.{
  ℕ, ap, ◌+◌, ◌≤◌, ◌≡◌, ◌⊎◌, inl, inr, Bool, true, false, Option, none, some, List, [], ◌∷◌, arith,
  leb, if◌then◌else◌,
}
use mathlib.Core.Bool.{false≢true}
use cap_alerts.Prelude.Lists.{contains}
use cap_alerts.Store.State.{Payload}
use cap_alerts.Trigger.Matchers.{
  rank, rank_of, at_or_above, severity_move, rises, falls, crossed_up, crossed_down,
}

-- How many events a matcher lets through.
unfoldable pub matched : (Payload → ℕ → Bool) → ℕ → List Payload → ℕ
matched matches threshold [] = 0
matched matches threshold (payload ∷ updates) =
    (if matches payload threshold then 1 else 0) + matched matches threshold updates

-- The updates of one alert in order: each tells the move from the rank that the one before it left,
-- or tells no move and leaves the rank. The last rank is the second number.
abbrev pub Chain : ℕ → List Payload → ℕ → Type 0
Chain first [] last = first ≡ last
Chain first (payload ∷ updates) last =
    ((severity_move payload ≡ some (first, rank payload.severity))
      ⊎ ((severity_move payload ≡ none) × (rank payload.severity ≡ first)))
    × Chain (rank payload.severity) updates last

abbrev pub above : ℕ → ℕ → ℕ
above threshold r = if leb threshold r then 1 else 0

rises-falls :
    (threshold previous current : ℕ)
    → 1 ≤ threshold
    → (if rises threshold (some (previous, current)) then 1 else 0) + above threshold previous
      ≡ (if falls threshold (some (previous, current)) then 1 else 0) + above threshold current
rises-falls threshold previous current t = ground arith

-- Over the updates of one alert, for a threshold other than `any`: the escalations that fire, plus
-- one if the alert was at or above the threshold before, are the downgrades that fire, plus one if
-- it is at or above the threshold in the end. So the two triggers alternate.
pub crossed_up-crossed_down :
    (threshold first last : ℕ) (updates : List Payload)
    → 1 ≤ threshold
    → Chain first updates last
    → matched crossed_up threshold updates + above threshold first
      ≡ matched crossed_down threshold updates + above threshold last
unfolding matched crossed_up crossed_down
crossed_up-crossed_down threshold first last [] t e = rw e (omega arith)
crossed_up-crossed_down threshold first last (payload ∷ updates) t (inl move, rest) = rw move (
    omega (
      arith,
      crossed_up-crossed_down threshold (rank payload.severity) last updates t rest,
      rises-falls threshold first (rank payload.severity) t,
    ))
crossed_up-crossed_down threshold first last (payload ∷ updates) t (inr (none_, same), rest) =
    rw none_ (
      omega (
        arith,
        crossed_up-crossed_down threshold (rank payload.severity) last updates t rest,
        ap (above threshold) same,
      ))

rises_lem :
    (threshold previous current : ℕ) (told : Bool)
    → let move : Option (ℕ × ℕ) = if told then some (previous, current) else none in
      rises threshold move ≡ true → (leb threshold current ≡ true) × (falls threshold move ≡ false)
rises_lem threshold previous current true e = ground arith
rises_lem threshold previous current false e = absurd (false≢true e)

-- An update on which the escalation trigger fires is at or above the threshold, and is none on
-- which the downgrade trigger fires, `any` included.
pub crossed_up-at_or_above :
    (payload : Payload) (threshold : ℕ)
    → crossed_up payload threshold ≡ true
    → (at_or_above payload threshold ≡ true) × (crossed_down payload threshold ≡ false)
unfolding crossed_up crossed_down at_or_above severity_move
crossed_up-at_or_above payload threshold =
    rises_lem threshold (rank_of payload.previous_severity) (rank payload.severity)
      (contains "severity_normalized" payload.changed_fields)
