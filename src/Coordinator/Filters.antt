-- ===== src/Coordinator/Filters.antt =====
-- The filters of `async_apply` (coordinator.py). `code.strip().casefold()` is a parameter.
use text.Mathlib.Text.{starts_with}
use cap_alerts.Prelude.{
  String, Bool, true, false, not, ◌&&◌, ◌||◌, Option, none, some, List, [], ◌∷◌, map, is_empty,
  if◌then◌else◌,
}
use cap_alerts.Prelude.Lists.{any, keep_if}
use cap_alerts.Dict
use cap_alerts.Dict.{Dict}
use cap_alerts.Model.{CapAlert}

-- `exclude_marine_alerts`
unfoldable pub exclude_marine_alerts : List CapAlert → Bool → List CapAlert
exclude_marine_alerts alerts enabled =
    if not enabled then alerts else keep_if (λ a. not a.is_marine) alerts

abbrev has_geocodes : Dict (List String) → Bool
has_geocodes [] = false
has_geocodes (codes ∷ rest) = true

abbrev is_nil : List String → Bool
is_nil [] = true
is_nil (x ∷ xs) = false

abbrev none_of : List CapAlert → Bool
none_of [] = true
none_of (a ∷ alerts) = false

module _ (fold : String → String) where
  -- `matches_geocode_prefixes`
  unfoldable pub matches_geocode_prefixes : List String → CapAlert → Bool
  matches_geocode_prefixes prefixes alert =
      any (any (λ code. not (is_empty (fold code)) && any (starts_with (fold code)) prefixes))
        (Dict.values alert.geocodes)

  abbrev pub wanted_prefixes : List String → List String
  wanted_prefixes prefixes =
      map fold (keep_if (λ p. not (is_empty p) && not (is_empty (fold p))) prefixes)

  -- `filter_by_geocode_prefixes`; `none` is its `UpdateFailed`.
  unfoldable pub filter_by_geocode_prefixes : List CapAlert → List String → Option (List CapAlert)
  unfolding matches_geocode_prefixes
  filter_by_geocode_prefixes alerts prefixes =
      let wanted = wanted_prefixes prefixes in
      if is_nil wanted || none_of alerts
      then some alerts
      else if not (any (λ a. has_geocodes a.geocodes) alerts)
      then none
      else some (keep_if (matches_geocode_prefixes wanted) alerts)

  -- `_warn_geocode_no_match`: whether it logs, and `_geocode_no_match_warned` after it.
  unfoldable pub warn_geocode_no_match : List CapAlert → List CapAlert → Bool → Bool × Bool
  warn_geocode_no_match before after warned =
      if not (none_of after)
      then (false, false)
      else if none_of before || warned
      then (false, warned)
      else (true, true)
