-- ===== src/Conventions.antt =====
-- conventions.py: the per-source rows, their resolution and the stage slots. A row's hooks are
-- functions of the alert; the registry of rows in force is a dictionary.
pub mod Episode
use cap_alerts.Prelude.{
  ℕ, String, Bool, true, false, Option, none, some, List, [], is_empty, if◌then◌else◌,
}
use cap_alerts.Prelude.Text.{concat}
use cap_alerts.Dict
use cap_alerts.Dict.{Dict}
use cap_alerts.Model.{CapAlert}

-- `ABSENCE_RETAIN` and `ABSENCE_ENDS`.
abbrev pub absence_retain : String
absence_retain = "retain"

abbrev pub absence_ends : String
absence_ends = "ends"

-- `Literal["explode", "merge"]`
pub data Slot : Type 0 where
  explode merge : Slot

abbrev pub RegionEntry : Type 0
RegionEntry = String × String × String

-- `now` in microseconds; `wanted_regions` is a set.
pub record StageContext : Type 0 where
  pub now : ℕ
  pub wanted_regions : List String
  pub regions_for : CapAlert → List RegionEntry

pub record PipelineStage : Type 0 where
  pub slot : Slot
  pub run : List CapAlert → StageContext → List CapAlert

pub record SourceConventions : Type 0 where
  pub marine_code_prefixes : List String
  pub lifecycle_removal_reasons : Dict String
  pub superseded_by : Option (CapAlert → Option String)
  pub severity : Option (CapAlert → Option String)
  pub identity : Option (CapAlert → Option String)
  pub keep : Option (CapAlert → Bool)
  pub stages : List PipelineStage
  pub icon : Option (CapAlert → String → Option String)
  pub resolve_language : Option (String → String)
  pub country_code : Option (String → Option String)
  pub absence_policy : String
  pub publishes_geocodes : Bool
  pub discovers_terminations : Bool

-- `_NO_CONVENTIONS`: every field at its default.
abbrev pub no_conventions : SourceConventions
no_conventions = record {
  marine_code_prefixes = [];
  lifecycle_removal_reasons = [];
  superseded_by = none;
  severity = none;
  identity = none;
  keep = none;
  stages = [];
  icon = none;
  resolve_language = none;
  country_code = none;
  absence_policy = absence_retain;
  publishes_geocodes = true;
  discovers_terminations = false;
}

abbrev pub Rows : Type 0
Rows = Dict SourceConventions

abbrev or_default : Option SourceConventions → SourceConventions
or_default none = no_conventions
or_default (some row) = row

abbrev or_else : Option SourceConventions → Option SourceConventions → SourceConventions
or_else (some scoped) row = scoped
or_else none row = or_default row

-- `rows.get(f"{provider}/{sender}")` before `rows.get(provider, _NO_CONVENTIONS)`.
unfoldable pub row_for : Rows → String → String → SourceConventions
row_for rows provider sender =
    if is_empty sender
    then or_default (Dict.get provider rows)
    else or_else (Dict.get (concat provider (concat "/" sender)) rows) (Dict.get provider rows)
