-- ===== src/Model.antt =====
-- model.py: the provider-agnostic alert record. Coordinates are fixed-point numbers, and a
-- `dict[str, Any]` is a JSON object.
pub mod Json
use cap_alerts.Prelude.{ℕ, String, Bool, true, false, Option, none, some, List, [], ◌∷◌}
use cap_alerts.Prelude.Int.{ℤ}
use cap_alerts.Dict.{Dict}
use cap_alerts.Model.Json.{Members}

pub record CapAlert : Type 0 where
  pub id : String
  pub url : String
  pub identifier : String
  pub event : String
  pub msg_type : String
  pub status : String
  pub scope : String
  pub category : String
  pub urgency : String
  pub severity : String
  pub certainty : String
  pub response_type : String
  pub sent : String
  pub effective : String
  pub onset : String
  pub expires : String
  pub ends : Option String
  pub headline : String
  pub description : String
  pub instruction : Option String
  pub note : String
  pub web : String
  pub area_desc : String
  pub geocodes : Dict (List String)
  pub geometry : Option Members
  pub geometry_ref : String
  pub bbox : Option (ℤ × ℤ × ℤ × ℤ)
  pub points : List (ℤ × ℤ)
  pub is_marine : Bool
  pub sender : String
  pub sender_name : String
  pub references : List String
  pub parent_id : String
  pub parameters : Option Members
  pub event_alt : String
  pub headline_alt : String
  pub description_alt : String
  pub instruction_alt : Option String
  pub language : String
  pub language_alt : String
  pub episode_days : List (Dict String)
  pub provider : String
  pub severity_normalized : String
  pub phase : String
  pub lifecycle_status : String
  pub icon : String
  pub previous_phase : String
  pub phase_changed : Bool
  pub stale : Bool
  pub last_confirmed : String

-- `CAPAlert(id=id)`: every other field at its dataclass default.
abbrev pub blank : String → CapAlert
blank id = record {
  id = id;
  url = "";
  identifier = "";
  event = "";
  msg_type = "";
  status = "";
  scope = "";
  category = "";
  urgency = "";
  severity = "";
  certainty = "";
  response_type = "";
  sent = "";
  effective = "";
  onset = "";
  expires = "";
  ends = none;
  headline = "";
  description = "";
  instruction = none;
  note = "";
  web = "";
  area_desc = "";
  geocodes = [];
  geometry = none;
  geometry_ref = "";
  bbox = none;
  points = [];
  is_marine = false;
  sender = "";
  sender_name = "";
  references = [];
  parent_id = "";
  parameters = none;
  event_alt = "";
  headline_alt = "";
  description_alt = "";
  instruction_alt = none;
  language = "";
  language_alt = "";
  episode_days = [];
  provider = "";
  severity_normalized = "";
  phase = "";
  lifecycle_status = "";
  icon = "";
  previous_phase = "";
  phase_changed = false;
  stale = false;
  last_confirmed = "";
}
