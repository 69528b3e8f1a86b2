-- ===== src/Cap/Document.antt =====
-- The intermediate CAP document (providers/cap.py). A coordinate or a radius is a fixed-point number.
use cap_alerts.Prelude.{String, Bool, List, [], ◌||◌, ◌==◌, is_empty}
use cap_alerts.Prelude.Int.{ℤ}
use cap_alerts.Dict.{Dict}

abbrev pub Ring : Type 0
Ring = List (ℤ × ℤ)

-- `CAPAreaDoc`
pub record CapArea : Type 0 where
  pub area_desc : String
  pub geocodes : Dict (List String)
  pub polygons : List Ring

-- `CAPInfoDoc`
pub record CapInfo : Type 0 where
  pub language : String
  pub category : String
  pub event : String
  pub response_type : List String
  pub urgency : String
  pub severity : String
  pub certainty : String
  pub effective : String
  pub onset : String
  pub expires : String
  pub sender_name : String
  pub headline : String
  pub description : String
  pub instruction : String
  pub web : String
  pub event_codes : Dict String
  pub parameters : Dict String
  pub area_desc : String
  pub geocodes : Dict (List String)
  pub polygons : List Ring
  pub circles : List (ℤ × ℤ × ℤ)
  pub areas : List CapArea

-- A sender, an identifier and a time of sending.
abbrev pub Reference : Type 0
Reference = String × String × String

abbrev pub identifier_of : Reference → String
identifier_of (sender, identifier, sent) = identifier

-- `CAPDoc`
pub record CapDoc : Type 0 where
  pub identifier : String
  pub sender : String
  pub sent : String
  pub status : String
  pub msg_type : String
  pub scope : String
  pub incidents : String
  pub references : List Reference
  pub infos : List CapInfo

-- `CAPInfoDoc()`
abbrev pub blank_info : CapInfo
blank_info = record {
  language = "";
  category = "";
  event = "";
  response_type = [];
  urgency = "";
  severity = "";
  certainty = "";
  effective = "";
  onset = "";
  expires = "";
  sender_name = "";
  headline = "";
  description = "";
  instruction = "";
  web = "";
  event_codes = [];
  parameters = [];
  area_desc = "";
  geocodes = [];
  polygons = [];
  circles = [];
  areas = [];
}

-- `CAPDoc()`
abbrev pub blank_doc : CapDoc
blank_doc = record {
  identifier = "";
  sender = "";
  sent = "";
  status = "";
  msg_type = "";
  scope = "";
  incidents = "";
  references = [];
  infos = [];
}

-- `is_actual` of providers/eccc.py.
abbrev pub is_actual : CapDoc → Bool
is_actual doc = is_empty doc.status || doc.status == "Actual"
