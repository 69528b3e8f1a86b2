-- ===== src/Store/Fields.antt =====
-- The field lists of store.py, the diff over them, and the records of the restore file.
use cap_alerts.Prelude.{
  String, Bool, true, false, not, Option, none, some, List, [], ◌∷◌, ◌==◌, if◌then◌else◌,
}
use cap_alerts.Prelude.Lists.{keep_if, contains}
use cap_alerts.Dict
use cap_alerts.Dict.{Dict}
use cap_alerts.Model.{CapAlert, blank}

abbrev pub changed_fields_allowlist : List String
changed_fields_allowlist =
    "headline" ∷ "description" ∷ "instruction" ∷ "severity_normalized" ∷ "phase" ∷ "expires"
    ∷ "area_desc" ∷ []

abbrev pub record_fields : List String
record_fields =
    "identifier" ∷ "sender" ∷ "event" ∷ "area_desc" ∷ "severity_normalized" ∷ "phase" ∷ "expires"
    ∷ []

unfoldable pub restored_diff_fields : List String
restored_diff_fields = keep_if (λ name. contains name record_fields) changed_fields_allowlist

-- `getattr(alert, name)` at the names of the two lists; `None` is `none`.
unfoldable pub getattr : CapAlert → String → Option String
getattr a name =
    if name == "headline"
    then some a.headline
    else if name == "description"
    then some a.description
    else if name == "instruction"
    then a.instruction
    else if name == "severity_normalized"
    then some a.severity_normalized
    else if name == "phase"
    then some a.phase
    else if name == "expires"
    then some a.expires
    else if name == "area_desc"
    then some a.area_desc
    else if name == "identifier"
    then some a.identifier
    else if name == "sender"
    then some a.sender
    else if name == "event"
    then some a.event
    else none

-- `!=` on two attributes.
abbrev pub differs : Option String → Option String → Bool
differs none none = false
differs (some s) (some t) = not (s == t)
differs _ _ = true

-- `_diff_fields`
unfoldable pub diff_fields : CapAlert → CapAlert → List String → List String
unfolding getattr
diff_fields prev curr fields =
    keep_if (λ name. differs (getattr prev name) (getattr curr name)) fields

-- `str(value)`
abbrev str : Option String → String
str none = "None"
str (some s) = s

abbrev attributes : CapAlert → List String → Dict String
unfolding getattr
attributes a [] = []
attributes a (name ∷ names) = (name, str (getattr a name)) ∷ attributes a names

-- `record_from_alert`
unfoldable pub record_from_alert : CapAlert → Dict String
unfolding getattr
record_from_alert a = attributes a record_fields

-- `record[name] if name in record`, else the dataclass default "".
abbrev or_blank : Option String → String
or_blank none = ""
or_blank (some s) = s

abbrev kept : String → Dict String → String
kept name record' = or_blank (Dict.get name record')

-- `alert_from_record`
unfoldable pub alert_from_record : String → String → Dict String → CapAlert
alert_from_record alert_id provider record' = record (blank alert_id) {
  provider = provider;
  identifier = kept "identifier" record';
  sender = kept "sender" record';
  event = kept "event" record';
  area_desc = kept "area_desc" record';
  severity_normalized = kept "severity_normalized" record';
  phase = kept "phase" record';
  expires = kept "expires" record';
}
