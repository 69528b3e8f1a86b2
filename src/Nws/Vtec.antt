-- ===== src/Nws/Vtec.antt =====
-- The VTEC string of an NWS product (providers/nws_conventions.py): `_VTEC_RE`, `_parse_vtec`,
-- `_nws_parameter` and `nws_vtec_severity`.
use Prim.Native.Char.{Char, code}
use cap_alerts.Prelude.{
  ℕ, zero, suc, String, Bool, ◌&&◌, Option, none, some, List, [], ◌∷◌, ◌++◌, ◌==◌, leb, ◌=ℕ◌,
  if◌then◌else◌,
}
use cap_alerts.Prelude.Lists.{contains}
use cap_alerts.Dict
use cap_alerts.Dict.{Dict}
use cap_alerts.Model.{CapAlert}
use cap_alerts.Model.Json.{
  Json, Members, object, array, string, number, boolean, absent, no_members, member, no_elements,
  element,
}

infixl 5 ◌>>=◌
abbrev pub ◌>>=◌ {ℓ κ} : {A : Type ℓ} {B : Type κ} → Option A → (A → Option B) → Option B
none >>= f = none
some a >>= f = f a

-- The character classes of `_VTEC_RE`: `[A-Z]`, `\d` and a character itself.
pub data Class : Type 0 where
  upper digit : Class
  exactly : Char → Class

-- `(parameters or {}).get(name)`
unfoldable pub member_at : String → Members → Option Json
member_at name no_members = none
member_at name (member key value rest) = if key == name then some value else member_at name rest

abbrev times : ℕ → Class → List Class
times zero c = []
times (suc n) c = c ∷ times n c

abbrev the : Char → List Class
the c = exactly c ∷ []

abbrev pub and_char : Char → Option (String × String) → Option (String × String)
and_char c none = none
and_char c (some (text, rest)) = some (String.◌∷◌ c text, rest)

-- The groups of a match.
pub record Vtec : Type 0 where
  pub action : String
  pub office : String
  pub phenomena : String
  pub significance : String
  pub tracking : String
  pub year : String

-- Whether a character is a decimal digit of Unicode, as `\d` asks, and `str(value)` for a value that
-- is not text.
module _ (is_digit : Char → Bool) (str : Json → String) where
  abbrev accepts : Class → Char → Bool
  accepts upper c = leb b'A' (code c) && leb (code c) b'Z'
  accepts digit c = is_digit c
  accepts (exactly d) c = code c =ℕ code d

  -- A run of classes at the start of a text: what it matches, and the rest.
  unfoldable pub matched : List Class → String → Option (String × String)
  matched [] text = some ("", text)
  matched (c ∷ classes) String.[] = none
  matched (c ∷ classes) (String.◌∷◌ x text) =
      let rest = and_char x (matched classes text) in if accepts c x then rest else none

  -- `_parse_vtec`
  unfoldable pub parse_vtec : String → Option Vtec
  unfolding matched
  parse_vtec text = do
    (lead, text) ← matched (the "/" ++ upper ∷ the ".") text
    (action, text) ← matched (times 3 upper) text
    (dot, text) ← matched (the ".") text
    (office, text) ← matched (times 4 upper) text
    (dot, text) ← matched (the ".") text
    (phenomena, text) ← matched (times 2 upper) text
    (dot, text) ← matched (the ".") text
    (significance, text) ← matched (times 1 upper) text
    (dot, text) ← matched (the ".") text
    (tracking, text) ← matched (times 4 digit) text
    (dot, text) ← matched (the ".") text
    (year, text) ← matched (times 2 digit) text
    (begins, text) ← matched (times 4 digit ++ the "T" ++ times 4 digit ++ the "Z" ++ the "-") text
    (ends, text) ← matched (times 6 digit ++ the "T" ++ times 4 digit ++ the "Z" ++ the "/") text
    some (record {
      action = action;
      office = office;
      phenomena = phenomena;
      significance = significance;
      tracking = tracking;
      year = year;
    })

  abbrev text_of : Json → String
  text_of (string text) = text
  text_of (object m) = str (object m)
  text_of (array es) = str (array es)
  text_of (number n) = str (number n)
  text_of (boolean b) = str (boolean b)
  text_of absent = str absent

  abbrev first_text : Option Json → String
  first_text none = ""
  first_text (some (string text)) = text
  first_text (some (array (element first rest))) = text_of first
  first_text (some (array no_elements)) = ""
  first_text (some (object m)) = ""
  first_text (some (number n)) = ""
  first_text (some (boolean b)) = ""
  first_text (some absent) = ""

  abbrev or_empty : Option Members → Members
  or_empty none = no_members
  or_empty (some m) = m

  -- `_nws_parameter`
  unfoldable pub nws_parameter : CapAlert → String → String
  unfolding member_at
  nws_parameter alert name = first_text (member_at name (or_empty alert.parameters))

  -- `_VTEC_SIG_SEVERITY` and `_VTEC_EXTREME_PHENOMENA`
  abbrev pub vtec_sig_severity : Dict String
  vtec_sig_severity = ("W", "severe") ∷ ("A", "moderate") ∷ ("Y", "minor") ∷ ("S", "unknown") ∷ []

  abbrev pub vtec_extreme_phenomena : List String
  vtec_extreme_phenomena = "TO" ∷ "EW" ∷ []

  abbrev or_unknown : Option String → String
  or_unknown none = "unknown"
  or_unknown (some severity) = severity

  abbrev pub severity_of : Option Vtec → Option String
  severity_of none = none
  severity_of (some v) =
      if v.significance == "W" && contains v.phenomena vtec_extreme_phenomena
      then some "extreme"
      else some (or_unknown (Dict.get v.significance vtec_sig_severity))

  -- `nws_vtec_severity`; a group of `_VTEC_RE` is never empty.
  unfoldable pub nws_vtec_severity : CapAlert → Option String
  unfolding nws_parameter parse_vtec
  nws_vtec_severity alert = severity_of (parse_vtec (nws_parameter alert "VTEC"))
