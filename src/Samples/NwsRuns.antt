-- ===== src/Samples/NwsRuns.antt =====
-- Runs of the NWS rules (providers/nws_conventions.py).
use Prim.Native.Char.{Char, code}
use cap_alerts.Prelude.{
  ◌≡◌, inl, inr, refl, String, Bool, ◌&&◌, none, some, List, [], ◌∷◌, ◌==◌, leb, if◌then◌else◌,
}
use cap_alerts.Dict
use cap_alerts.Conventions.{StageContext}
use cap_alerts.Conventions.Episode.{episode_id, join, sorted_texts, insert_text}
use cap_alerts.Model.{CapAlert, blank}
use cap_alerts.Model.Json.{Json, member, no_members, string, array, element, no_elements}
use cap_alerts.Nws.Vtec.{parse_vtec, matched, nws_parameter, member_at, nws_vtec_severity}
use cap_alerts.Nws.Reissue.{
  same_texts, same_key, file_under, recency, newest, reissue_key, reminted, file_all, collapsed,
  collapse_nws_reissues,
}
use cap_alerts.Nws.Collapse.{Kept, collapse_nws_reissues-Kept}
use cap_alerts.Time.{FromIso, aware, parse_instant}

abbrev is_digit : Char → Bool
is_digit c = leb b'0' (code c) && leb (code c) b'9'

abbrev str : Json → String
str value = "?"

abbrev digest : String → String
digest key = key

abbrev from_iso : FromIso
from_iso text =
    if text == "monday" then some (aware 1) else if text == "tuesday" then some (aware 2) else none

abbrev ctx : StageContext
ctx = record { now = 3; wanted_regions = []; regions_for = λ alert. [] }

abbrev list_of : String → Json
list_of text = array (element (string text) no_elements)

abbrev tornado : CapAlert
tornado = record (blank "t") {
  parameters =
      some (member "VTEC" (list_of "/O.NEW.KOUN.TO.W.0042.240506T2315Z-240507T0000Z/") no_members);
}

extreme : nws_vtec_severity is_digit str tornado ≡ some "extreme"
unfolding nws_vtec_severity nws_parameter member_at parse_vtec matched
extreme = refl

abbrev smoke : String → String → CapAlert
smoke identifier sent = record (blank identifier) {
  identifier = identifier;
  sent = sent;
  event = "Air Quality Alert";
  geocodes = ("UGC", "COC031" ∷ "COC013" ∷ []) ∷ [];
  parameters = some (member "AWIPSidentifier" (list_of "AQABOU") no_members);
}

abbrev poll : List CapAlert
poll = smoke "new" "tuesday" ∷ smoke "old" "monday" ∷ tornado ∷ []

-- The newer transmission stays, under the identity of the product.
once :
    collapse_nws_reissues from_iso is_digit str digest poll ctx
    ≡ tornado
      ∷ record (smoke "new" "tuesday") { id = "|AQABOU|Air Quality Alert|COC013;COC031|" }
      ∷ []
unfolding collapse_nws_reissues file_all file_under collapsed newest recency reissue_key reminted
    same_key same_texts nws_parameter member_at episode_id join sorted_texts insert_text
    parse_instant Dict.get
once = refl

collapse_nws_reissues-Kept_example :
    Kept from_iso is_digit str digest poll
      (smoke "old" "monday")
      (collapse_nws_reissues from_iso is_digit str digest poll ctx)
      (reissue_key from_iso is_digit str digest (smoke "old" "monday"))
collapse_nws_reissues-Kept_example =
    collapse_nws_reissues-Kept from_iso is_digit str digest poll ctx (smoke "old" "monday")
      (inr (inl refl))
