-- ===== src/Nws/Reissue.antt =====
-- The collapse of re-issued NWS products (providers/nws_conventions.py): `_nws_reissue_key`,
-- `_reissue_recency` and `collapse_nws_reissues`.
use Prim.Native.Char.{Char}
use cap_alerts.Prelude.{
  ℕ, String, Bool, true, false, not, ◌&&◌, ◌||◌, Option, none, some, List, [], ◌∷◌, ◌++◌, ◌==◌, ltb,
  ◌=ℕ◌, map, is_empty, if◌then◌else◌,
}
use cap_alerts.Prelude.Text.{concat, text_le}
use cap_alerts.Dict
use cap_alerts.Conventions.{SourceConventions, StageContext, PipelineStage, merge, no_conventions}
use cap_alerts.Conventions.Episode.{episode_id, sorted_texts}
use cap_alerts.Model.{CapAlert}
use cap_alerts.Model.Json.{Json}
use cap_alerts.Nws.Icons.{nws_icon, nws_marine_ugc_prefixes}
use cap_alerts.Nws.Vtec.{nws_parameter, nws_vtec_severity}
use cap_alerts.Time.{FromIso, parse_instant}

-- The AWIPS identifier, the event and the sorted UGC codes.
abbrev pub Key : Type 0
Key = String × String × List String

unfoldable pub same_texts : List String → List String → Bool
same_texts [] [] = true
same_texts [] (t ∷ texts) = false
same_texts (s ∷ texts) [] = false
same_texts (s ∷ ss) (t ∷ ts) = s == t && same_texts ss ts

-- The equality of the keys of a dict.
unfoldable pub same_key : Key → Key → Bool
unfolding same_texts
same_key (awips, event, ugc) (awips', event', ugc') =
    awips == awips' && (event == event' && same_texts ugc ugc')

abbrev or_none : Option (List String) → List String
or_none none = []
or_none (some codes) = codes

abbrev is_nil : List String → Bool
is_nil [] = true
is_nil (t ∷ texts) = false

-- `_reissue_recency`: the instant of a readable `sent`, and the identifier.
abbrev pub Recency : Type 0
Recency = Option ℕ × String

-- The order of the tuples that `_reissue_recency` gives.
abbrev pub is_later : Recency → Recency → Bool
is_later (none, i) (none, j) = not (text_le i j)
is_later (none, i) (some t, j) = false
is_later (some s, i) (none, j) = true
is_later (some s, i) (some t, j) = ltb t s || (s =ℕ t && not (text_le i j))

-- The members under a key, the first one apart.
abbrev pub Group : Type 0
Group = Key × CapAlert × List CapAlert

-- `keyed.setdefault(key, []).append(alert)`
unfoldable pub file_under : Key → CapAlert → List Group → List Group
file_under key alert [] = (key, alert, []) ∷ []
file_under key alert ((k, first, later) ∷ groups) =
    let rest = (k, first, later) ∷ file_under key alert groups in
    if same_key k key then (k, first, later ++ alert ∷ []) ∷ groups else rest

module _ (from_iso : FromIso) where
  unfoldable pub recency : CapAlert → Recency
  unfolding parse_instant
  recency alert = (parse_instant from_iso alert.sent, alert.identifier)

  -- `max(members, key=_reissue_recency)`: the first of those that are not less than another.
  unfoldable pub newest : CapAlert → List CapAlert → CapAlert
  unfolding recency
  newest best [] = best
  newest best (alert ∷ alerts) =
      newest (if is_later (recency alert) (recency best) then alert else best) alerts

  -- `\d` and `str` as in Vtec, and the digest of an identity.
  module _ (is_digit : Char → Bool) (str : Json → String) (digest : String → String) where
    -- `_nws_reissue_key`
    unfoldable pub reissue_key : CapAlert → Option Key
    unfolding nws_parameter sorted_texts
    reissue_key alert =
        let awips = nws_parameter is_digit str alert "AWIPSidentifier" in
        let ugc = sorted_texts (or_none (Dict.get "UGC" alert.geocodes)) in
        if not (is_empty (nws_parameter is_digit str alert "VTEC"))
        then none
        else if is_empty awips && is_nil ugc
        then none
        else some (awips, alert.event, ugc)

    abbrev identifier_or_id : CapAlert → String
    identifier_or_id alert = if is_empty alert.identifier then alert.id else alert.identifier

    -- `replace(newest, id=episode_id(...))`
    unfoldable pub reminted : Key → CapAlert → CapAlert
    unfolding episode_id
    reminted (awips, event, ugc) alert = record alert {
      id =
          episode_id digest alert.sender (concat awips (concat "|" event)) ugc ""
            (identifier_or_id alert);
    }

    abbrev pub file_alert :
        Option Key → CapAlert → List CapAlert × List Group → List CapAlert × List Group
    file_alert none alert (passthrough, groups) = (passthrough ++ alert ∷ [], groups)
    file_alert (some key) alert (passthrough, groups) = (passthrough, file_under key alert groups)

    -- The first loop.
    unfoldable pub file_all :
        List CapAlert → List CapAlert × List Group → List CapAlert × List Group
    unfolding reissue_key file_under
    file_all [] filed = filed
    file_all (alert ∷ alerts) filed = file_all alerts (file_alert (reissue_key alert) alert filed)

    unfoldable pub collapsed : Group → CapAlert
    unfolding newest reminted
    collapsed (key, first, later) = reminted key (newest first later)

    abbrev pub both : List CapAlert × List Group → List CapAlert
    both (passthrough, groups) = passthrough ++ map collapsed groups

    -- `collapse_nws_reissues`, which does not read its context.
    unfoldable pub collapse_nws_reissues : List CapAlert → StageContext → List CapAlert
    unfolding file_all collapsed
    collapse_nws_reissues alerts ctx = both (file_all alerts ([], []))

    -- `NWS_REISSUE_STAGES` and `NWS_CONVENTIONS`
    unfoldable pub nws_reissue_stages : List PipelineStage
    unfolding collapse_nws_reissues
    nws_reissue_stages = record { slot = merge; run = collapse_nws_reissues } ∷ []

    unfoldable pub nws_conventions : SourceConventions
    unfolding nws_reissue_stages
    nws_conventions = record no_conventions {
      marine_code_prefixes = nws_marine_ugc_prefixes;
      severity = some (nws_vtec_severity is_digit str);
      icon = some nws_icon;
      stages = nws_reissue_stages;
      discovers_terminations = true;
    }
