-- ===== src/Nws/Icons.antt =====
-- The icons by event name and the prefixes of marine zones (providers/nws_conventions.py).
use cap_alerts.Prelude.{String, Option, List, [], ◌∷◌}
use cap_alerts.Dict
use cap_alerts.Dict.{Dict}
use cap_alerts.Model.{CapAlert}

-- `_NWS_EVENT_ICONS`
abbrev pub nws_event_icons : Dict String
nws_event_icons =
    ("tornado warning", "mdi:weather-tornado")
    ∷ ("tornado watch", "mdi:weather-tornado")
    ∷ ("severe thunderstorm warning", "mdi:weather-lightning")
    ∷ ("severe thunderstorm watch", "mdi:weather-lightning")
    ∷ ("flood warning", "mdi:home-flood")
    ∷ ("flood watch", "mdi:home-flood")
    ∷ ("flash flood warning", "mdi:water")
    ∷ ("flash flood watch", "mdi:water")
    ∷ ("coastal flood warning", "mdi:waves")
    ∷ ("coastal flood watch", "mdi:waves")
    ∷ ("winter storm warning", "mdi:snowflake-alert")
    ∷ ("winter storm watch", "mdi:snowflake-alert")
    ∷ ("winter weather advisory", "mdi:snowflake")
    ∷ ("blizzard warning", "mdi:snowflake-alert")
    ∷ ("ice storm warning", "mdi:snowflake-melt")
    ∷ ("excessive heat warning", "mdi:weather-sunny-alert")
    ∷ ("excessive heat watch", "mdi:weather-sunny-alert")
    ∷ ("heat advisory", "mdi:weather-sunny-alert")
    ∷ ("red flag warning", "mdi:fire")
    ∷ ("fire weather watch", "mdi:fire")
    ∷ ("high wind warning", "mdi:weather-windy")
    ∷ ("high wind watch", "mdi:weather-windy")
    ∷ ("wind advisory", "mdi:weather-windy")
    ∷ ("dense fog advisory", "mdi:weather-fog")
    ∷ ("air quality alert", "mdi:smog")
    ∷ ("special weather statement", "mdi:alert-circle")
    ∷ ("hurricane warning", "mdi:weather-hurricane")
    ∷ ("hurricane watch", "mdi:weather-hurricane")
    ∷ ("tropical storm warning", "mdi:weather-hurricane")
    ∷ ("tropical storm watch", "mdi:weather-hurricane")
    ∷ ("tsunami warning", "mdi:tsunami")
    ∷ ("tsunami watch", "mdi:tsunami")
    ∷ []

-- `nws_icon`
abbrev pub nws_icon : CapAlert → String → Option String
nws_icon alert event = Dict.get event nws_event_icons

-- `NWS_MARINE_UGC_PREFIXES`
abbrev pub nws_marine_ugc_prefixes : List String
nws_marine_ugc_prefixes =
    "AM" ∷ "AN" ∷ "GM" ∷ "LC" ∷ "LE" ∷ "LH" ∷ "LM" ∷ "LO" ∷ "LS" ∷ "PH" ∷ "PK" ∷ "PM" ∷ "PS" ∷ "PZ"
    ∷ "SL" ∷ []
