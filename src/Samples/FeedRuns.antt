-- ===== src/Samples/FeedRuns.antt =====
-- Runs of the feed revalidation (providers/revalidate.py).
use cap_alerts.Prelude.{◌≡◌, refl, none, some, [], ◌∷◌, if◌then◌else◌}
use cap_alerts.Dict
use cap_alerts.ContentCache.Cache.{Headers, response, no_entries, update}
use cap_alerts.Revalidate.Feed.{
  text, status_error, conditional, request_headers, remember, replay, read, headers_for,
}
use cap_alerts.Revalidate.Replay.{read-read}

abbrev tagged : Headers
tagged = record { etag = some "7"; last_modified = none; location = none }

abbrev bare : Headers
bare = record { etag = none; last_modified = none; location = none }

tag_sent :
    headers_for "u" (some "agent") (read "u" (response 200 tagged (some "feed")) (some [])).0
    ≡ ("User-Agent", "agent") ∷ ("If-None-Match", "7") ∷ []
unfolding update request_headers read remember Dict.get Dict.put
tag_sent = refl

read-read_example :
    let after = remember "u" tagged "feed" [] in
    (read "u" (response 200 tagged (some "feed")) (some []) ≡ (some after, text "feed"))
    × (request_headers "u" after ≡ conditional tagged)
    × (read "u" (response 304 bare none) (some after)
        ≡ (some after, (if no_entries (conditional tagged) then status_error 304 else text "feed")))
    × (request_headers "v" after ≡ request_headers "v" [])
    × (replay "v" after ≡ replay "v" [])
read-read_example = read-read "u" "v" tagged bare "feed" none [] refl
