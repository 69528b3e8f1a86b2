-- ===== src/Revalidate/Feed.antt =====
-- `FeedValidators` and `fetch_feed_text` (providers/revalidate.py), cut at the request: `headers_for`
-- is what is sent, `read` what the answer leads to.
use cap_alerts.Prelude.{ℕ, String, Option, none, some, [], ◌=ℕ◌, if◌then◌else◌}
use cap_alerts.Dict
use cap_alerts.Dict.{Dict}
use cap_alerts.ContentCache.Cache.{
  Answer, response, failed, Headers, with_header, update, no_entries,
}

-- `_LastRead`
pub record LastRead : Type 0 where
  pub request_headers : Dict String
  pub body : String

-- `FeedValidators`, by its `_last`.
abbrev pub FeedValidators : Type 0
FeedValidators = Dict LastRead

abbrev headers_of : Option LastRead → Dict String
headers_of none = []
headers_of (some last) = last.request_headers

-- `request_headers`
unfoldable pub request_headers : String → FeedValidators → Dict String
request_headers url v = headers_of (Dict.get url v)

-- The headers that `remember` builds.
abbrev pub conditional : Headers → Dict String
conditional h =
    with_header "If-Modified-Since" h.last_modified (with_header "If-None-Match" h.etag [])

-- `remember`
unfoldable pub remember : String → Headers → String → FeedValidators → FeedValidators
remember url h body v =
    if no_entries (conditional h)
    then Dict.remove url v
    else Dict.put url (record { request_headers = conditional h; body = body }) v

abbrev body_of : Option LastRead → Option String
body_of none = none
body_of (some last) = some last.body

-- `replay`
unfoldable pub replay : String → FeedValidators → Option String
replay url v = body_of (Dict.get url v)

-- `fetch_feed_text` returns a text, or raises `FeedStatusError` or `ProviderError`.
pub data Outcome : Type 0 where
  text : String → Outcome
  status_error : ℕ → Outcome
  provider_error : Outcome

-- The headers of the request.
abbrev pub headers_for : String → Option String → Option FeedValidators → Dict String
unfolding update request_headers
headers_for url user_agent none = with_header "User-Agent" user_agent []
headers_for url user_agent (some v) =
    update (with_header "User-Agent" user_agent []) (request_headers url v)

abbrev replayed : Option String → Outcome
replayed none = status_error 304
replayed (some body) = text body

abbrev remembered : String → Headers → String → Option FeedValidators → Option FeedValidators
unfolding remember
remembered url h body none = none
remembered url h body (some v) = some (remember url h body v)

abbrev on_text :
    String → Headers → Option String → Option FeedValidators → Option FeedValidators × Outcome
unfolding remember
on_text url h none v = (v, provider_error)
on_text url h (some body) v = (remembered url h body v, text body)

abbrev on_200 :
    String → ℕ → Headers → Option String → Option FeedValidators → Option FeedValidators × Outcome
unfolding remember
on_200 url status h body v =
    if status =ℕ 200 then on_text url h body v else (v, status_error status)

-- What the answer leads to.
unfoldable pub read : String → Answer → Option FeedValidators → Option FeedValidators × Outcome
unfolding remember replay
read url failed v = (v, provider_error)
read url (response status h body) none = on_200 url status h body none
read url (response status h body) (some v) =
    if status =ℕ 304 then (some v, replayed (replay url v)) else on_200 url status h body (some v)
