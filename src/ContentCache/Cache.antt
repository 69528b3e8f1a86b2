-- ===== src/ContentCache/Cache.antt =====
-- The state and operations of `CAPContentCache` (providers/cap_content_cache.py). `get_or_fetch`
-- is cut at its `await`: `call` is what runs before it, `finish` what the host's answer starts.
use cap_alerts.Prelude.{
  ℕ, zero, suc, ◌+◌, ◌-◌, String, Bool, true, false, not, ◌&&◌, ◌||◌, Option, none, some, List, [],
  ◌∷◌, ◌++◌, ◌==◌, ltb, leb, ◌=ℕ◌, if◌then◌else◌, is_empty,
}
use cap_alerts.Prelude.Lists.{length, keep_if, contains}
use cap_alerts.Dict
use cap_alerts.Dict.{Dict}

-- The locals of a fetch that waits for its answer.
pub record Flight : Type 0 where
  pub cached : Option String
  pub follow_redirects : Bool

-- `cache` is the `OrderedDict`, oldest first; `inflight` holds the futures.
pub record Cache : Type 0 where
  pub max_bytes : ℕ
  pub cache : Dict String
  pub sizes : Dict ℕ
  pub validators : Dict (Dict String)
  pub total_bytes : ℕ
  pub inflight : Dict Flight
  pub warned : List String

-- `__init__`
abbrev pub new_cache : ℕ → Cache
new_cache max_bytes = record {
  max_bytes = max_bytes;
  cache = [];
  sizes = [];
  validators = [];
  total_bytes = 0;
  inflight = [];
  warned = [];
}

-- What `response_headers.get` finds.
pub record Headers : Type 0 where
  pub etag : Option String
  pub last_modified : Option String
  pub location : Option String

abbrev pub with_header : String → Option String → Dict String → Dict String
with_header name none headers = headers
with_header name (some value) headers =
    if is_empty value then headers else Dict.put name value headers

-- `_validators_from`
unfoldable pub validators_from : Headers → Dict String
validators_from h =
    with_header "If-Modified-Since" h.last_modified (with_header "If-None-Match" h.etag [])

-- `while len(self._warned) > _MAX_WARNED_URLS: self._warned.popitem(last=False)`
unfoldable pub trim : List String → List String
trim [] = []
trim (url ∷ urls) =
    let rest = trim urls in if ltb 256 (length (url ∷ urls)) then rest else url ∷ urls

-- `_warn_once`
unfoldable pub warn_once : String → Cache → Cache
unfolding trim
warn_once url c =
    if contains url c.warned then c else record c { warned = trim (c.warned ++ url ∷ []) }

abbrev pub size_in : Option ℕ → ℕ
size_in none = 0
size_in (some n) = n

-- `_evict`
unfoldable pub evict : String → Cache → Cache
evict url c =
    if Dict.has url c.cache
    then record c {
      cache = Dict.remove url c.cache;
      total_bytes = c.total_bytes - size_in (Dict.get url c.sizes);
      sizes = Dict.remove url c.sizes;
      validators = Dict.remove url c.validators;
    }
    else record c { validators = Dict.remove url c.validators }

-- The key that `popitem(last=False)` takes.
abbrev pub oldest : Dict String → Option String
oldest [] = none
oldest ((url, body) ∷ cache) = some url

-- The `while` loop of `_store`; every round drops one body.
unfoldable pub shrink : ℕ → Cache → Cache
unfolding evict
shrink zero c = c
shrink (suc fuel) c = elim (oldest c.cache) [
  | none ↦ c
  | some url ↦
      let rest = shrink fuel (evict url c) in if ltb c.max_bytes c.total_bytes then rest else c
]

abbrev pub no_entries : Dict String → Bool
no_entries [] = true
no_entries (entry ∷ entries) = false

-- The state of `_store` before it evicts.
unfoldable pub inserted : String → String → Dict String → ℕ → Cache → Cache
inserted url body validators size c = record c {
  cache = Dict.put url body c.cache;
  sizes = Dict.put url size c.sizes;
  validators = if no_entries validators then c.validators else Dict.put url validators c.validators;
  total_bytes = c.total_bytes + size;
}

abbrev pub touch : String → Option String → Dict String → Dict String
touch url none cache = cache
touch url (some body) cache = Dict.remove url cache ++ (url, body) ∷ []

-- `self._cache.move_to_end(url)` for a URL that is cached.
unfoldable pub move_to_end : String → Cache → Cache
move_to_end url c = record c { cache = touch url (Dict.get url c.cache) c.cache }

-- `headers.update(validators)`
unfoldable pub update : Dict String → Dict String → Dict String
update headers [] = headers
update headers ((name, value) ∷ others) = update (Dict.put name value headers) others

-- What a call does at once: it returns a body, waits for the fetch of another call, or asks the
-- host with some headers.
pub data Call : Type 0 where
  served : String → Call
  shared : Call
  asks : Dict String → Call

abbrev or_nothing : Option (Dict String) → Dict String
or_nothing none = []
or_nothing (some validators) = validators

abbrev agent : Option String → Dict String
agent user_agent = with_header "User-Agent" user_agent []

abbrev request_headers : Option String → Option String → Option (Dict String) → Dict String
request_headers user_agent none validators = agent user_agent
request_headers user_agent (some body) validators =
    update (agent user_agent) (or_nothing validators)

-- `get_or_fetch` from the test of `_inflight`.
unfoldable pub fetch : String → Option String → Bool → Cache → Cache × Call
unfolding update
fetch url user_agent follow_redirects c = if Dict.has url c.inflight then (c, shared) else (
  record c {
    inflight =
        Dict.put url (record { cached = Dict.get url c.cache; follow_redirects = follow_redirects })
          c.inflight;
  },
  asks (request_headers user_agent (Dict.get url c.cache) (Dict.get url c.validators)),
)

abbrev pub call_cached : Option String → String → Option String → Bool → Bool → Cache → Cache × Call
call_cached none url user_agent follow_redirects revalidate c =
    fetch url user_agent follow_redirects c
call_cached (some body) url user_agent follow_redirects revalidate c =
    if revalidate then fetch url user_agent follow_redirects c else (move_to_end url c, served body)

-- `get_or_fetch` up to the request.
unfoldable pub call : String → Option String → Bool → Bool → Cache → Cache × Call
call url user_agent follow_redirects revalidate c =
    call_cached (Dict.get url c.cache) url user_agent follow_redirects revalidate c

-- The host's answer: a response, whose `text()` may fail to decode, or an `aiohttp` error.
pub data Answer : Type 0 where
  response : ℕ → Headers → Option String → Answer
  failed : Answer

-- How `get_or_fetch` ends: it returns, or it raises `Redirected` or `KeyError`.
pub data Result : Type 0 where
  returned : Option String → Result
  redirected : String → Result
  key_error : Result

-- The cache, the result of the call that fetched, and that of the calls that share its fetch.
pub record Ending : Type 0 where
  pub cache_after : Cache
  pub caller : Result
  pub waiters : Result

abbrev pub both : Cache → Result → Ending
both c r = record { cache_after = c; caller = r; waiters = r }

abbrev text_or_empty : Option String → String
text_or_empty none = ""
text_or_empty (some s) = s

abbrev pub is_some : Option String → Bool
is_some none = false
is_some (some s) = true

-- `except (aiohttp.ClientError, asyncio.TimeoutError, UnicodeDecodeError)`
unfoldable pub on_failure : String → Flight → Cache → Ending
unfolding warn_once
on_failure url f c =
    if is_some f.cached then both c (returned f.cached) else both (warn_once url c) (returned none)

-- `self._warned.pop(url, None)`
abbrev pub unwarn : String → Cache → Cache
unwarn url c = record c { warned = keep_if (λ u. not (u == url)) c.warned }

module _ (getsizeof : String → ℕ) where
  -- `_store`
  unfoldable pub store : String → String → Dict String → Cache → Cache
  unfolding evict shrink inserted
  store url body validators c =
      let c' = evict url c in
      let full = inserted url body validators (getsizeof body) c' in
      if ltb c.max_bytes (getsizeof body) then c' else shrink (length full.cache) full

  abbrev pub on_text : String → Flight → Headers → Option String → Cache → Ending
  on_text url f h none c = on_failure url f c
  on_text url f h (some body) c =
      both (store url body (validators_from h) (unwarn url c)) (returned (some body))

  -- The branches over the status.
  unfoldable pub on_response : String → Flight → ℕ → Headers → Option String → Cache → Ending
  unfolding store validators_from evict warn_once move_to_end on_failure
  on_response url f status h text c =
      if (status =ℕ 304) && is_some f.cached
      then if Dict.has url c.cache
        then both (move_to_end url c) (returned f.cached)
        else record { cache_after = c; caller = key_error; waiters = returned f.cached }
      else if not f.follow_redirects && (leb 300 status && ltb status 400)
      then both (evict url c) (redirected (text_or_empty h.location))
      else if status =ℕ 200
      then on_text url f h text c
      else if is_some f.cached && not ((status =ℕ 404) || (status =ℕ 410))
      then both c (returned f.cached)
      else both (warn_once url (evict url c)) (returned none)

  abbrev pub answered : String → Flight → Answer → Cache → Ending
  answered url f (response status h text) c = on_response url f status h text c
  answered url f failed c = on_failure url f c

  -- `get_or_fetch` from the answer on, with its `finally`.
  unfoldable pub finish : String → Flight → Answer → Cache → Ending
  unfolding on_response
  finish url f answer c =
      let e = answered url f answer c in
      record e {
        cache_after = record e.cache_after { inflight = Dict.remove url e.cache_after.inflight };
      }
