-- ===== src/Samples/CacheRuns.antt =====
-- Runs of the content cache (providers/cap_content_cache.py).
use Prim.Native.String.{count}
use cap_alerts.Prelude.{ℕ, ◌≡◌, refl, Bool, true, false, none, some, String}
use cap_alerts.Dict
use cap_alerts.ContentCache.Cache.{
  Cache, Flight, Headers, served, new_cache, response, failed, returned, call, finish, fetch, store,
  evict, shrink, inserted, validators_from, update, warn_once, trim, move_to_end, on_response,
  on_failure,
}
use cap_alerts.ContentCache.Bounded.{IsBounded, new_cache-IsBounded, finish-IsBounded}
use cap_alerts.ContentCache.Answers.{finish-cached, finish-is_lost, is_key_error, is_lost}

abbrev headers : Headers
headers = record { etag = some "1"; last_modified = none; location = none }

-- The sizes are the lengths, and there is room for one body.
abbrev sizes : String → ℕ
sizes = count

abbrev first : Flight
first = record { cached = none; follow_redirects = true }

abbrev again : Flight
again = record { cached = some "<a/>"; follow_redirects = false }

abbrev held : Cache
held = (finish sizes "u" first (response 200 headers (some "<a/>")) (new_cache 5)).cache_after

-- Another URL's body arrives and evicts the first one.
abbrev other : Cache
other = (finish sizes "v" first (response 200 headers (some "<b/>")) held).cache_after

-- All operations open, for the tests.
is_held : String → Cache → Bool
unfolding call finish fetch store evict shrink inserted validators_from update warn_once trim
    move_to_end on_response on_failure Dict.has Dict.get Dict.put Dict.remove
is_held url c = Dict.has url c.cache

first_held : is_held "u" held ≡ true
unfolding is_held
first_held = refl

first_evicted : is_held "u" other ≡ false
unfolding is_held
first_evicted = refl

served_at_once : (call "u" none true false held).1 ≡ served "<a/>"
unfolding is_held
served_at_once = refl

-- The revalidation of `u` was under way meanwhile.
revalidation_fails :
    is_key_error (finish sizes "u" again (response 304 headers none) other).caller ≡ true
unfolding is_held
revalidation_fails = refl

finish-is_lost_example :
    is_key_error (finish sizes "u" again (response 304 headers none) other).caller
    ≡ is_lost "u" again (response 304 headers none) other
finish-is_lost_example = finish-is_lost sizes "u" again (response 304 headers none) other

held-IsBounded : IsBounded held
held-IsBounded =
    finish-IsBounded sizes "u" first (response 200 headers (some "<a/>")) (new_cache 5)
      (new_cache-IsBounded 5)

finish-IsBounded_example : IsBounded other
finish-IsBounded_example =
    finish-IsBounded sizes "v" first (response 200 headers (some "<b/>")) held held-IsBounded

present : Dict.has "u" held.cache ≡ true
unfolding is_held
present = refl

finish-cached_example :
    ((finish sizes "u" again failed held).caller ≡ returned (some "<a/>"))
    × ((finish sizes "u" again failed held).waiters ≡ returned (some "<a/>"))
    × ((u : String)
        → Dict.get u (finish sizes "u" again failed held).cache_after.cache ≡ Dict.get u held.cache)
finish-cached_example = finish-cached sizes "u" again "<a/>" failed held refl present refl
