-- ===== src/Revalidate/Replay.antt =====
-- A 304 replays the last body that its validators vouch for (providers/revalidate.py).
use cap_alerts.Prelude.{
  [], ◌∷◌, ◌≡◌, inl, inr, refl, String, true, false, Option, some, ◌==◌, arith, eq_refl,
  if◌then◌else◌, Bool-cases,
}
use cap_alerts.Dict.{Dict}
use cap_alerts.Dict.Laws.{get-put, get-remove}
use cap_alerts.ContentCache.Cache.{response, Headers, no_entries}
use cap_alerts.Revalidate.Feed.{
  FeedValidators, text, status_error, conditional, request_headers, remember, replay, read,
}

none_left : (d : Dict String) → no_entries d ≡ true → [] ≡ d
none_left [] e = refl
none_left (entry ∷ d) e = absurd (ground arith)

-- After a feed is read, the next request for it carries the validators that came with the body, and
-- a 304 to it returns that body; where the body came with none, the next request carries none, and
-- a 304 is an error. Reading one feed changes nothing for another.
pub read-read :
    (url other : String) (h later : Headers) (body : String) (unread : Option String)
    (v : FeedValidators)
    → (url == other) ≡ false
    → let after = remember url h body v in
      (read url (response 200 h (some body)) (some v) ≡ (some after, text body))
      × (request_headers url after ≡ conditional h)
      × (read url (response 304 later unread) (some after)
          ≡ (some after, (if no_entries (conditional h) then status_error 304 else text body)))
      × (request_headers other after ≡ request_headers other v)
      × (replay other after ≡ replay other v)
unfolding read remember request_headers replay
read-read url other h later body unread v ne = elim (Bool-cases (no_entries (conditional h))) [
  | inl e ↦ (
    refl,
    rw (remember, e, get-remove, eq_refl) (none_left (conditional h) e),
    rw (remember, e, get-remove, eq_refl) refl,
    rw (remember, e, get-remove, ne) refl,
    rw (remember, e, get-remove, ne) refl,
  )
  | inr e ↦ (
    refl,
    rw (remember, e, get-put, eq_refl) refl,
    rw (remember, e, get-put, eq_refl) refl,
    rw (remember, e, get-put, ne) refl,
    rw (remember, e, get-put, ne) refl,
  )
]
