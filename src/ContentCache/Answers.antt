-- ===== src/ContentCache/Answers.antt =====
-- How a fetch of `CAPContentCache` (providers/cap_content_cache.py) ends for its callers.
use mathlib.Core.Bool.{false≢true}
use cap_alerts.Prelude.{
  ℕ, ◌≡◌, inl, inr, refl, sym, ◌∙◌, subst, String, Bool, true, false, not, ◌&&◌, ◌||◌, Option, none,
  some, ◌==◌, arith, eq_iff, ltb, leb, ◌=ℕ◌, if◌then◌else◌, Bool-cases, Option-cases,
}
use cap_alerts.Dict
use cap_alerts.Dict.{Dict}
use cap_alerts.Dict.Laws.{get-put, get-remove}
use cap_alerts.ContentCache.Cache.{
  Cache, Flight, Answer, response, failed, Result, returned, redirected, key_error, finish,
  on_response, on_failure, answered, on_text, move_to_end, is_some, touch,
}
use cap_alerts.ContentCache.Bounded.{touch-put}

-- The host has said something of the document: it sent it, it pointed elsewhere, or it has it no
-- longer.
abbrev pub is_verdict : Flight → Answer → Bool
is_verdict f failed = false
is_verdict f (response status h text) =
    (status =ℕ 404)
    || (status =ℕ 410)
    || ((status =ℕ 200) && is_some text)
    || (not f.follow_redirects && leb 300 status && ltb status 400 && not (status =ℕ 304))

-- The host still has the document, but its body has left the cache during the request.
abbrev pub is_lost : String → Flight → Answer → Cache → Bool
is_lost url f failed c = false
is_lost url f (response status h text) c =
    (status =ℕ 304) && is_some f.cached && not (Dict.has url c.cache)

abbrev pub is_key_error : Result → Bool
is_key_error key_error = true
is_key_error (returned body) = false
is_key_error (redirected location) = false

get-touch :
    (url u : String) (cache : Dict String)
    → Dict.get u (touch url (Dict.get url cache) cache) ≡ Dict.get u cache
get-touch url u cache = elim (Option-cases (Dict.get url cache)) [
  | inl e ↦ rw e
  | inr (body, e) ↦ rw (e, touch-put url body cache, get-put, get-remove) (held body e)
]
  where
    held :
        (body : String)
        → Dict.get url cache ≡ some body
        → (if url == u then some body else (if url == u then none else Dict.get u cache))
          ≡ Dict.get u cache
    held body e = elim (Bool-cases (url == u)) [
      | inl q ↦
          let same : url ≡ u = (eq_iff url u).0 q in
          rw q (sym (subst (λ x. Dict.get x cache ≡ some body) same e))
      | inr q ↦ rw q
    ]

module _ (getsizeof : String → ℕ) where
  -- What a revalidation that says nothing of the document leaves.
  abbrev Kept : String → Flight → String → Answer → Cache → Type 0
  Kept url f body answer c =
      ((answered getsizeof url f answer c).caller ≡ returned (some body))
      × ((answered getsizeof url f answer c).waiters ≡ returned (some body))
      × ((u : String)
          → Dict.get u (answered getsizeof url f answer c).cache_after.cache ≡ Dict.get u c.cache)

  answered-Kept :
      (url : String) (f : Flight) (body : String) (answer : Answer) (c : Cache)
      → f.cached ≡ some body
      → Dict.has url c.cache ≡ true
      → is_verdict f answer ≡ false
      → Kept url f body answer c
  unfolding on_response on_failure move_to_end
  answered-Kept url f body failed c e h v = rw e (refl, refl, λ u. refl)
  answered-Kept url f body (response status hs text) c e h v = elim (Bool-cases (status =ℕ 304)) [
    | inl p ↦ rw (on_response, p, e, h) (refl, refl, λ u. get-touch url u c.cache)
    | inr p ↦
        let stays : (not f.follow_redirects && (leb 300 status && ltb status 400)) ≡ false =
          ground arith in
        let there : not ((status =ℕ 404) || (status =ℕ 410)) ≡ true = ground arith in
        elim (Bool-cases (status =ℕ 200)) [
          | inl q ↦ rw (on_response, p, stays, q) (unread text (ground arith))
          | inr q ↦ rw (on_response, p, stays, q, e, there) (refl, refl, λ u. refl)
        ]
  ]
    where
      unread :
          (text : Option String)
          → is_some text ≡ false
          → ((on_text getsizeof url f hs text c).caller ≡ returned (some body))
            × ((on_text getsizeof url f hs text c).waiters ≡ returned (some body))
            × ((u : String)
                → Dict.get u (on_text getsizeof url f hs text c).cache_after.cache
                  ≡ Dict.get u c.cache)
      unread none r = rw e (refl, refl, λ u. refl)
      unread (some t) r = absurd (false≢true (sym r))

  -- A fetch that revalidates a body which is still cached, and that gets no answer about the
  -- document (a network error, a body that does not decode, a 304 or a status other than 200, 404
  -- and 410, or a redirect that is not followed): the caller and all that share its fetch are served
  -- the cached body, and every body in the cache is as it was.
  pub finish-cached :
      (url : String) (f : Flight) (body : String) (answer : Answer) (c : Cache)
      → f.cached ≡ some body
      → Dict.has url c.cache ≡ true
      → is_verdict f answer ≡ false
      → ((finish getsizeof url f answer c).caller ≡ returned (some body))
        × ((finish getsizeof url f answer c).waiters ≡ returned (some body))
        × ((u : String)
            → Dict.get u (finish getsizeof url f answer c).cache_after.cache ≡ Dict.get u c.cache)
  unfolding finish
  finish-cached url f body answer c e h v = answered-Kept url f body answer c e h v

  on_failure_no_error :
      (url : String) (f : Flight) (c : Cache) → is_key_error (on_failure url f c).caller ≡ false
  unfolding on_failure
  on_failure_no_error url f c = elim (Bool-cases (is_some f.cached)) [
    | inl p ↦ rw (on_failure, p)
    | inr p ↦ rw (on_failure, p)
  ]

  -- A call of `get_or_fetch` raises `KeyError` exactly where it revalidates, the host answers 304,
  -- and the body has been evicted from the cache since the request went out.
  pub finish-is_lost :
      (url : String) (f : Flight) (answer : Answer) (c : Cache)
      → is_key_error (finish getsizeof url f answer c).caller ≡ is_lost url f answer c
  unfolding finish on_response
  finish-is_lost url f failed c = on_failure_no_error url f c
  finish-is_lost url f (response status h text) c =
      elim (Bool-cases ((status =ℕ 304) && is_some f.cached)) [
        | inl p ↦ elim (Bool-cases (Dict.has url c.cache)) [
          | inl q ↦ rw (on_response, p, q) (ground arith)
          | inr q ↦ rw (on_response, p, q) (ground arith)
        ]
        | inr p ↦ elim (Bool-cases (not f.follow_redirects && (leb 300 status && ltb status 400))) [
          | inl q ↦ rw (on_response, p, q) (ground arith)
          | inr q ↦ elim (Bool-cases (status =ℕ 200)) [
            | inl r ↦ rw (on_response, p, q, r) (texted text ∙ ground arith)
            | inr r ↦
                elim (Bool-cases (is_some f.cached && not ((status =ℕ 404) || (status =ℕ 410)))) [
                  | inl t ↦ rw (on_response, p, q, r, t) (ground arith)
                  | inr t ↦ rw (on_response, p, q, r, t) (ground arith)
                ]
          ]
        ]
      ]
    where
      texted :
          (text : Option String) → is_key_error (on_text getsizeof url f h text c).caller ≡ false
      texted none = on_failure_no_error url f c
      texted (some body) = refl
