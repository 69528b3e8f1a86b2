-- ===== src/ContentCache/Bounded.antt =====
-- The byte budget of `CAPContentCache` (providers/cap_content_cache.py) over its calls and answers.
use cap_alerts.Prelude.{
  ℕ, ◌≤◌, ◌≡◌, inl, inr, refl, sym, ◌∙◌, subst, String, Bool, true, false, not, ◌&&◌, ◌||◌, Option,
  none, some, List, ◌==◌, arith, eq_iff, eq_refl, ltb, leb, ◌=ℕ◌, Bool-cases, Option-cases,
}
use native.Mathlib.Nat.{le_refl}
use cap_alerts.Prelude.Lists.{length, contains}
use cap_alerts.Dict
use cap_alerts.Dict.{Dict, Distinct}
use cap_alerts.Dict.Laws.{has-remove, Distinct-remove, has-get, has-put, put_fresh, Distinct-put}
use cap_alerts.ContentCache.Cache.{
  Cache, Flight, Answer, response, failed, evict, inserted, warn_once, store, finish, on_response,
  on_failure, answered, on_text, call, call_cached, fetch, move_to_end, is_some, unwarn, new_cache,
  validators_from, touch,
}
use cap_alerts.ContentCache.Bytes.{
  IsCounted, evict-IsCounted, evicted, inserted-IsCounted, shrink-IsCounted, shrink-max_bytes,
  shrink_lem, sum,
}

-- The bodies are counted right and fit the budget.
abbrev pub IsBounded : Cache → Type 0
IsBounded c = IsCounted c × (c.total_bytes ≤ c.max_bytes)

pub new_cache-IsBounded : (max_bytes : ℕ) → IsBounded (new_cache max_bytes)
unfolding sum Dict.has
new_cache-IsBounded max_bytes = (
  record {
    cache_once = tt;
    sizes_once = tt;
    sized = λ url. refl;
    total = refl;
    vouched = λ url h. h;
  },
  omega arith,
)

evict-IsBounded : (url : String) (c : Cache) → IsBounded c → IsBounded (evict url c)
unfolding evict
evict-IsBounded url c b = (evict-IsCounted url c b.0, less)
  where
    less : (evict url c).total_bytes ≤ (evict url c).max_bytes
    less = elim (Bool-cases (Dict.has url c.cache)) [
      | inl e ↦ rw (evict, e) (omega (arith, b.1))
      | inr e ↦ rw (evict, e) b.1
    ]

-- The rest of the state does not matter.
with_rest :
    (inflight : Dict Flight) (warned : List String) (c : Cache)
    → IsBounded c
    → IsBounded (record c { inflight = inflight; warned = warned })
with_rest inflight warned c b = (
  record {
    cache_once = b.0.cache_once;
    sizes_once = b.0.sizes_once;
    sized = b.0.sized;
    total = b.0.total;
    vouched = b.0.vouched;
  },
  b.1,
)

warn_once-IsBounded : (url : String) (c : Cache) → IsBounded c → IsBounded (warn_once url c)
unfolding warn_once
warn_once-IsBounded url c b = elim (Bool-cases (contains url c.warned)) [
  | inl e ↦ rw (warn_once, e) b
  | inr e ↦ rw (warn_once, e) (with_rest c.inflight _ c b)
]

pub touch-put :
    (url body : String) (cache : Dict String)
    → touch url (some body) cache ≡ Dict.put url body (Dict.remove url cache)
touch-put url body cache =
    sym (put_fresh url body (Dict.remove url cache) (rw (has-remove, eq_refl)))

has-touch :
    (url u : String) (cache : Dict String)
    → Dict.has u (touch url (Dict.get url cache) cache) ≡ Dict.has u cache
has-touch url u cache = elim (Option-cases (Dict.get url cache)) [
  | inl e ↦ rw e
  | inr (body, e) ↦ rw (e, touch-put url body cache, has-put, has-remove) (held body e)
]
  where
    held :
        (body : String)
        → Dict.get url cache ≡ some body
        → (url == u || (not (url == u) && Dict.has u cache)) ≡ Dict.has u cache
    held body e = elim (Bool-cases (url == u)) [
      | inl q ↦
          let same : url ≡ u = (eq_iff url u).0 q in
          rw q (sym (subst (λ x. Dict.has x cache ≡ true) same (has-get url body cache e)))
      | inr q ↦ rw q
    ]

touch_once :
    (url : String) (cache : Dict String)
    → Distinct cache
    → Distinct (touch url (Dict.get url cache) cache)
touch_once url cache d = elim (Option-cases (Dict.get url cache)) [
  | inl e ↦ rw e d
  | inr (body, e) ↦
      rw (e, touch-put url body cache)
        (Distinct-put url body (Dict.remove url cache) (Distinct-remove url cache d))
]

move_to_end-IsBounded : (url : String) (c : Cache) → IsBounded c → IsBounded (move_to_end url c)
unfolding move_to_end
move_to_end-IsBounded url c b = (
  record {
    cache_once = touch_once url c.cache b.0.cache_once;
    sizes_once = b.0.sizes_once;
    sized = λ u. b.0.sized u ∙ sym (has-touch url u c.cache);
    total = b.0.total;
    vouched = λ u h. has-touch url u c.cache ∙ b.0.vouched u h;
  },
  b.1,
)

module _ (getsizeof : String → ℕ) where
  store-IsBounded :
      (url body : String) (validators : Dict String) (c : Cache)
      → IsBounded c
      → IsBounded (store getsizeof url body validators c)
  unfolding store
  store-IsBounded url body validators c b = elim (Bool-cases (ltb c.max_bytes (getsizeof body))) [
    | inl e ↦ rw (store, e) (evict-IsBounded url c b)
    | inr e ↦
        rw (store, e)
          (
            shrink-IsCounted _ _ full,
            omega (
              arith,
              shrink-max_bytes
                  (length (inserted url body validators (getsizeof body) (evict url c)).cache)
                  (inserted url body validators (getsizeof body) (evict url c)),
              shrink_lem _ _ full (le_refl _),
            ),
          )
  ]
    where
      full : IsCounted (inserted url body validators (getsizeof body) (evict url c))
      full =
          inserted-IsCounted url body validators (getsizeof body) (evict url c)
            (evict-IsCounted url c b.0) (evicted url c)

  on_failure-IsBounded :
      (url : String) (f : Flight) (c : Cache)
      → IsBounded c
      → IsBounded (on_failure url f c).cache_after
  unfolding on_failure
  on_failure-IsBounded url f c b = elim (Bool-cases (is_some f.cached)) [
    | inl e ↦ rw (on_failure, e) b
    | inr e ↦ rw (on_failure, e) (warn_once-IsBounded url c b)
  ]

  answered-IsBounded :
      (url : String) (f : Flight) (answer : Answer) (c : Cache)
      → IsBounded c
      → IsBounded (answered getsizeof url f answer c).cache_after
  unfolding on_response
  answered-IsBounded url f failed c b = on_failure-IsBounded url f c b
  answered-IsBounded url f (response status h text) c b =
      elim (Bool-cases ((status =ℕ 304) && is_some f.cached)) [
        | inl p ↦ elim (Bool-cases (Dict.has url c.cache)) [
          | inl q ↦ rw (on_response, p, q) (move_to_end-IsBounded url c b)
          | inr q ↦ rw (on_response, p, q) b
        ]
        | inr p ↦ elim (Bool-cases (not f.follow_redirects && (leb 300 status && ltb status 400))) [
          | inl q ↦ rw (on_response, p, q) (evict-IsBounded url c b)
          | inr q ↦ elim (Bool-cases (status =ℕ 200)) [
            | inl r ↦ rw (on_response, p, q, r) (texted text)
            | inr r ↦
                elim (Bool-cases (is_some f.cached && not ((status =ℕ 404) || (status =ℕ 410)))) [
                  | inl t ↦ rw (on_response, p, q, r, t) b
                  | inr t ↦
                      rw (on_response, p, q, r, t)
                        (warn_once-IsBounded url (evict url c) (evict-IsBounded url c b))
                ]
          ]
        ]
      ]
    where
      texted : (text : Option String) → IsBounded (on_text getsizeof url f h text c).cache_after
      texted none = on_failure-IsBounded url f c b
      texted (some body) =
          store-IsBounded url body (validators_from h) (unwarn url c) (with_rest c.inflight _ c b)

  -- Whatever a host answers, and whether the answer raises or not, the cache stays within its byte
  -- budget, its total is the sum of the sizes of its bodies, every body has one size, and
  -- validators are held only with a body.
  pub finish-IsBounded :
      (url : String) (f : Flight) (answer : Answer) (c : Cache)
      → IsBounded c
      → IsBounded (finish getsizeof url f answer c).cache_after
  unfolding finish
  finish-IsBounded url f answer c b =
      let c' = (answered getsizeof url f answer c).cache_after in
      with_rest (Dict.remove url c'.inflight) c'.warned c' (answered-IsBounded url f answer c b)

fetch-IsBounded :
    (url : String) (user_agent : Option String) (follow : Bool) (c : Cache)
    → IsBounded c
    → IsBounded (fetch url user_agent follow c).0
unfolding fetch
fetch-IsBounded url user_agent follow c b = elim (Bool-cases (Dict.has url c.inflight)) [
  | inl e ↦ rw (fetch, e) b
  | inr e ↦ rw (fetch, e) (with_rest _ c.warned c b)
]

-- A call keeps the cache within its byte budget and rightly counted, whether it is served, shares
-- the fetch of another or asks the host.
pub call-IsBounded :
    (url : String) (user_agent : Option String) (follow revalidate : Bool) (c : Cache)
    → IsBounded c
    → IsBounded (call url user_agent follow revalidate c).0
unfolding call
call-IsBounded url user_agent follow revalidate c b = cached (Dict.get url c.cache) revalidate
  where
    cached :
        (body : Option String) (revalidate : Bool)
        → IsBounded (call_cached body url user_agent follow revalidate c).0
    cached none revalidate = fetch-IsBounded url user_agent follow c b
    cached (some body) true = fetch-IsBounded url user_agent follow c b
    cached (some body) false = move_to_end-IsBounded url c b
