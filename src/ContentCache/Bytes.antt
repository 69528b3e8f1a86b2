-- ===== src/ContentCache/Bytes.antt =====
-- The byte budget of `CAPContentCache` (providers/cap_content_cache.py).
use cap_alerts.Prelude.{
  ℕ, zero, suc, ◌+◌, ◌≤◌, ◌≡◌, inl, inr, refl, sym, ◌∙◌, subst, ap, String, true, false, not, ◌&&◌,
  ◌||◌, none, some, [], ◌∷◌, ◌==◌, arith, eq_iff, eq_refl, ltb, if◌then◌else◌, Bool-cases,
  Option-cases,
}
use cap_alerts.Prelude.Lists.{length}
use cap_alerts.Dict
use cap_alerts.Dict.{Dict, Distinct}
use cap_alerts.Dict.Laws.{has-put, has-remove, Distinct-put, Distinct-remove, length-remove}
use cap_alerts.ContentCache.Cache.{Cache, size_in, evict, shrink, inserted, oldest, no_entries}

unfoldable pub sum : Dict ℕ → ℕ
sum [] = 0
sum ((url, size) ∷ sizes) = size + sum sizes

sum-remove_absent :
    (url : String) (sizes : Dict ℕ)
    → Dict.has url sizes ≡ false
    → sum (Dict.remove url sizes) ≡ sum sizes
unfolding sum Dict.remove Dict.has
sum-remove_absent url [] a = refl
sum-remove_absent url ((k, n) ∷ sizes) a = ground (arith, sum-remove_absent url sizes)

sum-remove :
    (url : String) (sizes : Dict ℕ)
    → Distinct sizes
    → sum (Dict.remove url sizes) + size_in (Dict.get url sizes) ≡ sum sizes
unfolding sum Dict.remove Dict.get
sum-remove url [] d = refl
sum-remove url ((k, n) ∷ sizes) d = elim (Bool-cases (k == url)) [
  | inl e ↦
      let here : k ≡ url = (eq_iff k url).0 e in
      rw e (
        omega (arith, sum-remove_absent url sizes (subst (λ x. Dict.has x sizes ≡ false) here d.0)))
  | inr e ↦ rw e (omega (arith, sum-remove url sizes d.1))
]

sum-put :
    (url : String) (size : ℕ) (sizes : Dict ℕ)
    → Dict.has url sizes ≡ false
    → sum (Dict.put url size sizes) ≡ sum sizes + size
unfolding sum Dict.put Dict.has
sum-put url size [] a = omega arith
sum-put url size ((k, n) ∷ sizes) a = ground (arith, sum-put url size sizes)

sum_none : (sizes : Dict ℕ) → ((url : String) → Dict.has url sizes ≡ false) → sum sizes ≡ 0
unfolding sum Dict.has
sum_none [] a = refl
sum_none ((k, n) ∷ sizes) a = absurd (ground (arith, a k, eq_refl k))

-- Every body has one size, and the total is the sum of the sizes.
pub record IsCounted (c : Cache) : Type 0 where
  pub cache_once : Distinct c.cache
  pub sizes_once : Distinct c.sizes
  pub sized : (url : String) → Dict.has url c.sizes ≡ Dict.has url c.cache
  pub total : c.total_bytes ≡ sum c.sizes
  pub vouched : (url : String) → Dict.has url c.validators ≡ true → Dict.has url c.cache ≡ true

pub evict-IsCounted : (url : String) (c : Cache) → IsCounted c → IsCounted (evict url c)
unfolding evict
evict-IsCounted url c i = elim (Bool-cases (Dict.has url c.cache)) [
  | inl e ↦
      rw (evict, e)
        (record {
          cache_once = Distinct-remove url c.cache i.cache_once;
          sizes_once = Distinct-remove url c.sizes i.sizes_once;
          sized = λ u. rw (has-remove, has-remove) (ap (λ b. not (url == u) && b) (i.sized u));
          total = omega (arith, sum-remove url c.sizes i.sizes_once, i.total);
          vouched = λ u h.
              let both : (not (url == u) && Dict.has u c.validators) ≡ true =
                sym (has-remove url u c.validators) ∙ h in
              rw has-remove (ground (arith, i.vouched u));
        })
  | inr e ↦
      rw (evict, e)
        (record {
          cache_once = i.cache_once;
          sizes_once = i.sizes_once;
          sized = i.sized;
          total = i.total;
          vouched = λ u h.
              let both : (not (url == u) && Dict.has u c.validators) ≡ true =
                sym (has-remove url u c.validators) ∙ h in
              ground (arith, i.vouched u);
        })
]

pub shrink-IsCounted : (fuel : ℕ) (c : Cache) → IsCounted c → IsCounted (shrink fuel c)
unfolding shrink
shrink-IsCounted zero c i = i
shrink-IsCounted (suc fuel) c i = elim (Option-cases (oldest c.cache)) [
  | inl e ↦ rw (shrink, e) i
  | inr (url, e) ↦ elim (Bool-cases (ltb c.max_bytes c.total_bytes)) [
    | inl q ↦ rw (shrink, e, q) (shrink-IsCounted fuel (evict url c) (evict-IsCounted url c i))
    | inr q ↦ rw (shrink, e, q) i
  ]
]

pub evicted : (url : String) (c : Cache) → Dict.has url (evict url c).cache ≡ false
unfolding evict
evicted url c = elim (Bool-cases (Dict.has url c.cache)) [
  | inl e ↦ rw (evict, e, has-remove, eq_refl)
  | inr e ↦ rw (evict, e) e
]

pub inserted-IsCounted :
    (url body : String) (validators : Dict String) (size : ℕ) (c : Cache)
    → IsCounted c
    → Dict.has url c.cache ≡ false
    → IsCounted (inserted url body validators size c)
unfolding inserted
inserted-IsCounted url body validators size c i absent = record {
  cache_once = Distinct-put url body c.cache i.cache_once;
  sizes_once = Distinct-put url size c.sizes i.sizes_once;
  sized = λ u. rw (has-put, has-put) (ap (λ b. url == u || b) (i.sized u));
  total = omega (arith, sum-put url size c.sizes (i.sized url ∙ absent), i.total);
  vouched = λ u h. elim (Bool-cases (url == u)) [
    | inl e ↦ rw (has-put, e)
    | inr e ↦ rw (has-put, e) (i.vouched u (vouched_before u h e))
  ];
}
  where
    vouched_before :
        (u : String)
        → Dict.has u
            (if no_entries validators then c.validators else Dict.put url validators c.validators)
          ≡ true
        → (url == u) ≡ false
        → Dict.has u c.validators ≡ true
    vouched_before u h e = elim (Bool-cases (no_entries validators)) [
      | inl q ↦
          subst
            (λ b.
              Dict.has u (if b then c.validators else Dict.put url validators c.validators) ≡ true)
            q h
      | inr q ↦
          let put_in =
            subst
              (λ b.
                Dict.has u (if b then c.validators else Dict.put url validators c.validators)
                ≡ true)
              q h in
          let both : (url == u || Dict.has u c.validators) ≡ true =
            sym (has-put url u validators c.validators) ∙ put_in in
          ground arith
    ]

pub evict-max_bytes : (url : String) (c : Cache) → (evict url c).max_bytes ≡ c.max_bytes
unfolding evict
evict-max_bytes url c = elim (Bool-cases (Dict.has url c.cache)) [
  | inl e ↦ rw (evict, e)
  | inr e ↦ rw (evict, e)
]

pub shrink-max_bytes : (fuel : ℕ) (c : Cache) → (shrink fuel c).max_bytes ≡ c.max_bytes
unfolding shrink
shrink-max_bytes zero c = refl
shrink-max_bytes (suc fuel) c = elim (Option-cases (oldest c.cache)) [
  | inl e ↦ rw (shrink, e)
  | inr (url, e) ↦ elim (Bool-cases (ltb c.max_bytes c.total_bytes)) [
    | inl q ↦ rw (shrink, e, q) (shrink-max_bytes fuel (evict url c) ∙ evict-max_bytes url c)
    | inr q ↦ rw (shrink, e, q)
  ]
]

oldest-has : (url : String) (d : Dict String) → oldest d ≡ some url → Dict.has url d ≡ true
unfolding Dict.has
oldest-has url [] e = absurd (ground arith)
oldest-has url ((k, body) ∷ d) e = let h : k ≡ url = cc e in rw (h, eq_refl)

unheld : (d : Dict String) → length d ≡ 0 → (url : String) → Dict.has url d ≡ false
unfolding Dict.has
unheld [] e url = refl
unheld ((k, body) ∷ d) e url = absurd (omega (arith, e))

unheld_oldest : (d : Dict String) → oldest d ≡ none → (url : String) → Dict.has url d ≡ false
unfolding Dict.has
unheld_oldest [] e url = refl
unheld_oldest ((k, body) ∷ d) e url = absurd (ground arith)

-- The loop ends within the budget: enough rounds are as many as there are bodies.
pub shrink_lem :
    (fuel : ℕ) (c : Cache)
    → IsCounted c
    → length c.cache ≤ fuel
    → (shrink fuel c).total_bytes ≤ c.max_bytes
unfolding shrink
shrink_lem zero c i n =
    omega (arith, i.total, sum_none c.sizes (λ url. i.sized url ∙ unheld c.cache (omega arith) url))
shrink_lem (suc fuel) c i n = elim (Option-cases (oldest c.cache)) [
  | inl e ↦
      rw (shrink, e)
        (omega
          (arith, i.total, sum_none c.sizes (λ url. i.sized url ∙ unheld_oldest c.cache e url)))
  | inr (url, e) ↦ elim (Bool-cases (ltb c.max_bytes c.total_bytes)) [
    | inl q ↦
        rw (shrink, e, q)
          (subst (λ m. (shrink fuel (evict url c)).total_bytes ≤ m) (evict-max_bytes url c)
            (shrink_lem fuel (evict url c) (evict-IsCounted url c i)
              (fewer url (oldest-has url c.cache e))))
    | inr q ↦ rw (shrink, e, q) (ground arith)
  ]
]
  where
    fewer : (url : String) → Dict.has url c.cache ≡ true → length (evict url c).cache ≤ fuel
    fewer url h = unfold evict in rw h (omega (arith, n, length-remove url c.cache h))
