-- ===== src/Dict/Restrict.antt =====
-- The laws of the restriction of a dictionary.
use cap_alerts.Prelude.{
  String, ◌≡◌, ◌∙◌, refl, sym, ap, inl, inr, Bool-cases, subst, Bool, true, false, none, some, [],
  ◌∷◌, arith, ◌==◌, eq_iff, Option, if◌then◌else◌,
}
use cap_alerts.Dict.Laws.{get-absent, absent-get}
use cap_alerts.Dict.{Dict, get, has, put, restrict, Distinct, Every}

module _ {ℓ} {V : Type ℓ} where
  pub has-restrict :
      (p : String → V → Bool) (k : String) (d : Dict V)
      → has k d ≡ false
      → has k (restrict p d) ≡ false
  unfolding has restrict
  has-restrict p k [] h = refl
  has-restrict p k ((i, w) ∷ d) h = ground (arith, has-restrict p k d)

  pub Every-restrict :
      (P : String → V → Type 0) (p : String → V → Bool) (d : Dict V)
      → Every P d
      → Every P (restrict p d)
  unfolding restrict
  Every-restrict P p [] h = tt
  Every-restrict P p ((i, w) ∷ d) h = elim (Bool-cases (p i w)) [
    | inl e ↦ rw e (h.0, Every-restrict P p d h.1)
    | inr e ↦ rw e (Every-restrict P p d h.1)
  ]

  -- What is kept passes the test.
  pub restrict-Every :
      (p : String → V → Bool) (d : Dict V) → Every (λ k v. p k v ≡ true) (restrict p d)
  unfolding restrict
  restrict-Every p [] = tt
  restrict-Every p ((i, w) ∷ d) = elim (Bool-cases (p i w)) [
    | inl e ↦ rw e (e, restrict-Every p d)
    | inr e ↦ rw e (restrict-Every p d)
  ]

  -- The lookup of what a restriction keeps.
  abbrev pub passing : (String → V → Bool) → String → Option V → Option V
  passing p k none = none
  passing p k (some v) = if p k v then some v else none

  pub get-restrict-passing :
      (p : String → V → Bool) (k : String) (d : Dict V)
      → Distinct d
      → get k (restrict p d) ≡ passing p k (get k d)
  unfolding get restrict
  get-restrict-passing p k [] h = refl
  get-restrict-passing p k ((i, w) ∷ d) h = elim (Bool-cases (i == k)) [
    | inl e ↦
        let same = (eq_iff i k).0 e in
        let fresh : has k d ≡ false = subst (λ j. has j d ≡ false) same h.0 in
        let alike : p k w ≡ p i w = ap (λ j. p j w) (sym same) in
        elim (Bool-cases (p i w)) [
          | inl f ↦ rw (f, e, alike ∙ f) refl
          | inr f ↦ rw (f, e, alike ∙ f) (get-absent k (restrict p d) (has-restrict p k d fresh))
        ]
    | inr e ↦ elim (Bool-cases (p i w)) [
      | inl f ↦ rw (f, e) (get-restrict-passing p k d h.1)
      | inr f ↦ rw (f, e) (get-restrict-passing p k d h.1)
    ]
  ]

  pub get-restrict_kept :
      (p : String → V → Bool) (k : String) (v : V) (d : Dict V)
      → get k d ≡ some v
      → p k v ≡ true
      → get k (restrict p d) ≡ some v
  unfolding get restrict
  get-restrict_kept p k v [] h q = absurd (ground arith)
  get-restrict_kept p k v ((i, w) ∷ d) h q = elim (Bool-cases (i == k)) [
    | inl e ↦
        let kept : p i w ≡ true =
          subst (λ j. p j w ≡ true) (sym ((eq_iff i k).0 e))
            (subst (λ u. p k u ≡ true) (ground arith) q) in
        rw kept (rw e (rw e at h))
    | inr e ↦
        let rest : get k (restrict p d) ≡ some v = get-restrict_kept p k v d (rw e at h) q in
        elim (Bool-cases (p i w)) [ inl f ↦ rw (f, e) rest | inr f ↦ rw f rest ]
  ]

  pub has-restrict_kept :
      (p : String → V → Bool) (k : String) (v : V) (d : Dict V)
      → get k d ≡ some v
      → p k v ≡ true
      → has k (restrict p d) ≡ true
  unfolding get has restrict
  has-restrict_kept p k v [] h q = absurd (ground arith)
  has-restrict_kept p k v ((i, w) ∷ d) h q = elim (Bool-cases (i == k)) [
    | inl e ↦
        let kept : p i w ≡ true =
          subst (λ j. p j w ≡ true) (sym ((eq_iff i k).0 e))
            (subst (λ u. p k u ≡ true) (ground arith) q) in
        rw kept (rw e refl)
    | inr e ↦
        let rest : has k (restrict p d) ≡ true = has-restrict_kept p k v d (rw e at h) q in
        elim (Bool-cases (p i w)) [ inl f ↦ rw (f, e) rest | inr f ↦ rw f rest ]
  ]

  pub get-restrict_absent :
      (p : String → V → Bool) (k : String) (d : Dict V)
      → get k d ≡ none
      → get k (restrict p d) ≡ none
  get-restrict_absent p k d h = get-absent k (restrict p d) (has-restrict p k d (absent-get k d h))

  -- A test that a key passes with any value.
  pub restrict-put :
      (p : String → V → Bool) (k : String) (v : V) (d : Dict V)
      → ((w : V) → p k w ≡ true)
      → restrict p (put k v d) ≡ put k v (restrict p d)
  unfolding restrict put
  restrict-put p k v [] t = rw (t v) refl
  restrict-put p k v ((j, w) ∷ d) t = elim (Bool-cases (j == k)) [
    | inl e ↦
        let same : k ≡ j = sym ((eq_iff j k).0 e) in
        let passes : (w : V) → p j w ≡ true = subst (λ x. (w : V) → p x w ≡ true) same t in
        rw (e, passes v, passes w, e) refl
    | inr e ↦ elim (Bool-cases (p j w)) [
      | inl f ↦ rw (e, f, e) (ap (λ rest. (j, w) ∷ rest) (restrict-put p k v d t))
      | inr f ↦ rw (e, f) (restrict-put p k v d t)
    ]
  ]

  pub get-restrict :
      (p : String → V → Bool) (k : String) (d : Dict V)
      → ((w : V) → p k w ≡ true)
      → get k (restrict p d) ≡ get k d
  unfolding restrict get
  get-restrict p k [] t = refl
  get-restrict p k ((j, w) ∷ d) t = elim (Bool-cases (j == k)) [
    | inl e ↦
        let same : k ≡ j = sym ((eq_iff j k).0 e) in
        let passes : p j w ≡ true = subst (λ x. p x w ≡ true) same (t w) in rw (passes, e) refl
    | inr e ↦ elim (Bool-cases (p j w)) [
      | inl f ↦ rw (f, e) (get-restrict p k d t)
      | inr f ↦ rw (f, e) (get-restrict p k d t)
    ]
  ]
