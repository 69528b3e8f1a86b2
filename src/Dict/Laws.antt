-- ===== src/Dict/Laws.antt =====
-- The laws of the dictionary operations.
use cap_alerts.Prelude.{
  suc, ◌≤◌, String, ◌≡◌, refl, ◌∙◌, ap, inl, inr, Bool-cases, subst, true, false, not, ◌&&◌, ◌||◌,
  none, some, [], ◌∷◌, ◌++◌, arith, ◌==◌, eq_iff, if◌then◌else◌,
}
use cap_alerts.Prelude.Lists.{length}
use cap_alerts.Dict.{Dict, get, has, put, remove, values, Distinct, Every}

module _ {ℓ} {V : Type ℓ} where
  pub get-put :
      (k j : String) (v : V) (d : Dict V) → get j (put k v d) ≡ (if k == j then some v else get j d)
  unfolding get put
  get-put k j v [] = refl
  get-put k j v ((i, w) ∷ d) = ground (arith, eq_iff k j, eq_iff i k, eq_iff i j, get-put k j v d)

  pub has-put : (k j : String) (v : V) (d : Dict V) → has j (put k v d) ≡ (k == j || has j d)
  unfolding has put
  has-put k j v [] = refl
  has-put k j v ((i, w) ∷ d) = ground (arith, eq_iff k j, eq_iff i k, eq_iff i j, has-put k j v d)

  pub get-remove :
      (k j : String) (d : Dict V) → get j (remove k d) ≡ (if k == j then none else get j d)
  unfolding get remove
  get-remove k j [] = ground arith
  get-remove k j ((i, w) ∷ d) = ground (arith, eq_iff k j, eq_iff i k, eq_iff i j, get-remove k j d)

  pub has-remove : (k j : String) (d : Dict V) → has j (remove k d) ≡ (not (k == j) && has j d)
  unfolding has remove
  has-remove k j [] = ground arith
  has-remove k j ((i, w) ∷ d) = ground (arith, eq_iff k j, eq_iff i k, eq_iff i j, has-remove k j d)

  -- A new key goes to the end.
  pub put_fresh : (k : String) (v : V) (d : Dict V) → has k d ≡ false → put k v d ≡ d ++ (k, v) ∷ []
  unfolding has put
  put_fresh k v [] h = refl
  put_fresh k v ((i, w) ∷ d) h = ground (arith, put_fresh k v d)

  pub has-get : (k : String) (v : V) (d : Dict V) → get k d ≡ some v → has k d ≡ true
  unfolding has get
  has-get k v [] h = ground arith
  has-get k v ((i, w) ∷ d) h = ground (arith, has-get k v d)

  pub get-absent : (k : String) (d : Dict V) → has k d ≡ false → get k d ≡ none
  unfolding has get
  get-absent k [] h = refl
  get-absent k ((i, w) ∷ d) h = ground (arith, get-absent k d)

  pub get-has : (k : String) (d : Dict V) → has k d ≡ true → (v : V) × (get k d ≡ some v)
  unfolding has get
  get-has k [] h = absurd (ground arith)
  get-has k ((i, w) ∷ d) h =
      elim (i == k)
          as (λ b. ((b || has k d) ≡ true) → (v : V) × ((if b then some w else get k d) ≡ some v)) [
            | true ↦ λ _. (w, refl)
            | false ↦ λ e. get-has k d e
          ]
        h

  pub values-append : (d e : Dict V) → values (d ++ e) ≡ values d ++ values e
  unfolding values
  values-append [] e = refl
  values-append ((i, w) ∷ d) e = ap (λ l. w ∷ l) (values-append d e)

  pub Distinct-put : (k : String) (v : V) (d : Dict V) → Distinct d → Distinct (put k v d)
  unfolding put
  Distinct-put k v [] h = (unfold has in refl, tt)
  Distinct-put k v ((i, w) ∷ d) h =
      ground (arith, Distinct-put k v d, has-put k i v d, eq_iff i k, eq_iff k i)

  pub Distinct-remove : (k : String) (d : Dict V) → Distinct d → Distinct (remove k d)
  unfolding remove
  Distinct-remove k [] h = tt
  Distinct-remove k ((i, w) ∷ d) h = ground (arith, Distinct-remove k d, has-remove k i d)

  pub Every-put :
      (P : String → V → Type 0) (k : String) (v : V) (d : Dict V)
      → Every P d
      → P k v
      → Every P (put k v d)
  unfolding put
  Every-put P k v [] h p = (p, tt)
  Every-put P k v ((i, w) ∷ d) h p = elim (Bool-cases (i == k)) [
    | inl e ↦ rw e (rw ((eq_iff i k).0 e) p, h.1)
    | inr e ↦ rw e (h.0, Every-put P k v d h.1 p)
  ]

  pub Every-remove :
      (P : String → V → Type 0) (k : String) (d : Dict V) → Every P d → Every P (remove k d)
  unfolding remove
  Every-remove P k [] h = tt
  Every-remove P k ((i, w) ∷ d) h = elim (Bool-cases (i == k)) [
    | inl e ↦ rw e (Every-remove P k d h.1)
    | inr e ↦ rw e (h.0, Every-remove P k d h.1)
  ]

  pub Every-get :
      (P : String → V → Type 0) (k : String) (v : V) (d : Dict V)
      → Every P d
      → get k d ≡ some v
      → P k v
  unfolding get
  Every-get P k v [] h e = absurd (ground arith)
  Every-get P k v ((i, w) ∷ d) h e = elim (Bool-cases (i == k)) [
    | inl q ↦ subst (P k) (ground arith) (subst (λ j. P j w) ((eq_iff i k).0 q) h.0)
    | inr q ↦ Every-get P k v d h.1 (rw q at e)
  ]

  pub absent-get : (k : String) (d : Dict V) → get k d ≡ none → has k d ≡ false
  unfolding get has
  absent-get k [] h = refl
  absent-get k ((i, w) ∷ d) h = ground (arith, absent-get k d)

  pub has_of_get : (k : String) (d e : Dict V) → get k d ≡ get k e → has k e ≡ true → has k d ≡ true
  has_of_get k d e h q = let found = get-has k e q in has-get k found.0 d (h ∙ found.1)

  length-remove_le : (k : String) (d : Dict V) → length (remove k d) ≤ length d
  unfolding remove
  length-remove_le k [] = omega arith
  length-remove_le k ((j, v) ∷ d) = ground (arith, length-remove_le k d)

  pub length-remove :
      (k : String) (d : Dict V) → has k d ≡ true → suc (length (remove k d)) ≤ length d
  unfolding has remove
  length-remove k [] h = absurd (ground arith)
  length-remove k ((j, v) ∷ d) h = elim (Bool-cases (j == k)) [
    | inl q ↦ rw q (omega (arith, length-remove_le k d))
    | inr q ↦ rw q (omega (arith, length-remove k d (rw q at h)))
  ]
