-- ===== src/Cap/Preferred.antt =====
-- Which block the choice by language prefers (providers/cap.py).
use cap_alerts.Prelude.{
  ℕ, ◌≤◌, ◌<◌, ◌≡◌, inl, inr, refl, sym, ◌∙◌, ap, subst, String, ◌&&◌, Bool, false, not, Option,
  none, some, List, [], ◌∷◌, arith, eq_iff, is_empty, Bool-cases, Option-cases, if◌then◌else◌,
}
use cap_alerts.Prelude.Lists.{All}
use cap_alerts.Prelude.Index.{
  nth, until, first_index, first_index_never, first_index_same, first_index-none, first_index-some,
  All-until, All-nth, All-of, All-both,
}
use cap_alerts.Cap.Document.{CapInfo}
use cap_alerts.Cap.Language.{
  language_matches, spelled, in_english, wanted_index, or_index, select_index,
}

-- Three tests, tried one after the other over a list.
module _ {ℓ} {A : Type ℓ} (p q r : A → Bool) where
  abbrev score : A → ℕ
  score x = if p x then 3 else if q x then 2 else if r x then 1 else 0

  -- The element at a position scores most, and more than each before it.
  abbrev pub IsBest : List A → ℕ → Type ℓ
  IsBest xs i =
      (best : A) × (nth i xs ≡ some best)
      × All (λ x. score x ≤ score best) xs
      × All (λ x. score x < score best) (until i xs)

  found-IsBest :
      (xs : List A) (i n : ℕ) (best : A)
      → nth i xs ≡ some best
      → score best ≡ n
      → All (λ x. score x ≤ n) xs
      → All (λ x. score x < n) (until i xs)
      → IsBest xs i
  found-IsBest xs i n best at e most more = (best, at, rw e most, rw e more)

  abbrev Fails : (A → Bool) → List A → Type 0
  Fails t = All (λ x. t x ≡ false)

  score_3 : (x : A) → score x ≤ 3
  score_3 x = ground arith

  score_2 : (x : A) → p x ≡ false → score x ≤ 2
  score_2 x e = rw e (ground arith)

  score_1 : (x : A) → p x ≡ false → q x ≡ false → score x ≤ 1
  score_1 x e f = rw (e, f) (ground arith)

  below_3 : (x : A) → p x ≡ false → p x ≡ false → score x < 3
  below_3 x e f = rw e (ground arith)

  below_2 : (x : A) → p x ≡ false → q x ≡ false → score x < 2
  below_2 x e f = rw (e, f) (ground arith)

  below_1 : (x : A) → (p x ≡ false) × (q x ≡ false) → r x ≡ false → score x < 1
  below_1 x (e, f) g = rw (e, f, g) (omega arith)

  Fails-both : (xs : List A) → Fails p xs → Fails q xs → All (λ x. (p x ≡ false) × (q x ≡ false)) xs
  Fails-both xs = All-both _ _ (λ x. (p x ≡ false) × (q x ≡ false)) xs (λ x e f. (e, f))

  third-IsBest :
      (xs : List A) → Fails p xs → Fails q xs → (i : ℕ) → first_index r xs ≡ some i → IsBest xs i
  third-IsBest xs no_p no_q i e =
      let (best, at, passes, before) = first_index-some r xs i e in
      let f = All-nth (λ x. p x ≡ false) i xs best no_p at in
      let g = All-nth (λ x. q x ≡ false) i xs best no_q at in
      found-IsBest xs i 1 best at (rw (f, g, passes) refl)
        (All-both _ _ (λ x. score x ≤ 1) xs score_1 no_p no_q)
        (All-both _ _ (λ x. score x < 1) (until i xs) below_1
          (Fails-both (until i xs) (All-until _ i xs no_p) (All-until _ i xs no_q)) before)

  second-IsBest : (xs : List A) → Fails p xs → (i : ℕ) → first_index q xs ≡ some i → IsBest xs i
  second-IsBest xs no_p i e =
      let (best, at, passes, before) = first_index-some q xs i e in
      let f = All-nth (λ x. p x ≡ false) i xs best no_p at in
      found-IsBest xs i 2 best at (rw (f, passes) refl)
        (All-both _ _ (λ x. score x ≤ 2) xs (λ x g h. score_2 x g) no_p no_p)
        (All-both _ _ (λ x. score x < 2) (until i xs) below_2 (All-until _ i xs no_p) before)

  first-IsBest : (xs : List A) (i : ℕ) → first_index p xs ≡ some i → IsBest xs i
  first-IsBest xs i e =
      let (best, at, passes, before) = first_index-some p xs i e in
      found-IsBest xs i 3 best at (rw passes refl) (All-of _ xs score_3)
        (All-both _ _ (λ x. score x < 3) (until i xs) below_3 before before)

  pub chain-IsBest :
      (x : A) (xs : List A) (i : ℕ)
      → or_index
          (first_index p (x ∷ xs))
          (or_index (first_index q (x ∷ xs)) (or_index (first_index r (x ∷ xs)) (some 0)))
        ≡ some i
      → IsBest (x ∷ xs) i
  chain-IsBest x xs i e = elim (Option-cases (first_index p (x ∷ xs))) [
    | inr (j, f) ↦ first-IsBest (x ∷ xs) i (f ∙ rw f at e)
    | inl f ↦
        let no_p = first_index-none p (x ∷ xs) f in
        elim (Option-cases (first_index q (x ∷ xs))) [
          | inr (j, g) ↦ second-IsBest (x ∷ xs) no_p i (g ∙ rw (f, g) at e)
          | inl g ↦
              let no_q = first_index-none q (x ∷ xs) g in
              elim (Option-cases (first_index r (x ∷ xs))) [
                | inr (j, h) ↦ third-IsBest (x ∷ xs) no_p no_q i (h ∙ rw (f, g, h) at e)
                | inl h ↦
                    let no_r = first_index-none r (x ∷ xs) h in
                    let same : 0 ≡ i = cc (rw (f, g, h) at e) in
                    subst (IsBest (x ∷ xs)) same (
                      found-IsBest (x ∷ xs) 0 0 x refl (rw (no_p.0, no_q.0, no_r.0) refl)
                        (All-both _ _ (λ y. score y ≤ 0) (x ∷ xs)
                          (λ y k l. omega (arith, below_1 y k l)) (Fails-both (x ∷ xs) no_p no_q)
                          no_r)
                        tt)
              ]
        ]
  ]

or_index_assoc : (a b c : Option ℕ) → or_index a (or_index b c) ≡ or_index (or_index a b) c
or_index_assoc none b c = refl
or_index_assoc (some i) b c = refl

module _ (fold : String → String) where
  -- Spelled as the language that is asked for, in the same language, and in English.
  abbrev pub same_spelling : String → CapInfo → Bool
  same_spelling language info = not (is_empty language) && spelled fold language info

  abbrev pub same_language : String → CapInfo → Bool
  same_language language info = language_matches fold info.language language

  matches_no_language : (info : String) → language_matches fold info "" ≡ false
  unfolding language_matches
  matches_no_language info = elim (Bool-cases (is_empty info)) [
    | inl e ↦ rw e refl
    | inr e ↦ rw e refl
  ]

  wanted_index_lem :
      (language : String) (infos : List CapInfo)
      → is_empty language ≡ false
      → wanted_index fold language infos
        ≡ or_index
            (first_index (spelled fold language) infos)
            (first_index (same_language language) infos)
  unfolding wanted_index
  wanted_index_lem language infos f =
      ap
        (λ b.
          if b
          then none
          else or_index (first_index (spelled fold language) infos)
              (first_index (same_language language) infos))
        f

  select_index-IsBest :
      (infos : List CapInfo) (language : String) (i : ℕ)
      → select_index fold infos language ≡ some i
      → IsBest (same_spelling language) (same_language language) (in_english fold) infos i
  unfolding select_index wanted_index
  select_index-IsBest [] language i e = absurd (ground arith)
  select_index-IsBest (info ∷ infos) language i e = elim (Bool-cases (is_empty language)) [
    | inl f ↦
        let p = first_index_never (same_spelling language) (info ∷ infos) (λ x. rw f refl) in
        let q =
          first_index_never (same_language language) (info ∷ infos)
            (λ x. rw ((eq_iff language "").0 f) (matches_no_language x.language)) in
        chain-IsBest (same_spelling language) (same_language language) (in_english fold) info infos
          i (rw (p, q) (rw f at e))
    | inr f ↦
        chain-IsBest (same_spelling language) (same_language language) (in_english fold) info infos
          i
          (ap
              (λ t. or_index t (
                or_index (first_index (same_language language) (info ∷ infos))
                  (or_index (first_index (in_english fold) (info ∷ infos)) (some 0))))
              (first_index_same (same_spelling language) (spelled fold language) (info ∷ infos)
                (λ x. rw f refl))
            ∙ or_index_assoc (first_index (spelled fold language) (info ∷ infos))
                (first_index (same_language language) (info ∷ infos))
                (or_index (first_index (in_english fold) (info ∷ infos)) (some 0))
            ∙ ap
                (λ t. or_index t (or_index (first_index (in_english fold) (info ∷ infos)) (some 0)))
                (sym (wanted_index_lem language (info ∷ infos) f))
            ∙ e)
  ]

  chain-some :
      (a b c : Option ℕ) → (i : ℕ) × (or_index a (or_index b (or_index c (some 0))) ≡ some i)
  chain-some (some i) b c = (i, refl)
  chain-some none (some i) c = (i, refl)
  chain-some none none (some i) = (i, refl)
  chain-some none none none = (0, refl)

  or_last : (a b : Option ℕ) → (i : ℕ) × (or_index a (or_index b (some 0)) ≡ some i)
  or_last a b = chain-some a none b

  -- A document with blocks has one that `select_info` chooses. It suits the language best, and
  -- better than each before it: a block that spells the language the same suits better than one in
  -- the same language, that one better than an English one, and that one better than any other.
  pub select_info-IsBest :
      (info : CapInfo) (infos : List CapInfo) (language : String)
      → (i : ℕ) × (select_index fold (info ∷ infos) language ≡ some i)
        × IsBest
            (same_spelling language)
            (same_language language)
            (in_english fold)
            (info ∷ infos)
            i
  unfolding select_index
  select_info-IsBest info infos language =
      let (i, e) =
        or_last (wanted_index fold language (info ∷ infos))
          (first_index (in_english fold) (info ∷ infos)) in
      (i, e, select_index-IsBest (info ∷ infos) language i e)
