-- ===== src/NaadStream/Search.antt =====
-- Finding a pattern in a text of which more may come, for `_extract_docs`
-- (providers/naad_stream.py).
use cap_alerts.Prelude.{
  ℕ, zero, suc, ◌+◌, ◌≤◌, ◌≡◌, inl, inr, refl, ap, ◌∙◌, true, Option, none, some, [], ◌∷◌, ◌++◌,
  arith, ltb, Bool-cases,
}
use cap_alerts.Prelude.Lists.{length}
use cap_alerts.NaadStream.Frames.{
  Chars, begins, from_first, take, drop, after_char, through_first, keep_last,
}

-- A text that is long enough begins with the pattern whatever follows it.
pub begins-append :
    (pattern text more : Chars)
    → length pattern ≤ length text
    → begins pattern (text ++ more) ≡ begins pattern text
unfolding begins
begins-append [] text more n = refl
begins-append (p ∷ pattern) [] more n = absurd (omega arith)
begins-append (p ∷ pattern) (c ∷ text) more n =
    ground (arith, begins-append pattern text more (omega arith))

pub begins-more :
    (pattern text more : Chars) → begins pattern text ≡ true → begins pattern (text ++ more) ≡ true
unfolding begins
begins-more [] text more e = refl
begins-more (p ∷ pattern) [] more e = ground arith
begins-more (p ∷ pattern) (c ∷ text) more e = ground (arith, begins-more pattern text more)

pub begins-length :
    (pattern text : Chars) → begins pattern text ≡ true → length pattern ≤ length text
unfolding begins
begins-length [] text e = omega arith
begins-length (p ∷ pattern) [] e = ground arith
begins-length (p ∷ pattern) (c ∷ text) e = ground (arith, begins-length pattern text)

length-drop : (n : ℕ) (text : Chars) → n ≤ length text → length (drop n text) + n ≡ length text
unfolding drop
length-drop zero text h = omega arith
length-drop (suc n) [] h = absurd (omega arith)
length-drop (suc n) (c ∷ text) h = omega (arith, length-drop n text (omega arith))

take-append : (n : ℕ) (text more : Chars) → n ≤ length text → take n (text ++ more) ≡ take n text
unfolding take
take-append zero text more h = refl
take-append (suc n) [] more h = absurd (omega arith)
take-append (suc n) (c ∷ text) more h = ap (λ t. c ∷ t) (take-append n text more (omega arith))

drop-append :
    (n : ℕ) (text more : Chars) → n ≤ length text → drop n (text ++ more) ≡ drop n text ++ more
unfolding drop
drop-append zero text more h = refl
drop-append (suc n) [] more h = absurd (omega arith)
drop-append (suc n) (c ∷ text) more h = drop-append n text more (omega arith)

split_of :
    {a b c d : Chars}
    → ◌≡◌ {A = Option (Chars × Chars)} (some (a, b)) (some (c, d))
    → ◌≡◌ {A = Chars × Chars} (a, b) (c, d)
split_of e = cc e

rest_of : {a b c d : Chars} → ◌≡◌ {A = Option (Chars × Chars)} (some (a, b)) (some (c, d)) → b ≡ d
rest_of e = cc e

pub after_char-some :
    (c : ℕ) (found : Option (Chars × Chars)) (doc rest : Chars)
    → after_char c found ≡ some (doc, rest)
    → (doc' : Chars) × (found ≡ some (doc', rest)) × (c ∷ doc' ≡ doc)
after_char-some c none doc rest e = absurd (ground arith)
after_char-some c (some (doc', rest')) doc rest e = (doc', cc e, cc e)

module _ (pattern : Chars) where
  pub from_first-begins :
      (text found : Chars) → from_first pattern text ≡ some found → begins pattern found ≡ true
  unfolding from_first
  from_first-begins [] found e = ground arith
  from_first-begins (c ∷ text) found e = elim (Bool-cases (begins pattern (c ∷ text))) [
    | inl q ↦ let same : c ∷ text ≡ found = cc (rw q at e) in rw (← same) q
    | inr q ↦ from_first-begins text found (rw q at e)
  ]

  pub from_first-length :
      (text found : Chars) → from_first pattern text ≡ some found → length found ≤ length text
  unfolding from_first
  from_first-length [] found e = ground arith
  from_first-length (c ∷ text) found e = elim (Bool-cases (begins pattern (c ∷ text))) [
    | inl q ↦ let same : c ∷ text ≡ found = cc (rw q at e) in rw (← same) (omega arith)
    | inr q ↦ omega (arith, from_first-length text found (rw q at e))
  ]

  pub from_first-more :
      (text found more : Chars)
      → from_first pattern text ≡ some found
      → from_first pattern (text ++ more) ≡ some (found ++ more)
  unfolding from_first
  from_first-more [] found more e = ground arith
  from_first-more (c ∷ text) found more e = elim (Bool-cases (begins pattern (c ∷ text))) [
    | inl q ↦
        let same : c ∷ text ≡ found = cc (rw q at e) in
        rw (begins-more pattern (c ∷ text) more q) (ap (λ f. some (f ++ more)) same)
    | inr q ↦
        let here = rw q at e in
        let fits : length pattern ≤ length (c ∷ text) = omega (
          arith,
          from_first-length text found here,
          begins-length pattern found (from_first-begins text found here),
        ) in
        rw (begins-append pattern (c ∷ text) more fits, q) (from_first-more text found more here)
  ]

  -- What a search that found nothing leaves to look at, once more text comes.
  pub from_first-keep_last :
      (text more : Chars)
      → from_first pattern text ≡ none
      → from_first pattern (keep_last (length pattern) text ++ more)
        ≡ from_first pattern (text ++ more)
  unfolding from_first keep_last
  from_first-keep_last [] more e = refl
  from_first-keep_last (c ∷ text) more e =
      elim (Bool-cases (ltb (length pattern) (length (c ∷ text)))) [
        | inr q ↦ rw (keep_last, q) refl
        | inl q ↦ elim (Bool-cases (begins pattern (c ∷ text))) [
          | inl r ↦ absurd (ground arith)
          | inr r ↦
              rw (keep_last, q, begins-append pattern (c ∷ text) more (ground arith), r)
                (from_first-keep_last text more (rw r at e))
        ]
      ]

  pub through_first-length :
      (text doc rest : Chars)
      → through_first pattern text ≡ some (doc, rest)
      → length rest + length pattern ≤ length text
  unfolding through_first
  through_first-length [] doc rest e = ground arith
  through_first-length (c ∷ text) doc rest e = elim (Bool-cases (begins pattern (c ∷ text))) [
    | inl q ↦
        let same : drop (length pattern) (c ∷ text) ≡ rest = rest_of (rw q at e) in
        rw (← same) (
          omega
            (arith, length-drop (length pattern) (c ∷ text) (begins-length pattern (c ∷ text) q)))
    | inr q ↦
        let (doc', found, _) =
          after_char-some c (through_first pattern text) doc rest (rw q at e) in
        omega (arith, through_first-length text doc' rest found)
  ]

  pub through_first-more :
      (text doc rest more : Chars)
      → through_first pattern text ≡ some (doc, rest)
      → through_first pattern (text ++ more) ≡ some (doc, rest ++ more)
  unfolding through_first
  through_first-more [] doc rest more e = ground arith
  through_first-more (c ∷ text) doc rest more e = elim (Bool-cases (begins pattern (c ∷ text))) [
    | inl q ↦
        let fits = begins-length pattern (c ∷ text) q in
        rw (begins-more pattern (c ∷ text) more q) (
          (λ i. some (
            take-append (length pattern) (c ∷ text) more fits i,
            drop-append (length pattern) (c ∷ text) more fits i,
          ))
          ∙ ap (λ (pair : Chars × Chars). some (pair.0, pair.1 ++ more)) (split_of (rw q at e)))
    | inr q ↦
        let (doc', found, same) =
          after_char-some c (through_first pattern text) doc rest (rw q at e) in
        let fits : length pattern ≤ length (c ∷ text) =
          omega (arith, through_first-length text doc' rest found) in
        rw
          (
            begins-append pattern (c ∷ text) more fits,
            q,
            through_first-more text doc' rest more found,
          )
          (ap (λ d. some (d, rest ++ more)) same)
  ]
