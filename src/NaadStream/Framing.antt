-- ===== src/NaadStream/Framing.antt =====
-- What one extraction takes out of the buffer, and what it leaves (providers/naad_stream.py).
use cap_alerts.Prelude.{
  ℕ, zero, suc, ◌≤◌, ◌<◌, ◌≡◌, ◌⊎◌, inl, inr, refl, sym, ap, ◌∙◌, true, false, Option, none, some,
  List, [], ◌∷◌, ◌++◌, append-nil, arith, ltb, Bool-cases, Option-cases,
}
use cap_alerts.Prelude.Lists.{length}
use cap_alerts.NaadStream.Frames.{
  Chars, alert_start, alert_end, begins, from_first, through_first, take, drop, keep_last, took,
  extract_loop,
}
use cap_alerts.NaadStream.Search.{
  begins-append, begins-more, from_first-begins, from_first-length, from_first-more,
  from_first-keep_last, after_char-some,
}
use cap_alerts.NaadStream.Chunks.{shorter}

-- A document begins with a start tag, and its first end tag ends it.
abbrev pub IsDoc : Chars → Type 0
IsDoc doc = (begins alert_start doc ≡ true) × (from_first alert_end doc ≡ some alert_end)

-- No document can be taken out of it.
abbrev pub IsTail : Chars → Type 0
IsTail tail =
    (from_first alert_start tail ≡ none)
    ⊎ ((begins alert_start tail ≡ true) × (through_first alert_end tail ≡ none))

-- The buffer is the documents, in this order, and the tail, with text before each that holds no
-- start tag.
abbrev pub Framed : Chars → List Chars → Chars → Type 0
Framed buffer [] tail =
    (before : Chars) × (buffer ≡ before ++ tail)
    × (from_first alert_start before ≡ none)
    × IsTail tail
Framed buffer (doc ∷ docs) tail =
    (before : Chars) × (rest : Chars) × (buffer ≡ before ++ (doc ++ rest))
    × (from_first alert_start before ≡ none)
    × IsDoc doc
    × Framed rest docs tail

module _ (pattern : Chars) where
  from_first-before :
      (text found : Chars)
      → from_first pattern text ≡ some found
      → (before : Chars) × (text ≡ before ++ found) × (from_first pattern before ≡ none)
  unfolding from_first
  from_first-before [] found e = absurd (ground arith)
  from_first-before (c ∷ text) found e = elim (Bool-cases (begins pattern (c ∷ text))) [
    | inl q ↦ ([], cc (rw q at e), refl)
    | inr q ↦
        let (before, whole, nothing) = from_first-before text found (rw q at e) in
        let not_here : begins pattern (c ∷ before) ≡ false =
          elim (Bool-cases (begins pattern (c ∷ before))) [
            | inr r ↦ r
            | inl r ↦
                let here = begins-more pattern (c ∷ before) found r in absurd (cc (here, whole, q))
          ] in
        (c ∷ before, ap (λ t. c ∷ t) whole, rw not_here nothing)
  ]

  from_first-prefix :
      (before more : Chars)
      → from_first pattern (before ++ more) ≡ none
      → from_first pattern before ≡ none
  from_first-prefix before more e = elim (Option-cases (from_first pattern before)) [
    | inl f ↦ f
    | inr (found, f) ↦ absurd (cc (from_first-more pattern before found more f, e))
  ]

begins-take :
    (pattern text : Chars) → begins pattern text ≡ true → take (length pattern) text ≡ pattern
unfolding begins take
begins-take [] text e = refl
begins-take (p ∷ pattern) [] e = absurd (ground arith)
begins-take (p ∷ pattern) (c ∷ text) e =
    let first : c ≡ p = ground arith in
    let others : begins pattern text ≡ true = ground arith in
    rw (first, begins-take pattern text others) refl

take-drop : (n : ℕ) (text : Chars) → take n text ++ drop n text ≡ text
unfolding take drop
take-drop zero text = refl
take-drop (suc n) [] = refl
take-drop (suc n) (c ∷ text) = ap (λ t. c ∷ t) (take-drop n text)

keep_last-before : (n : ℕ) (text : Chars) → (before : Chars) × (text ≡ before ++ keep_last n text)
unfolding keep_last
keep_last-before n [] = ([], refl)
keep_last-before n (c ∷ text) = elim (Bool-cases (ltb n (length (c ∷ text)))) [
  | inr q ↦ ([], rw (keep_last, q) refl)
  | inl q ↦
      let (before, whole) = keep_last-before n text in
      (c ∷ before, rw (keep_last, q) (ap (λ t. c ∷ t) whole))
]

doc_of :
    {a b c d : Chars}
    → ◌≡◌ {A = Option (Chars × Chars)} (some (a, b)) (some (c, d))
    → (a ≡ c) × (b ≡ d)
doc_of e = (cc e, cc e)

begins_same : (pattern : Chars) → begins pattern pattern ≡ true
unfolding begins
begins_same [] = refl
begins_same (p ∷ pattern) = ground (arith, begins_same pattern)

module _ (p : ℕ) (ps : Chars) where
  through_first-ends :
      (text doc rest : Chars)
      → through_first (p ∷ ps) text ≡ some (doc, rest)
      → (text ≡ doc ++ rest) × (from_first (p ∷ ps) doc ≡ some (p ∷ ps))
  unfolding through_first from_first
  through_first-ends [] doc rest e = absurd (ground arith)
  through_first-ends (c ∷ text) doc rest e = elim (Bool-cases (begins (p ∷ ps) (c ∷ text))) [
    | inl q ↦
        let (same, others) = doc_of (rw q at e) in
        let tag : p ∷ ps ≡ doc = sym (begins-take (p ∷ ps) (c ∷ text) q) ∙ same in
        (
          sym (take-drop (length (p ∷ ps)) (c ∷ text)) ∙ (λ i. same i ++ others i),
          rw (← tag, begins_same (p ∷ ps)) refl,
        )
    | inr q ↦
        let (doc', found, same) =
          after_char-some c (through_first (p ∷ ps) text) doc rest (rw q at e) in
        let (whole, first) = through_first-ends text doc' rest found in
        let not_here : begins (p ∷ ps) (c ∷ doc') ≡ false =
          elim (Bool-cases (begins (p ∷ ps) (c ∷ doc'))) [
            | inr r ↦ r
            | inl r ↦
                let here = begins-more (p ∷ ps) (c ∷ doc') rest r in absurd (cc (here, whole, q))
          ] in
        (
          ap (λ t. c ∷ t) whole ∙ ap (λ d. d ++ rest) same,
          ap (from_first (p ∷ ps)) (sym same) ∙ rw not_here first,
        )
  ]

taken-IsDoc :
    (text doc rest : Chars)
    → begins alert_start text ≡ true
    → through_first alert_end text ≡ some (doc, rest)
    → (text ≡ doc ++ rest) × IsDoc doc
taken-IsDoc text doc rest b e =
    let (whole, first) = through_first-ends _ _ text doc rest e in
    let long : length alert_start ≤ length doc =
      omega (arith, from_first-length alert_end doc alert_end first) in
    (whole, (sym (begins-append alert_start doc rest long) ∙ rw (← whole) b, first))

-- What the loop keeps of a buffer without a start tag.
kept-Framed :
    (buffer : Chars)
    → from_first alert_start buffer ≡ none
    → Framed buffer [] (keep_last (length alert_start) buffer)
kept-Framed buffer e =
    let tail = keep_last (length alert_start) buffer in
    let (before, whole) = keep_last-before (length alert_start) buffer in
    let nothing : from_first alert_start (before ++ tail) ≡ none = rw (← whole) e in
    let none_left : from_first alert_start tail ≡ none =
      ap (from_first alert_start) (sym (append-nil tail))
      ∙ from_first-keep_last alert_start buffer [] e
      ∙ ap (from_first alert_start) (append-nil buffer)
      ∙ e in
    (before, whole, from_first-prefix alert_start before tail nothing, inl none_left)

-- With more fuel than the buffer is long, the loop comes to a `break`. The buffer is then the
-- documents in their order and the tail, with text without a start tag before each: a document
-- begins with a start tag and its first end tag ends it, and the tail holds no start tag, or begins
-- with one and holds no end tag.
pub extract_loop-Framed :
    (n : ℕ) (buffer : Chars)
    → length buffer < n
    → (tail : Chars) × (docs : List Chars) × (extract_loop n buffer ≡ some (tail, docs))
      × Framed buffer docs tail
unfolding extract_loop
extract_loop-Framed zero buffer h = absurd (omega arith)
extract_loop-Framed (suc n) buffer h = elim (Option-cases (from_first alert_start buffer)) [
  | inl e ↦
      (keep_last (length alert_start) buffer, [], rw (extract_loop, e) refl, kept-Framed buffer e)
  | inr (text, e) ↦
      let (before, whole, nothing) = from_first-before alert_start buffer text e in
      let starts = from_first-begins alert_start buffer text e in
      elim (Option-cases (through_first alert_end text)) [
        | inl f ↦
            (text, [], rw (extract_loop, e, f) refl, (before, whole, nothing, inr (starts, f)))
        | inr ((doc, rest), f) ↦
            let less = shorter buffer text doc rest e f in
            let (tail, docs, runs, framed) = extract_loop-Framed n rest (omega arith) in
            let (split, is_doc) = taken-IsDoc text doc rest starts f in
            (
              tail,
              doc ∷ docs,
              rw (extract_loop, e, f) (ap (took doc) runs),
              (before, rest, whole ∙ ap (λ t. before ++ t) split, nothing, is_doc, framed),
            )
      ]
]
