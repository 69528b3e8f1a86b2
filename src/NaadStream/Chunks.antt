-- ===== src/NaadStream/Chunks.antt =====
-- The documents do not depend on how the stream is cut into reads (providers/naad_stream.py).
use cap_alerts.Prelude.{
  ℕ, zero, suc, ◌≤◌, ◌<◌, ◌≡◌, inl, inr, refl, sym, ap, ◌∙◌, true, none, some, List, [], ◌∷◌, ◌++◌,
  arith, ltb, Bool-cases, Option-cases,
}
use cap_alerts.Prelude.Lists.{length, length-append}
use cap_alerts.NaadStream.Frames.{
  Chars, alert_start, alert_end, begins, from_first, through_first, keep_last, with_doc, took,
  finished, extract_loop,
}
use cap_alerts.NaadStream.Search.{
  begins-more, from_first-begins, from_first-length, from_first-more, from_first-keep_last,
  through_first-length, through_first-more,
}

-- The loop of `_extract_docs` with the rounds that it takes.
abbrev pub extracted : Chars → Chars × List Chars
extracted buffer = finished (extract_loop (suc (length buffer)) buffer)

pub shorter :
    (buffer text doc rest : Chars)
    → from_first alert_start buffer ≡ some text
    → through_first alert_end text ≡ some (doc, rest)
    → length rest < length buffer
shorter buffer text doc rest f t = omega (
  arith,
  from_first-length alert_start buffer text f,
  through_first-length alert_end text doc rest t,
)

-- With more fuel than the buffer is long the loop comes to a `break`.
extract_loop-finished :
    (n : ℕ) (buffer : Chars)
    → length buffer < n
    → extract_loop n buffer ≡ some (finished (extract_loop n buffer))
unfolding extract_loop
extract_loop-finished zero buffer h = absurd (omega arith)
extract_loop-finished (suc n) buffer h = elim (Option-cases (from_first alert_start buffer)) [
  | inl e ↦ rw (extract_loop, e)
  | inr (text, e) ↦ elim (Option-cases (through_first alert_end text)) [
    | inl f ↦ rw (extract_loop, e, f)
    | inr ((doc, rest), f) ↦
        let less = shorter buffer text doc rest e f in
        rw (extract_loop, e, f, extract_loop-finished n rest (omega arith)) refl
  ]
]

-- More fuel than that changes nothing.
extract_loop-enough :
    (n m : ℕ) (buffer : Chars)
    → length buffer < n
    → length buffer < m
    → extract_loop n buffer ≡ extract_loop m buffer
unfolding extract_loop
extract_loop-enough zero m buffer h k = absurd (omega arith)
extract_loop-enough (suc n) zero buffer h k = absurd (omega arith)
extract_loop-enough (suc n) (suc m) buffer h k =
    elim (Option-cases (from_first alert_start buffer)) [
      | inl e ↦ rw (extract_loop, e)
      | inr (text, e) ↦ elim (Option-cases (through_first alert_end text)) [
        | inl f ↦ rw (extract_loop, e, f)
        | inr ((doc, rest), f) ↦
            let less = shorter buffer text doc rest e f in
            rw (extract_loop, e, f)
              (ap (took doc) (extract_loop-enough n m rest (omega arith) (omega arith)))
      ]
    ]

extracted-none :
    (buffer : Chars)
    → from_first alert_start buffer ≡ none
    → extracted buffer ≡ (keep_last (length alert_start) buffer, [])
extracted-none buffer e = unfold extract_loop in rw (extract_loop, e)

extracted_open :
    (buffer text : Chars)
    → from_first alert_start buffer ≡ some text
    → through_first alert_end text ≡ none
    → extracted buffer ≡ (text, [])
extracted_open buffer text e f = unfold extract_loop in rw (extract_loop, e, f)

extracted_doc :
    (buffer text doc rest : Chars)
    → from_first alert_start buffer ≡ some text
    → through_first alert_end text ≡ some (doc, rest)
    → extracted buffer ≡ with_doc doc (extracted rest)
unfolding extract_loop
extracted_doc buffer text doc rest e f =
    let less = shorter buffer text doc rest e f in
    let same = extract_loop-enough (length buffer) (suc (length rest)) rest less (omega arith) in
    let done = extract_loop-finished (suc (length rest)) rest (omega arith) in
    rw (extract_loop, e, f) (ap (λ r. finished (took doc r)) (same ∙ done))

-- The loop sees nothing of a buffer before its first start tag.
extracted_same :
    (a b text : Chars)
    → from_first alert_start a ≡ some text
    → from_first alert_start b ≡ some text
    → extracted a ≡ extracted b
extracted_same a b text e f = elim (Option-cases (through_first alert_end text)) [
  | inl g ↦ extracted_open a text e g ∙ sym (extracted_open b text f g)
  | inr ((doc, rest), g) ↦
      extracted_doc a text doc rest e g ∙ sym (extracted_doc b text doc rest f g)
]

from_first_here :
    (pattern text : Chars) (c : ℕ)
    → begins pattern (c ∷ text) ≡ true
    → from_first pattern (c ∷ text) ≡ some (c ∷ text)
unfolding from_first
from_first_here pattern text c e = rw e

keep_last-append :
    (n : ℕ) (text more : Chars)
    → keep_last n (keep_last n text ++ more) ≡ keep_last n (text ++ more)
unfolding keep_last
keep_last-append n [] more = refl
keep_last-append n (c ∷ text) more = elim (Bool-cases (ltb n (length (c ∷ text)))) [
  | inr q ↦ rw (keep_last, q) refl
  | inl q ↦
      let longer : ltb n (length (c ∷ (text ++ more))) ≡ true =
        ground (arith, length-append text more) in
      rw (keep_last, q, longer) (keep_last-append n text more)
]

abbrev pub with_docs : List Chars → Chars × List Chars → Chars × List Chars
with_docs before (buffer, docs) = (buffer, before ++ docs)

-- A buffer without a start tag is as good as its last characters.
no_start :
    (buffer more : Chars)
    → from_first alert_start buffer ≡ none
    → extracted (buffer ++ more) ≡ extracted (keep_last (length alert_start) buffer ++ more)
no_start buffer more e =
    let same = from_first-keep_last alert_start buffer more e in
    elim (Option-cases (from_first alert_start (buffer ++ more))) [
      | inl f ↦
          extracted-none (buffer ++ more) f
          ∙ ap (λ tail. (tail, [])) (sym (keep_last-append (length alert_start) buffer more))
          ∙ sym (extracted-none (keep_last (length alert_start) buffer ++ more) (same ∙ f))
      | inr (text, f) ↦
          extracted_same (buffer ++ more) (keep_last (length alert_start) buffer ++ more) text f
            (same ∙ f)
    ]

again :
    (text more : Chars)
    → begins alert_start text ≡ true
    → from_first alert_start (text ++ more) ≡ some (text ++ more)
unfolding begins
again [] more b = ground arith
again (c ∷ text) more b =
    from_first_here alert_start (text ++ more) c (begins-more alert_start (c ∷ text) more b)

-- Extracting, and extracting again once more text is there, is one extraction of the whole text.
pub extract_loop-append :
    (n : ℕ) (buffer more : Chars)
    → length buffer ≤ n
    → extracted (buffer ++ more)
      ≡ with_docs (extracted buffer).1 (extracted ((extracted buffer).0 ++ more))
extract_loop-append zero [] more h = unfold extract_loop in refl
extract_loop-append zero (c ∷ buffer) more h = absurd (omega arith)
extract_loop-append (suc n) buffer more h = elim (Option-cases (from_first alert_start buffer)) [
  | inl e ↦ rw (extracted-none buffer e) (no_start buffer more e)
  | inr (text, e) ↦ elim (Option-cases (through_first alert_end text)) [
    | inl f ↦ rw (extracted_open buffer text e f) (
        extracted_same (buffer ++ more) (text ++ more) (text ++ more)
          (from_first-more alert_start buffer text more e)
          (again text more (from_first-begins alert_start buffer text e)))
    | inr ((doc, rest), f) ↦
        let less = shorter buffer text doc rest e f in
        rw
          (
            extracted_doc buffer text doc rest e f,
            extracted_doc (buffer ++ more) (text ++ more) doc (rest ++ more)
                (from_first-more alert_start buffer text more e)
                (through_first-more alert_end text doc rest more f),
          )
          (ap (with_doc doc) (extract_loop-append n rest more (omega arith)))
  ]
]
