-- ===== src/Payload/Longest.antt =====
-- Cutting a text keeps as much of it as fits (payload.py).
use Prim.Native.Char.{Char, len_utf8}
use Prim.Native.String.{len}
use text.Mathlib.TextLemmas.{nil-append, cons-append}
use cap_alerts.Prelude.{
  ℕ, ◌+◌, ◌-◌, ◌≤◌, ◌<◌, ◌≡◌, ◌⊎◌, inl, inr, refl, ap, ◌∙◌, String, false, arith, leb, eq_iff,
  is_empty, Bool-cases,
}
use cap_alerts.Prelude.Text.{concat}
use cap_alerts.Payload.Trim.{prefix_within, truncate_bytes}
use cap_alerts.Payload.Cuts.{len-cons, len-nil, len-prefix_within}

-- `result` is a prefix of the text and an ellipsis, of `limit` bytes at most, and with the next
-- character of the text the prefix would be too long.
abbrev pub LongestCut : String → ℕ → String → Type 0
LongestCut text limit result =
    (short : String) × (c : Char) × (rest : String) × (concat short (String.◌∷◌ c rest) ≡ text)
    × (result ≡ concat short "…")
    × (len short + 3 ≤ limit)
    × (limit < len short + len_utf8 c + 3)

prefix_within_longest :
    (n : ℕ) (text : String)
    → n < len text
    → (c : Char) × (rest : String) × (concat (prefix_within n text) (String.◌∷◌ c rest) ≡ text)
      × (n < len (prefix_within n text) + len_utf8 c)
unfolding prefix_within
prefix_within_longest n String.[] long = absurd (omega (arith, long, len-nil))
prefix_within_longest n (String.◌∷◌ c text) long = elim (Bool-cases (leb (len_utf8 c) n)) [
  | inl e ↦
      let fits : len_utf8 c ≤ n = ground arith in
      let short = prefix_within (n - len_utf8 c) text in
      let more : n - len_utf8 c < len text = omega (arith, long, fits, len-cons c text) in
      let (next, rest, whole, over) = prefix_within_longest (n - len_utf8 c) text more in
      rw e (
        next,
        rest,
        cons-append c short (String.◌∷◌ next rest) ∙ ap (λ t. String.◌∷◌ c t) whole,
        omega (arith, over, fits, len-cons c short),
      )
  | inr e ↦
      let over : n < len_utf8 c = ground arith in
      rw e (c, text, nil-append (String.◌∷◌ c text), omega (arith, over, len-nil))
]

truncate_bytes-LongestCut :
    (text : String) (limit_bytes : ℕ)
    → is_empty text ≡ false
    → limit_bytes < len text
    → 3 < limit_bytes
    → LongestCut text limit_bytes (truncate_bytes text limit_bytes)
unfolding truncate_bytes
truncate_bytes-LongestCut text limit_bytes filled long room =
    let long' : leb (len text) limit_bytes ≡ false = ground arith in
    let room' : leb limit_bytes 3 ≡ false = ground arith in
    let (c, rest, whole, over) =
      prefix_within_longest (limit_bytes - 3) text (omega (arith, long)) in
    rw (truncate_bytes, filled, long', room')
      (
        prefix_within (limit_bytes - 3) text,
        c,
        rest,
        whole,
        refl,
        omega (arith, len-prefix_within (limit_bytes - 3) text, room),
        omega (arith, over, room),
      )

-- For a limit of more than three bytes: a text within the limit is left as it is, and a longer one is
-- cut to a prefix of it and an ellipsis, which are within the limit and would not be with one more
-- character of the text.
pub truncate_bytes-bounded :
    (text : String) (limit_bytes : ℕ)
    → 3 < limit_bytes
    → ((len text ≤ limit_bytes) × (truncate_bytes text limit_bytes ≡ text))
      ⊎ ((limit_bytes < len text) × LongestCut text limit_bytes (truncate_bytes text limit_bytes))
unfolding truncate_bytes
truncate_bytes-bounded text limit_bytes room = elim (Bool-cases (is_empty text)) [
  | inl e ↦
      let nothing : text ≡ "" = (eq_iff text "").0 e in
      inl (rw (nothing, len-nil) (omega arith), rw (truncate_bytes, e) refl)
  | inr e ↦ elim (Bool-cases (leb (len text) limit_bytes)) [
    | inl f ↦ inl (ground arith, rw (truncate_bytes, e, f) refl)
    | inr f ↦ inr (ground arith, truncate_bytes-LongestCut text limit_bytes e (ground arith) room)
  ]
]
