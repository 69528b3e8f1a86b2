-- ===== src/Payload/Cuts.antt =====
-- What a shortened text is: a prefix and an ellipsis (payload.py).
use Prim.Native.Char.{Char, len_utf8}
use Prim.Native.String.{len, count}
use Prim.Native.String.len.{nil, cons}
use text.Mathlib.Text.{starts_with}
use text.Mathlib.TextLemmas.{nil-append, cons-append, append_assoc, length-append, length-cons}
use text.Mathlib.TextPositions.{len-append}
use cap_alerts.Prelude.{
  ℕ, ◌+◌, ◌-◌, ◌≤◌, ◌<◌, ◌≡◌, inl, inr, refl, sym, ap, ◌∙◌, String, false, none, some, ◌==◌, arith,
  leb, eq_iff, is_empty, Bool-cases, Option-cases,
}
use cap_alerts.Prelude.Text.{concat}
use cap_alerts.Payload.Trim.{
  prefix_within, truncate_bytes, without_ellipsis, before_last, cut_at_name_boundary, shortened,
}

pub len-cons : (c : Char) (s : String) → len (String.◌∷◌ c s) ≡ len_utf8 c + len s
len-cons c s = λ i. cons c s i

pub len-nil : len "" ≡ 0
len-nil = λ i. nil i

-- The text is a prefix of the whole.
abbrev pub IsPrefix : String → String → Type 0
IsPrefix short text = (rest : String) × (concat short rest ≡ text)

-- `result` is a prefix of the text and an ellipsis, of `limit` bytes at most.
abbrev pub Cut : String → ℕ → String → Type 0
Cut text limit result =
    (short : String) × (IsPrefix short text) × (result ≡ concat short "…") × (len short + 3 ≤ limit)

prefix_within-IsPrefix : (n : ℕ) (text : String) → IsPrefix (prefix_within n text) text
unfolding prefix_within
prefix_within-IsPrefix n String.[] = ("", nil-append "")
prefix_within-IsPrefix n (String.◌∷◌ c text) = elim (Bool-cases (leb (len_utf8 c) n)) [
  | inl e ↦
      let (rest, whole) = prefix_within-IsPrefix (n - len_utf8 c) text in
      rw e (
        rest,
        cons-append c (prefix_within (n - len_utf8 c) text) rest ∙ ap (λ t. String.◌∷◌ c t) whole,
      )
  | inr e ↦ rw e (String.◌∷◌ c text, nil-append (String.◌∷◌ c text))
]

pub len-prefix_within : (n : ℕ) (text : String) → len (prefix_within n text) ≤ n
unfolding prefix_within
len-prefix_within n String.[] = rw len-nil (omega arith)
len-prefix_within n (String.◌∷◌ c text) = elim (Bool-cases (leb (len_utf8 c) n)) [
  | inl e ↦
      let fits : len_utf8 c ≤ n = ground arith in
      rw (e, len-cons c (prefix_within (n - len_utf8 c) text))
        (omega (arith, len-prefix_within (n - len_utf8 c) text, fits))
  | inr e ↦ rw (e, len-nil) (omega arith)
]

-- A text that is too long is cut to a prefix and an ellipsis within the limit.
pub truncate_bytes-Cut :
    (text : String) (limit_bytes : ℕ)
    → is_empty text ≡ false
    → limit_bytes < len text
    → 3 < limit_bytes
    → Cut text limit_bytes (truncate_bytes text limit_bytes)
unfolding truncate_bytes
truncate_bytes-Cut text limit_bytes filled long room =
    let long' : leb (len text) limit_bytes ≡ false = ground arith in
    let room' : leb limit_bytes 3 ≡ false = ground arith in
    rw (truncate_bytes, filled, long', room')
      (
        prefix_within (limit_bytes - 3) text,
        prefix_within-IsPrefix (limit_bytes - 3) text,
        refl,
        omega (arith, len-prefix_within (limit_bytes - 3) text, room),
      )

longer : (c : Char) (short : String) → (String.◌∷◌ c (concat short "…") == "…") ≡ false
longer c short = elim (Bool-cases (String.◌∷◌ c (concat short "…") == "…")) [
  | inr q ↦ q
  | inl q ↦
      let same = ap count ((eq_iff (String.◌∷◌ c (concat short "…")) "…").0 q) in
      absurd (omega (arith, same, length-cons c (concat short "…"), length-append short "…", one))
]
  where
    one : count "…" ≡ 1
    one = refl

without_ellipsis-concat : (short : String) → without_ellipsis (concat short "…") ≡ short
unfolding without_ellipsis
without_ellipsis-concat String.[] = refl
without_ellipsis-concat (String.◌∷◌ c short) =
    ap without_ellipsis (cons-append c short "…")
    ∙ rw (longer c short) (ap (λ t. String.◌∷◌ c t) (without_ellipsis-concat short))

not_found : {s : String} → none ≡ some s → ⊥
not_found e = cc e

before_last-IsPrefix :
    (text before : String) → before_last text ≡ some before → IsPrefix before text
unfolding before_last
before_last-IsPrefix String.[] before e = absurd (ground arith)
before_last-IsPrefix (String.◌∷◌ c text) before e = elim (Option-cases (before_last text)) [
  | inl f ↦ elim (Bool-cases (starts_with (String.◌∷◌ c text) ", ")) [
    | inl g ↦
        let none_before : "" ≡ before = cc (rw (f, g) at e) in
        rw (← none_before) (String.◌∷◌ c text, nil-append (String.◌∷◌ c text))
    | inr g ↦ absurd (not_found (rw (f, g) at e))
  ]
  | inr (shorter, f) ↦
      let same : String.◌∷◌ c shorter ≡ before = cc (rw f at e) in
      let (rest, whole) = before_last-IsPrefix text shorter f in
      rw (← same) (rest, cons-append c shorter rest ∙ ap (λ t. String.◌∷◌ c t) whole)
]

IsPrefix-trans : (a b c : String) → IsPrefix a b → IsPrefix b c → IsPrefix a c
IsPrefix-trans a b c (rest, e) (more, f) =
    (concat rest more, sym (append_assoc a rest more) ∙ rw e f)

IsPrefix-len : (a b : String) → IsPrefix a b → len a ≤ len b
IsPrefix-len a b (rest, e) = rw (← e) (omega (arith, len-append a rest))

cut_at_name_boundary-Cut :
    (text result : String) (limit : ℕ)
    → Cut text limit result
    → Cut text limit (cut_at_name_boundary result)
unfolding cut_at_name_boundary
cut_at_name_boundary-Cut text result limit (short, prefix, e, fits) =
    let body : without_ellipsis result ≡ short =
      ap without_ellipsis e ∙ without_ellipsis-concat short in
    elim (Option-cases (before_last short)) [
      | inl f ↦ rw (body, f) (short, prefix, e, fits)
      | inr (before, f) ↦ elim (Bool-cases (is_empty before)) [
        | inl g ↦ rw (body, f, g) (short, prefix, e, fits)
        | inr g ↦
            let first = before_last-IsPrefix short before f in
            rw (body, f, g)
              (
                before,
                IsPrefix-trans before short text first prefix,
                refl,
                omega (arith, IsPrefix-len before short first, fits),
              )
      ]
    ]

-- A field of which at least 160 bytes may stay keeps a prefix and an ellipsis within them.
pub shortened-Cut :
    (key text : String) (room : ℕ)
    → is_empty text ≡ false
    → room < len text
    → 3 < room
    → Cut text room (shortened key text room)
unfolding truncate_bytes cut_at_name_boundary
shortened-Cut key text room filled long enough =
    let cut = truncate_bytes-Cut text room filled long enough in
    elim (Bool-cases (key == "area_desc")) [
      | inl e ↦ rw e (cut_at_name_boundary-Cut text (truncate_bytes text room) room cut)
      | inr e ↦ rw e cut
    ]
