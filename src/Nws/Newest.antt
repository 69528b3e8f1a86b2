-- ===== src/Nws/Newest.antt =====
-- The equality of keys and the newest of some alerts (providers/nws_conventions.py).

use cap_alerts.Prelude.{
  ℕ, suc, ◌≤◌, ◌≡◌, inl, inr, refl, ◌∙◌, ap, String, Bool, true, false, ◌&&◌, Option, none, some,
  List, [], ◌∷◌, ◌==◌, arith, eq_iff, Bool-cases, if◌then◌else◌,
}
use cap_alerts.Prelude.Lists.{All, Among}
use cap_alerts.Model.{CapAlert}
use cap_alerts.Nws.Reissue.{Key, Recency, same_texts, same_key, is_later, recency, newest}
use cap_alerts.Time.{FromIso, parse_instant}

same_texts_lem : (ss ts : List String) → same_texts ss ts ≡ true → ss ≡ ts
unfolding same_texts
same_texts_lem [] [] e = refl
same_texts_lem [] (t ∷ ts) e = absurd (ground arith)
same_texts_lem (s ∷ ss) [] e = absurd (ground arith)
same_texts_lem (s ∷ ss) (t ∷ ts) e = elim (Bool-cases (s == t)) [
  | inl f ↦
      let here = (eq_iff s t).0 f in
      let rest = same_texts_lem ss ts (rw f at e) in ap (λ x. x ∷ ss) here ∙ ap (λ xs. t ∷ xs) rest
  | inr f ↦ absurd (ground arith)
]

and_parts : (a b : Bool) → (a && b) ≡ true → (a ≡ true) × (b ≡ true)
and_parts true b e = (refl, e)
and_parts false b e = absurd (ground arith)

pub same_key_lem : (k l : Key) → same_key k l ≡ true → k ≡ l
unfolding same_key
same_key_lem (a, b, cs) (a', b', cs') e =
    let (x, rest) = and_parts (a == a') (b == b' && same_texts cs cs') e in
    let (y, z) = and_parts (b == b') (same_texts cs cs') rest in
    ap (λ t. (t, b, cs)) ((eq_iff a a').0 x)
    ∙ ap (λ t. (a', t, cs)) ((eq_iff b b').0 y)
    ∙ ap (λ t. (a', b', t)) (same_texts_lem cs cs' z)

-- The time of a readable `sent`, before which every one that cannot be read counts.
abbrev pub level : Option ℕ → ℕ
level none = 0
level (some time) = suc time

later_level : (a b : Recency) → is_later a b ≡ true → level b.0 ≤ level a.0
later_level (none, i) (none, j) e = omega arith
later_level (none, i) (some t, j) e = absurd (ground arith)
later_level (some s, i) (none, j) e = omega arith
later_level (some s, i) (some t, j) e = ground arith

not_later_level : (a b : Recency) → is_later a b ≡ false → level a.0 ≤ level b.0
not_later_level (none, i) (none, j) e = omega arith
not_later_level (none, i) (some t, j) e = omega arith
not_later_level (some s, i) (none, j) e = absurd (ground arith)
not_later_level (some s, i) (some t, j) e = ground arith

module _ (from_iso : FromIso) where
  abbrev pub sent_level : CapAlert → ℕ
  sent_level alert = level (parse_instant from_iso alert.sent)

  -- The newest of some alerts is one of them, and none of them was sent later.
  abbrev pub IsNewest : CapAlert → List CapAlert → CapAlert → Type 0
  IsNewest first later best =
      Among best (first ∷ later) × All (λ alert. sent_level alert ≤ sent_level best) (first ∷ later)

  skip : (x y z : CapAlert) (ys : List CapAlert) → Among x (y ∷ ys) → Among x (y ∷ z ∷ ys)
  skip x y z ys (inl e) = inl e
  skip x y z ys (inr a) = inr (inr a)

  pub newest-IsNewest :
      (first : CapAlert) (later : List CapAlert)
      → IsNewest first later (newest from_iso first later)
  unfolding newest recency
  newest-IsNewest first [] = (inl refl, (omega arith, tt))
  newest-IsNewest first (alert ∷ later) =
      chosen (is_later (recency from_iso alert) (recency from_iso first)) refl
        (newest-IsNewest alert later) (newest-IsNewest first later)
    where
      chosen :
          (b : Bool)
          → is_later (recency from_iso alert) (recency from_iso first) ≡ b
          → IsNewest alert later (newest from_iso alert later)
          → IsNewest first later (newest from_iso first later)
          → IsNewest first (alert ∷ later) (newest from_iso (if b then alert else first) later)
      chosen true e (among, newest_of) h =
          let le = later_level (recency from_iso alert) (recency from_iso first) e in
          (inr among, (omega (arith, le, newest_of.0), newest_of))
      chosen false e h (among, newest_of) =
          let le = not_later_level (recency from_iso alert) (recency from_iso first) e in
          (
            skip (newest from_iso first later) first alert later among,
            (newest_of.0, (omega (arith, le, newest_of.0), newest_of.1)),
          )
