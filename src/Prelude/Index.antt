-- ===== src/Prelude/Index.antt =====
-- Positions in a list: the element at one, the elements before one, and the first that passes a test.
use Prim.Native.Nat.{ℕ, zero, suc}
use mathlib.Core.Path.{◌≡◌, refl, subst}
use mathlib.Core.Logic.{inl, inr}
use mathlib.Core.Bool.{Bool, true, false}
use mathlib.Core.Option.{Option, none, some}
use mathlib.Core.List.{List, [], ◌∷◌}
use native.Mathlib.Omega.{arith}
use cap_alerts.Prelude.Tests.{if◌then◌else◌, Bool-cases, Option-cases}
use cap_alerts.Prelude.Lists.{All}

abbrev pub next : Option ℕ → Option ℕ
next none = none
next (some i) = some (suc i)

module _ {ℓ} {A : Type ℓ} where
  -- `xs[i]`, or `none` past the end.
  abbrev pub nth : ℕ → List A → Option A
  nth i [] = none
  nth zero (x ∷ xs) = some x
  nth (suc i) (x ∷ xs) = nth i xs

  -- `xs[:i]`
  abbrev pub until : ℕ → List A → List A
  until i [] = []
  until zero (x ∷ xs) = []
  until (suc i) (x ∷ xs) = x ∷ until i xs

  -- `next((i for i, x in enumerate(xs) if p x), None)`
  unfoldable pub first_index : (A → Bool) → List A → Option ℕ
  first_index p [] = none
  first_index p (x ∷ xs) = let rest = next (first_index p xs) in if p x then some 0 else rest

  pub first_index_never :
      (p : A → Bool) (xs : List A) → ((x : A) → p x ≡ false) → first_index p xs ≡ none
  unfolding first_index
  first_index_never p [] h = refl
  first_index_never p (x ∷ xs) h = rw (h x, first_index_never p xs h) refl

  pub first_index_same :
      (p q : A → Bool) (xs : List A) → ((x : A) → p x ≡ q x) → first_index p xs ≡ first_index q xs
  unfolding first_index
  first_index_same p q [] h = refl
  first_index_same p q (x ∷ xs) h = rw (h x, first_index_same p q xs h) refl

  pub first_index-none :
      (p : A → Bool) (xs : List A) → first_index p xs ≡ none → All (λ x. p x ≡ false) xs
  unfolding first_index
  first_index-none p [] e = tt
  first_index-none p (x ∷ xs) e = elim (Bool-cases (p x)) [
    | inl f ↦ absurd (no_index (rw f at e))
    | inr f ↦ elim (Option-cases (first_index p xs)) [
      | inl g ↦ (f, first_index-none p xs g)
      | inr (i, g) ↦ absurd (no_index (rw (f, g) at e))
    ]
  ]
    where
      no_index : {i : ℕ} → some i ≡ none → ⊥
      no_index e = cc e

  -- What is found passes the test, and nothing before it does.
  abbrev pub Found : (A → Bool) → List A → ℕ → Type ℓ
  Found p xs i = (x : A) × (nth i xs ≡ some x) × (p x ≡ true) × All (λ y. p y ≡ false) (until i xs)

  pub first_index-some :
      (p : A → Bool) (xs : List A) (i : ℕ) → first_index p xs ≡ some i → Found p xs i
  unfolding first_index
  first_index-some p [] i e = absurd (ground arith)
  first_index-some p (x ∷ xs) i e = elim (Bool-cases (p x)) [
    | inl f ↦ let same : 0 ≡ i = cc (rw f at e) in subst (Found p (x ∷ xs)) same (x, refl, f, tt)
    | inr f ↦ elim (Option-cases (first_index p xs)) [
      | inl g ↦ absurd (no_index (rw (f, g) at e))
      | inr (j, g) ↦
          let same : suc j ≡ i = cc (rw (f, g) at e) in
          let (y, here, passes, before) = first_index-some p xs j g in
          subst (Found p (x ∷ xs)) same (y, here, passes, (f, before))
    ]
  ]
    where
      no_index : {i : ℕ} → none ≡ some i → ⊥
      no_index e = cc e

module _ {ℓ κ} {A : Type ℓ} (P : A → Type κ) where
  pub All-until : (i : ℕ) (xs : List A) → All P xs → All P (until i xs)
  All-until i [] h = tt
  All-until zero (x ∷ xs) h = tt
  All-until (suc i) (x ∷ xs) h = (h.0, All-until i xs h.1)

  pub All-nth : (i : ℕ) (xs : List A) (x : A) → All P xs → nth i xs ≡ some x → P x
  All-nth i [] x h e = absurd (ground arith)
  All-nth zero (y ∷ xs) x h e = subst P (cc e) h.0
  All-nth (suc i) (y ∷ xs) x h e = All-nth i xs x h.1 e

module _ {ℓ κ} {A : Type ℓ} (P : A → Type κ) where
  pub All-of : (xs : List A) → ((x : A) → P x) → All P xs
  All-of [] h = tt
  All-of (x ∷ xs) h = (h x, All-of xs h)

module _ {ℓ κ μ ν} {A : Type ℓ} (P : A → Type κ) (Q : A → Type μ) (R : A → Type ν) where
  pub All-both : (xs : List A) → ((x : A) → P x → Q x → R x) → All P xs → All Q xs → All R xs
  All-both [] h p q = tt
  All-both (x ∷ xs) h p q = (h x p.0 q.0, All-both xs h p.1 q.1)
