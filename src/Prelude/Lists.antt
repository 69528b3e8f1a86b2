-- ===== src/Prelude/Lists.antt =====
-- Lists measured by native numbers, and Boolean searches that run in tests.
use Prim.Native.Nat.{ℕ, suc, ◌+◌}
use Prim.Native.String.{String}
use mathlib.Core.Path.{◌≡◌, sym, subst}
use mathlib.Core.Logic.{◌⊎◌, inl, inr}
use mathlib.Core.Bool.{Bool, false, ◌||◌}
use mathlib.Core.List.{List, [], ◌∷◌, ◌++◌}
use native.Mathlib.Omega.{arith}
use text.Mathlib.Text.{◌==◌}
use cap_alerts.Prelude.Tests.{if◌then◌else◌, if_either}

module _ {ℓ} {A : Type ℓ} where
  abbrev pub length : List A → ℕ
  length [] = 0
  length (x ∷ xs) = suc (length xs)

  pub length-append : (xs ys : List A) → length (xs ++ ys) ≡ length xs + length ys
  length-append [] ys = omega arith
  length-append (x ∷ xs) ys = omega (arith, length-append xs ys)

  -- `[x for x in xs if p x]`
  abbrev pub keep_if : (A → Bool) → List A → List A
  keep_if p [] = []
  keep_if p (x ∷ xs) = let rest = keep_if p xs in if p x then x ∷ rest else rest

  -- `any(p x for x in xs)`
  abbrev pub any : (A → Bool) → List A → Bool
  any p [] = false
  any p (x ∷ xs) = p x || any p xs

  abbrev pub All {κ} : (A → Type κ) → List A → Type κ
  All P [] = Unit
  All P (x ∷ xs) = P x × All P xs

module _ {A : Type 0} where
  -- An element stands in a list.
  abbrev pub Among : A → List A → Type 0
  Among x [] = ⊥
  Among x (y ∷ ys) = (x ≡ y) ⊎ Among x ys

  pub Among-append_left : (x : A) (xs ys : List A) → Among x xs → Among x (xs ++ ys)
  Among-append_left x [] ys a = absurd a
  Among-append_left x (y ∷ xs) ys (inl e) = inl e
  Among-append_left x (y ∷ xs) ys (inr a) = inr (Among-append_left x xs ys a)

  pub Among-append_right : (x : A) (xs ys : List A) → Among x ys → Among x (xs ++ ys)
  Among-append_right x [] ys a = a
  Among-append_right x (y ∷ xs) ys a = inr (Among-append_right x xs ys a)

  pub All-Among {κ} : (P : A → Type κ) (xs : List A) (x : A) → All P xs → Among x xs → P x
  All-Among P [] x h a = absurd a
  All-Among P (y ∷ xs) x h (inl e) = subst P (sym e) h.0
  All-Among P (y ∷ xs) x h (inr a) = All-Among P xs x h.1 a

module _ {ℓ κ} {A : Type ℓ} (P : A → Type κ) where
  pub All-append : (xs ys : List A) → All P xs → All P ys → All P (xs ++ ys)
  All-append [] ys a b = b
  All-append (x ∷ xs) ys a b = (a.0, All-append xs ys a.1 b)

module _ {ℓ κ} {A : Type ℓ} (P : A → Type κ) (p : A → Bool) where
  pub All-keep_if : (xs : List A) → All P xs → All P (keep_if p xs)
  All-keep_if [] h = tt
  All-keep_if (x ∷ xs) (h, hs) =
      if_either (All P) (p x) {x = x ∷ keep_if p xs} (h, All-keep_if xs hs) (All-keep_if xs hs)

-- `s in xs` for texts.
abbrev pub contains : String → List String → Bool
contains s = any (λ t. t == s)
