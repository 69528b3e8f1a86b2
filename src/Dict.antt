-- ===== src/Dict.antt =====
-- Python's insertion-ordered `dict` with text keys, and a `set` of texts as its keys: an
-- assignment to a key that is there keeps its place, a new key goes to the end.
pub mod Laws
pub mod Restrict
use cap_alerts.Prelude.{
  ℕ, suc, String, ◌≡◌, Bool, true, false, ◌||◌, Option, none, some, List, [], ◌∷◌, ◌++◌, ◌==◌,
  if◌then◌else◌,
}

abbrev pub Dict {ℓ} : Type ℓ → Type ℓ
Dict V = List (String × V)

module _ {ℓ} {V : Type ℓ} where
  -- `d.get(k)`
  unfoldable pub get : String → Dict V → Option V
  get k [] = none
  get k ((j, v) ∷ d) = if j == k then some v else get k d

  -- `k in d`
  unfoldable pub has : String → Dict V → Bool
  has k [] = false
  has k ((j, v) ∷ d) = j == k || has k d

  -- `d[k] = v`
  unfoldable pub put : String → V → Dict V → Dict V
  put k v [] = (k, v) ∷ []
  put k v ((j, w) ∷ d) = if j == k then (j, v) ∷ d else (j, w) ∷ put k v d

  -- `d.pop(k, None)`
  unfoldable pub remove : String → Dict V → Dict V
  remove k [] = []
  remove k ((j, v) ∷ d) = let rest = remove k d in if j == k then rest else (j, v) ∷ rest

  -- `{k: v for k, v in d.items() if p k v}`
  unfoldable pub restrict : (String → V → Bool) → Dict V → Dict V
  restrict p [] = []
  restrict p ((j, v) ∷ d) = let rest = restrict p d in if p j v then (j, v) ∷ rest else rest

  unfoldable pub values : Dict V → List V
  values [] = []
  values ((j, v) ∷ d) = v ∷ values d

  unfoldable pub keys : Dict V → List String
  keys [] = []
  keys ((j, v) ∷ d) = j ∷ keys d

  -- No key stands twice, as in every dict that the program builds.
  abbrev pub Distinct : Dict V → Type 0
  Distinct [] = Unit
  Distinct ((k, v) ∷ d) = (has k d ≡ false) × Distinct d

  -- Every entry satisfies a predicate of its key and value.
  abbrev pub Every : (String → V → Type 0) → Dict V → Type 0
  Every P [] = Unit
  Every P ((k, v) ∷ d) = P k v × Every P d
