-- ===== src/Cap/Superseded.antt =====
-- What a revision chain resolves to (providers/cap.py).
use mathlib.Core.Bool.{false≢true}
use cap_alerts.Prelude.{
  ℕ, zero, suc, ◌+◌, ◌≤◌, ◌<◌, ◌≡◌, inl, inr, refl, sym, ◌∙◌, ap, subst, String, Bool, true, false,
  not, ◌||◌, List, [], ◌∷◌, ◌++◌, ◌==◌, map, arith, Bool-cases,
}
use cap_alerts.Prelude.Lists.{All, Among, All-Among, contains, keep_if}
use cap_alerts.Cap.Document.{CapDoc, identifier_of}
use cap_alerts.Cap.Chain.{referenced, is_leaf, or_all, resolve_chain_leaves}

abbrev pub refers : CapDoc → CapDoc → Bool
refers newer older = contains older.identifier (map identifier_of newer.references)

-- A document of the list refers to the other one, and so on: none, one or more times.
pub data Superseded (docs : List CapDoc) : CapDoc → CapDoc → Type 0 where
  itself : (doc : CapDoc) → Superseded docs doc doc
  through :
      (older newer newest : CapDoc)
      → Among newer docs
      → refers newer older ≡ true
      → Superseded docs newer newest
      → Superseded docs older newest

contains-append :
    (s : String) (xs ys : List String) → contains s (xs ++ ys) ≡ (contains s xs || contains s ys)
contains-append s [] ys = refl
contains-append s (x ∷ xs) ys = elim (Bool-cases (x == s)) [
  | inl e ↦ rw e refl
  | inr e ↦ rw e (contains-append s xs ys)
]

-- What is referred to is referred to by a document of the list.
referrer :
    (identifier : String) (docs : List CapDoc)
    → contains identifier (referenced docs) ≡ true
    → (doc : CapDoc) × Among doc docs
      × (contains identifier (map identifier_of doc.references) ≡ true)
unfolding referenced
referrer identifier [] e = absurd (false≢true e)
referrer identifier (d ∷ docs) e =
    elim (Bool-cases (contains identifier (map identifier_of d.references))) [
      | inl f ↦ (d, inl refl, f)
      | inr f ↦
          let split =
            contains-append identifier (map identifier_of d.references) (referenced docs) in
          let rest : contains identifier (referenced docs) ≡ true = rw f at (sym split ∙ e) in
          let (doc, here, refers) = referrer identifier docs rest in (doc, inr here, refers)
    ]

Among-keep_if :
    (p : CapDoc → Bool) (doc : CapDoc) (docs : List CapDoc)
    → Among doc docs
    → p doc ≡ true
    → Among doc (keep_if p docs)
Among-keep_if p doc [] a f = absurd a
Among-keep_if p doc (d ∷ docs) (inl e) f =
    let kept : p d ≡ true = ap p (sym e) ∙ f in rw kept (inl e)
Among-keep_if p doc (d ∷ docs) (inr a) f = elim (Bool-cases (p d)) [
  | inl g ↦ rw g (inr (Among-keep_if p doc docs a f))
  | inr g ↦ rw g (Among-keep_if p doc docs a f)
]

Among-or_all :
    (doc : CapDoc) (leaves docs : List CapDoc) → Among doc leaves → Among doc (or_all leaves docs)
Among-or_all doc [] docs a = absurd a
Among-or_all doc (leaf ∷ leaves) docs a = a

module _ (docs : List CapDoc) (age : CapDoc → ℕ) where
  -- A document is younger than those of the list to which it refers.
  abbrev pub IsOrdered : Type 0
  IsOrdered =
      All (λ newer. All (λ older. refers newer older ≡ true → age older < age newer) docs) docs

  -- A leaf that the resolution keeps stands at the end of the document's chain.
  abbrev pub Ends : CapDoc → Type 0
  Ends doc = (leaf : CapDoc) × Among leaf (resolve_chain_leaves docs) × Superseded docs doc leaf

  abbrev EndsInLeaf : CapDoc → Type 0
  EndsInLeaf doc =
      (leaf : CapDoc) × Among leaf (keep_if (is_leaf (referenced docs)) docs)
      × Superseded docs doc leaf

  climb :
      (bound fuel : ℕ) (doc : CapDoc)
      → IsOrdered
      → All (λ d. age d < bound) docs
      → Among doc docs
      → bound ≤ age doc + fuel
      → EndsInLeaf doc
  climb bound zero doc ordered below here enough =
      absurd (omega (arith, enough, All-Among (λ d. age d < bound) docs doc below here))
  climb bound (suc fuel) doc ordered below here enough =
      elim (Bool-cases (contains doc.identifier (referenced docs))) [
        | inr e ↦
            (doc, Among-keep_if (is_leaf (referenced docs)) doc docs here (ap not e), itself doc)
        | inl e ↦
            let (newer, there, refers) = referrer doc.identifier docs e in
            let younger = All-Among _ docs doc (All-Among _ docs newer ordered there) here refers in
            let (leaf, kept, chain) =
              climb bound fuel newer ordered below there (omega (arith, enough, younger)) in
            (leaf, kept, through doc newer leaf there refers chain)
      ]

  bounded : (ds : List CapDoc) → (bound : ℕ) × All (λ d. age d < bound) ds
  bounded [] = (0, tt)
  bounded (d ∷ ds) =
      let (bound, below) = bounded ds in
      (
        bound + suc (age d),
        (omega arith, All-wider ds bound (bound + suc (age d)) (omega arith) below),
      )
    where
      All-wider :
          (ds : List CapDoc) (n m : ℕ) → n ≤ m → All (λ d. age d < n) ds → All (λ d. age d < m) ds
      All-wider [] n m le h = tt
      All-wider (d ∷ ds) n m le h = (omega (arith, le, h.0), All-wider ds n m le h.1)

  keep_if-is_leaf :
      (ds : List CapDoc)
      → All
          (λ leaf. contains leaf.identifier (referenced docs) ≡ false)
          (keep_if (is_leaf (referenced docs)) ds)
  keep_if-is_leaf [] = tt
  keep_if-is_leaf (d ∷ ds) = elim (Bool-cases (contains d.identifier (referenced docs))) [
    | inl e ↦ rw e (keep_if-is_leaf ds)
    | inr e ↦ rw e (e, keep_if-is_leaf ds)
  ]

  no_fallback :
      (leaf : CapDoc) (leaves : List CapDoc) → Among leaf leaves → or_all leaves docs ≡ leaves
  no_fallback leaf [] a = absurd a
  no_fallback leaf (l ∷ leaves) a = refl

  -- If each document is younger than those of the list to which it refers, every document of the
  -- list is superseded by, or is itself, one that the resolution keeps, and no document of the list
  -- refers to one that it keeps.
  pub resolve_chain_leaves-Superseded :
      (doc : CapDoc)
      → IsOrdered
      → Among doc docs
      → Ends doc
        × All
            (λ leaf. contains leaf.identifier (referenced docs) ≡ false)
            (resolve_chain_leaves docs)
  unfolding resolve_chain_leaves
  resolve_chain_leaves-Superseded doc ordered here =
      let (bound, below) = bounded docs in
      let (leaf, kept, chain) = climb bound bound doc ordered below here (omega arith) in
      (
        (leaf, Among-or_all leaf (keep_if (is_leaf (referenced docs)) docs) docs kept, chain),
        subst (All (λ l. contains l.identifier (referenced docs) ≡ false))
            (sym (no_fallback leaf (keep_if (is_leaf (referenced docs)) docs) kept))
            (keep_if-is_leaf docs),
      )
