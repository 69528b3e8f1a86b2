-- ===== src/GeometryStore/Budget.antt =====
-- The byte budget of `GeometryStore` (geometry_store.py), and whom an eviction touches.
use Prim.Native.String.{count}
use cap_alerts.Prelude.{
  ℕ, zero, suc, ◌≤◌, String, ◌≡◌, refl, sym, ◌∙◌, ◌⊎◌, inl, inr, true, false, not, ◌&&◌, none, some,
  [], ◌∷◌, arith, ◌==◌, eq_iff, eq_refl, Bool-cases, Option-cases, ltb,
}
use cap_alerts.Prelude.Lists.{length}
use mathlib.Core.Bool.{false≢true}
use native.Mathlib.Nat.{le_refl}
use cap_alerts.Dict
use cap_alerts.Dict.{Dict}
use cap_alerts.Dict.Laws.{get-put, get-remove, length-remove}
use cap_alerts.Model.Json.{Members}
use cap_alerts.GeometryStore.Evict.{
  GeometryStore, owner_of, amount, drop, evict_loop, oldest, evict_owner_to_cap, written,
  put_serialized,
}

-- The owner's only ref, if any, is the one to keep.
abbrev pub OnlyKept : String → String → Dict Members → Type 0
OnlyKept owner keep entries =
    (ref : String) → Dict.has ref entries ≡ true → (owner_of ref == owner) ≡ true → ref ≡ keep

oldest-OnlyKept :
    (owner keep : String) (entries : Dict Members)
    → oldest owner keep entries ≡ none
    → OnlyKept owner keep entries
unfolding oldest Dict.has
oldest-OnlyKept owner keep [] e ref h o = absurd (ground arith)
oldest-OnlyKept owner keep ((r, geometry) ∷ entries) e ref h o = elim (Bool-cases (r == ref)) [
  | inl q ↦
      let here : r ≡ ref = (eq_iff r ref).0 q in
      let mine : (owner_of r == owner) ≡ true = rw here o in
      rw (← here) (ground (arith, eq_iff r keep, mine))
  | inr q ↦ oldest-OnlyKept owner keep entries (ground arith) ref (rw q at h) o
]

-- What is evicted is another ref of the same owner.
oldest_lem :
    (owner keep ref : String) (entries : Dict Members)
    → oldest owner keep entries ≡ some ref
    → (Dict.has ref entries ≡ true) × ((ref == keep) ≡ false) × ((owner_of ref == owner) ≡ true)
unfolding oldest Dict.has
oldest_lem owner keep ref [] e = absurd (ground arith)
oldest_lem owner keep ref ((r, geometry) ∷ entries) e =
    elim (Bool-cases (not (r == keep) && owner_of r == owner)) [
      | inl q ↦
          let here : r ≡ ref = ground (arith, rw q at e) in
          (rw ((eq_iff r ref).1 here), rw (← here) (ground arith), rw (← here) (ground arith))
      | inr q ↦
          let (h, k, o) = oldest_lem owner keep ref entries (rw q at e) in (ground arith, k, o)
    ]

-- The store is within its owner's budget, or holds nothing of the owner's but the ref to keep.
abbrev pub Fits : String → String → GeometryStore → Type 0
Fits owner keep g = (amount owner g.owner_bytes ≤ g.max_bytes) ⊎ OnlyKept owner keep g.entries

evict_loop-Fits :
    (fuel : ℕ) (owner keep : String) (g : GeometryStore)
    → length g.entries ≤ fuel
    → Fits owner keep (evict_loop fuel owner keep g).0
unfolding evict_loop
evict_loop-Fits zero owner keep g n = inr (nothing g.entries n)
  where
    nothing : (entries : Dict Members) → length entries ≤ 0 → OnlyKept owner keep entries
    nothing [] n ref h o = absurd (no_ref h)
      where
        no_ref : Dict.has {V = Members} ref [] ≡ true → ⊥
        no_ref h = unfold Dict.has in cc h
    nothing (x ∷ entries) n ref h o = absurd (omega arith)
evict_loop-Fits (suc fuel) owner keep g n =
    elim (Bool-cases (ltb g.max_bytes (amount owner g.owner_bytes))) [
      | inr q ↦ rw (evict_loop, q) (inl (ground arith))
      | inl q ↦ elim (Option-cases (oldest owner keep g.entries)) [
        | inl e ↦ rw (evict_loop, q, e) (inr (oldest-OnlyKept owner keep g.entries e))
        | inr (ref, e) ↦
            rw (evict_loop, q, e)
              (evict_loop-Fits fuel owner keep (drop ref g) (
                unfold drop in
                omega
                  (arith, length-remove ref g.entries (oldest_lem owner keep ref g.entries e).0)))
      ]
    ]

-- The refs that an eviction must not touch: the one to keep, and those of other owners.
abbrev pub Spared : String → String → String → Type 0
Spared owner keep ref = ((ref == keep) ≡ true) ⊎ ((owner_of ref == owner) ≡ false)

Spared-ne :
    (owner keep victim ref : String)
    → (victim == keep) ≡ false
    → (owner_of victim == owner) ≡ true
    → Spared owner keep ref
    → (victim == ref) ≡ false
Spared-ne owner keep victim ref k o s = elim (Bool-cases (victim == ref)) [
  | inr q ↦ q
  | inl q ↦ absurd (clash s ((eq_iff victim ref).0 q))
]
  where
    clash : Spared owner keep ref → victim ≡ ref → ⊥
    clash (inl e) here = false≢true (sym k ∙ rw here e)
    clash (inr e) here = false≢true (sym (rw here e) ∙ o)

evict_loop_spares :
    (fuel : ℕ) (owner keep ref : String) (g : GeometryStore)
    → Spared owner keep ref
    → Dict.get ref (evict_loop fuel owner keep g).0.entries ≡ Dict.get ref g.entries
unfolding evict_loop
evict_loop_spares zero owner keep ref g s = refl
evict_loop_spares (suc fuel) owner keep ref g s =
    elim (Bool-cases (ltb g.max_bytes (amount owner g.owner_bytes))) [
      | inr q ↦ rw (evict_loop, q)
      | inl q ↦ elim (Option-cases (oldest owner keep g.entries)) [
        | inl e ↦ rw (evict_loop, q, e)
        | inr (victim, e) ↦
            let (h, k, o) = oldest_lem owner keep victim g.entries e in
            rw (evict_loop, q, e)
              (evict_loop_spares fuel owner keep ref (drop victim g) s
                ∙ unfold drop in rw (get-remove, Spared-ne owner keep victim ref k o s))
      ]
    ]

get-written :
    (ref : String) (geometry : Members) (size : ℕ) (g : GeometryStore)
    → Dict.get ref (written ref geometry size g).entries ≡ some geometry
unfolding written
get-written ref geometry size g = rw (get-put, eq_refl)

-- After a polygon is written, its owner is within the byte budget, or the polygon is the only one
-- of its owner's that is stored. Either way the polygon itself is stored.
pub put_serialized-Fits :
    (ref : String) (geometry : Members) (serialized : String) (g : GeometryStore)
    → Fits (owner_of ref) ref (put_serialized ref geometry serialized g)
      × (Dict.get ref (put_serialized ref geometry serialized g).entries ≡ some geometry)
unfolding put_serialized evict_owner_to_cap
put_serialized-Fits ref geometry serialized g =
    let g' = written ref geometry (count serialized) g in
    (
      evict_loop-Fits (length g'.entries) (owner_of ref) ref g' (le_refl (length g'.entries)),
      evict_loop_spares (length g'.entries) (owner_of ref) ref ref g' (inl (eq_refl ref))
          ∙ get-written ref geometry (count serialized) g,
    )

foreign_ne :
    (ref other : String) → (owner_of other == owner_of ref) ≡ false → (ref == other) ≡ false
foreign_ne ref other foreign = elim (Bool-cases (ref == other)) [
  | inr q ↦ q
  | inl q ↦
      absurd (false≢true (sym foreign ∙ rw ((eq_iff ref other).0 q) (eq_refl (owner_of other))))
]

get-written_other :
    (ref other : String) (geometry : Members) (size : ℕ) (g : GeometryStore)
    → (ref == other) ≡ false
    → Dict.get other (written ref geometry size g).entries ≡ Dict.get other g.entries
unfolding written drop
get-written_other ref other geometry size g ne = elim (Bool-cases (Dict.has ref g.entries)) [
  | inl q ↦ rw (written, q, get-put, ne, get-remove, ne)
  | inr q ↦ rw (written, q, get-put, ne)
]

-- Writing a polygon leaves every polygon of the other owners as it was.
pub put_serialized_isolated :
    (ref other : String) (geometry : Members) (serialized : String) (g : GeometryStore)
    → (owner_of other == owner_of ref) ≡ false
    → Dict.get other (put_serialized ref geometry serialized g).entries ≡ Dict.get other g.entries
unfolding put_serialized evict_owner_to_cap
put_serialized_isolated ref other geometry serialized g foreign =
    let g' = written ref geometry (count serialized) g in
    evict_loop_spares (length g'.entries) (owner_of ref) ref other g' (inr foreign)
    ∙ get-written_other ref other geometry (count serialized) g (foreign_ne ref other foreign)
