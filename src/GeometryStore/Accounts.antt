-- ===== src/GeometryStore/Accounts.antt =====
-- The byte accounts of `GeometryStore` (geometry_store.py): what an owner is charged is the sum of
-- the sizes of its refs, whatever the operations.
use Prim.Native.String.{count}
use cap_alerts.Prelude.{
  ℕ, zero, suc, ◌+◌, ◌-◌, String, ◌≡◌, refl, sym, ◌∙◌, subst, inl, inr, false, ◌||◌, Option, List,
  [], ◌∷◌, arith, ◌==◌, eq_iff, eq_refl, Bool-cases, Option-cases, ltb, if◌then◌else◌,
}
use cap_alerts.Prelude.Lists.{contains, length}
use cap_alerts.Dict
use cap_alerts.Dict.{Dict, Distinct}
use cap_alerts.Dict.Laws.{get-put, get-remove, has-put, has-remove, Distinct-put, Distinct-remove}
use cap_alerts.Model.Json.{Members}
use cap_alerts.GeometryStore.Evict.{
  GeometryStore, owner_of, amount, drop, evict_loop, oldest, evict_owner_to_cap, written,
  put_serialized, purge_refs, purge_missing, excepted, new_geometry_store,
}

-- The bytes of the refs of one owner.
unfoldable pub owner_total : String → Dict ℕ → ℕ
owner_total owner [] = 0
owner_total owner ((ref, size) ∷ sizes) =
    (if owner_of ref == owner then size else 0) + owner_total owner sizes

owner_total-remove_absent :
    (owner ref : String) (sizes : Dict ℕ)
    → Dict.has ref sizes ≡ false
    → owner_total owner (Dict.remove ref sizes) ≡ owner_total owner sizes
unfolding owner_total Dict.remove Dict.has
owner_total-remove_absent owner ref [] ne = refl
owner_total-remove_absent owner ref ((k, n) ∷ sizes) ne =
    ground (arith, owner_total-remove_absent owner ref sizes)

owner_total-remove :
    (owner ref : String) (sizes : Dict ℕ)
    → Distinct sizes
    → owner_total owner (Dict.remove ref sizes)
        + (if owner_of ref == owner then amount ref sizes else 0)
      ≡ owner_total owner sizes
unfolding owner_total Dict.remove Dict.get
owner_total-remove owner ref [] d = ground arith
owner_total-remove owner ref ((k, n) ∷ sizes) d = elim (Bool-cases (k == ref)) [
  | inl q ↦
      let here : k ≡ ref = (eq_iff k ref).0 q in
      rw
        (
          q,
          owner_total-remove_absent owner ref sizes
              (subst (λ j. Dict.has j sizes ≡ false) here d.0),
        )
        (rw here (omega arith))
  | inr q ↦ rw q (omega (arith, owner_total-remove owner ref sizes d.1))
]

owner_total-put :
    (owner ref : String) (size : ℕ) (sizes : Dict ℕ)
    → Dict.has ref sizes ≡ false
    → owner_total owner (Dict.put ref size sizes)
      ≡ owner_total owner sizes + (if owner_of ref == owner then size else 0)
unfolding owner_total Dict.put Dict.has
owner_total-put owner ref size [] ne = omega arith
owner_total-put owner ref size ((k, n) ∷ sizes) ne =
    let here : (k == ref) ≡ false = ground arith in
    rw here (omega (arith, owner_total-put owner ref size sizes (ground arith)))

-- Every stored ref has one size, and every owner is charged the bytes of its refs.
pub record IsAccounted (g : GeometryStore) : Type 0 where
  pub entries_once : Distinct g.entries
  pub sizes_once : Distinct g.sizes
  pub sized : (ref : String) → Dict.has ref g.sizes ≡ Dict.has ref g.entries
  pub charged : (owner : String) → amount owner g.owner_bytes ≡ owner_total owner g.sizes

pub new_geometry_store-IsAccounted :
    (max_bytes : Option ℕ) → IsAccounted (new_geometry_store max_bytes)
unfolding Dict.get Dict.has owner_total
new_geometry_store-IsAccounted max_bytes = record {
  entries_once = tt;
  sizes_once = tt;
  sized = λ ref. refl;
  charged = λ owner. refl;
}

charge :
    (owner o : String) (remaining : ℕ) (b : Dict ℕ)
    → amount o (if ltb 0 remaining then Dict.put owner remaining b else Dict.remove owner b)
      ≡ (if owner == o then remaining else amount o b)
charge owner o remaining b = elim (Bool-cases (ltb 0 remaining)) [
  | inl q ↦ rw (q, get-put) (ground arith)
  | inr q ↦ rw (q, get-remove) (ground arith)
]

charged_drop :
    (ref o : String) (g : GeometryStore)
    → IsAccounted g
    → (if owner_of ref == o
        then amount (owner_of ref) g.owner_bytes - amount ref g.sizes
        else amount o g.owner_bytes)
      ≡ owner_total o (Dict.remove ref g.sizes)
charged_drop ref o g a =
    let total = owner_total-remove o ref g.sizes a.sizes_once in
    elim (Bool-cases (owner_of ref == o)) [
      | inl q ↦
          let here : owner_of ref ≡ o = (eq_iff (owner_of ref) o).0 q in
          let less = rw q at total in rw (q, here) (omega (arith, a.charged o, less))
      | inr q ↦ let less = rw q at total in rw q (omega (arith, a.charged o, less))
    ]

pub drop-IsAccounted : (ref : String) (g : GeometryStore) → IsAccounted g → IsAccounted (drop ref g)
unfolding drop
drop-IsAccounted ref g a = record {
  entries_once = Distinct-remove ref g.entries a.entries_once;
  sizes_once = Distinct-remove ref g.sizes a.sizes_once;
  sized = λ r. has-remove ref r g.sizes ∙ rw a.sized (sym (has-remove ref r g.entries));
  charged = λ o. charge (owner_of ref) o _ g.owner_bytes ∙ charged_drop ref o g a;
}

evict_loop-IsAccounted :
    (fuel : ℕ) (owner keep : String) (g : GeometryStore)
    → IsAccounted g
    → IsAccounted (evict_loop fuel owner keep g).0
unfolding evict_loop
evict_loop-IsAccounted zero owner keep g a = a
evict_loop-IsAccounted (suc fuel) owner keep g a =
    elim (Bool-cases (ltb g.max_bytes (amount owner g.owner_bytes))) [
      | inr q ↦ rw (evict_loop, q) a
      | inl q ↦ elim (Option-cases (oldest owner keep g.entries)) [
        | inl e ↦ rw (evict_loop, q, e) a
        | inr (ref, e) ↦
            rw (evict_loop, q, e)
              (evict_loop-IsAccounted fuel owner keep (drop ref g) (drop-IsAccounted ref g a))
      ]
    ]

evict-IsAccounted :
    (owner keep : String) (g : GeometryStore)
    → IsAccounted g
    → IsAccounted (evict_owner_to_cap owner keep g)
unfolding evict_owner_to_cap
evict-IsAccounted owner keep g a =
    let b = evict_loop-IsAccounted (length g.entries) owner keep g a in
    record {
      entries_once = b.entries_once;
      sizes_once = b.sizes_once;
      sized = b.sized;
      charged = b.charged;
    }

-- Writing under a ref that is not stored.
written_new :
    (ref : String) (geometry : Members) (size : ℕ) (g : GeometryStore)
    → IsAccounted g
    → Dict.has ref g.entries ≡ false
    → IsAccounted (record g {
      entries = Dict.put ref geometry g.entries;
      sizes = Dict.put ref size g.sizes;
      owner_bytes =
          Dict.put (owner_of ref) (amount (owner_of ref) g.owner_bytes + size) g.owner_bytes;
    })
written_new ref geometry size g a ne = record {
  entries_once = Distinct-put ref geometry g.entries a.entries_once;
  sizes_once = Distinct-put ref size g.sizes a.sizes_once;
  sized = λ r. has-put ref r size g.sizes ∙ rw a.sized (sym (has-put ref r geometry g.entries));
  charged = λ o. added o;
}
  where
    added :
        (o : String)
        → amount o
            (Dict.put (owner_of ref) (amount (owner_of ref) g.owner_bytes + size) g.owner_bytes)
          ≡ owner_total o (Dict.put ref size g.sizes)
    added o =
        let total = owner_total-put o ref size g.sizes (a.sized ref ∙ ne) in
        elim (Bool-cases (owner_of ref == o)) [
          | inl q ↦
              let here : owner_of ref ≡ o = (eq_iff (owner_of ref) o).0 q in
              let more = rw q at total in rw (get-put, q, here) (omega (arith, a.charged o, more))
          | inr q ↦ let more = rw q at total in rw (get-put, q) (omega (arith, a.charged o, more))
        ]

dropped : (ref : String) (g : GeometryStore) → Dict.has ref (drop ref g).entries ≡ false
unfolding drop
dropped ref g = rw (has-remove, eq_refl)

written-IsAccounted :
    (ref : String) (geometry : Members) (size : ℕ) (g : GeometryStore)
    → IsAccounted g
    → IsAccounted (written ref geometry size g)
unfolding written
written-IsAccounted ref geometry size g a = elim (Bool-cases (Dict.has ref g.entries)) [
  | inl q ↦
      rw (written, q)
        (written_new ref geometry size (drop ref g) (drop-IsAccounted ref g a) (dropped ref g))
  | inr q ↦ rw (written, q) (written_new ref geometry size g a q)
]

-- Writing a polygon, with the evictions that follow, keeps the byte accounts right: every stored
-- ref has one size, and every entry is charged exactly the bytes of its own refs.
pub put_serialized-IsAccounted :
    (ref : String) (geometry : Members) (serialized : String) (g : GeometryStore)
    → IsAccounted g
    → IsAccounted (put_serialized ref geometry serialized g)
unfolding put_serialized
put_serialized-IsAccounted ref geometry serialized g a =
    evict-IsAccounted (owner_of ref) ref _ (written-IsAccounted ref geometry (count serialized) g a)

purge_refs-IsAccounted :
    (refs : List String) (prefix : Option String) (stored : List String) (g : GeometryStore)
    → IsAccounted g
    → IsAccounted (purge_refs refs prefix stored g)
unfolding purge_refs
purge_refs-IsAccounted refs prefix [] g a = a
purge_refs-IsAccounted refs prefix (ref ∷ stored) g a =
    elim (Bool-cases (excepted prefix ref || contains ref refs)) [
      | inl q ↦ rw (purge_refs, q) (purge_refs-IsAccounted refs prefix stored g a)
      | inr q ↦
          rw (purge_refs, q)
            (purge_refs-IsAccounted refs prefix stored (drop ref g) (drop-IsAccounted ref g a))
    ]

-- A purge keeps the byte accounts right: every ref that is left has one size, and every entry is
-- charged exactly the bytes of its refs that are left.
pub purge_missing-IsAccounted :
    (refs : List String) (prefix : Option String) (g : GeometryStore)
    → IsAccounted g
    → IsAccounted (purge_missing refs prefix g)
unfolding purge_missing
purge_missing-IsAccounted refs prefix g a =
    purge_refs-IsAccounted refs prefix (Dict.keys g.entries) g a
