-- ===== src/Coordinator/Published.antt =====
-- Which polygons an entry keeps (coordinator.py, geometry_store.py).
use mathlib.Core.Bool.{false≢true}
use text.Mathlib.Text.{starts_with}
use cap_alerts.Prelude.{
  ◌≡◌, ◌⊎◌, inl, inr, refl, sym, ◌∙◌, ap, subst, String, Bool, true, false, not, ◌||◌, ◌&&◌, Option,
  some, List, [], ◌∷◌, ◌==◌, eq_iff, eq_refl, Bool-cases, if◌then◌else◌, if_either,
}
use cap_alerts.Prelude.Text.{concat}
use cap_alerts.Prelude.Lists.{All, contains}
use cap_alerts.Dict
use cap_alerts.Dict.{Dict}
use cap_alerts.Dict.Laws.{has-remove}
use cap_alerts.GeometryStore.Evict.{
  Hashing, GeometryStore, drop, excepted, purge_refs, purge_missing,
}
use cap_alerts.Model.{CapAlert}
use cap_alerts.Model.Json.{Members}
use cap_alerts.Coordinator.Polygons.{
  is_stored, Externalized, with_alert, with_ref, put_geometry, externalized, purged, apply_polygons,
}

has-drop :
    (ref other : String) (g : GeometryStore)
    → Dict.has other (drop ref g).entries ≡ (not (ref == other) && Dict.has other g.entries)
unfolding drop
has-drop ref other g = has-remove ref other g.entries

absent-drop :
    (ref other : String) (g : GeometryStore)
    → Dict.has other g.entries ≡ false
    → Dict.has other (drop ref g).entries ≡ false
absent-drop ref other g e =
    has-drop ref other g ∙ ap (λ b. not (ref == other) && b) e ∙ no (not (ref == other))
  where
    no : (b : Bool) → (b && false) ≡ false
    no true = refl
    no false = refl

purge_refs-absent :
    (refs : List String) (prefix : Option String) (stored : List String) (other : String)
    (g : GeometryStore)
    → Dict.has other g.entries ≡ false
    → Dict.has other (purge_refs refs prefix stored g).entries ≡ false
unfolding purge_refs
purge_refs-absent refs prefix [] other g e = e
purge_refs-absent refs prefix (ref ∷ stored) other g e =
    purge_refs-absent refs prefix stored other _ (
      if_either (λ (s : GeometryStore). Dict.has other s.entries ≡ false)
        (excepted prefix ref || contains ref refs) e (absent-drop ref other g e))

purge_refs-dropped :
    (refs : List String) (prefix : Option String) (stored : List String) (other : String)
    (g : GeometryStore)
    → contains other stored ≡ true
    → (excepted prefix other || contains other refs) ≡ false
    → Dict.has other (purge_refs refs prefix stored g).entries ≡ false
unfolding purge_refs
purge_refs-dropped refs prefix [] other g h e = absurd (false≢true h)
purge_refs-dropped refs prefix (ref ∷ stored) other g h e = elim (Bool-cases (ref == other)) [
  | inl q ↦
      let gone =
        purge_refs-absent refs prefix stored other (drop other g)
          (has-drop other other g ∙ rw (eq_refl other) refl) in
      subst (λ r. Dict.has other (purge_refs refs prefix (r ∷ stored) g).entries ≡ false)
        (sym ((eq_iff ref other).0 q))
        (ap
            (λ b.
              Dict.has other
                (purge_refs refs prefix stored (if b then g else drop other g)).entries)
            e
          ∙ gone)
  | inr q ↦ purge_refs-dropped refs prefix stored other _ (rw q at h) e
]

contains-keys :
    (ref : String) (d : Dict Members) → Dict.has ref d ≡ true → contains ref (Dict.keys d) ≡ true
unfolding Dict.has Dict.keys
contains-keys ref [] h = absurd (false≢true h)
contains-keys ref ((k, v) ∷ d) h = elim (Bool-cases (k == ref)) [
  | inl e ↦ rw e refl
  | inr e ↦ rw e (contains-keys ref d (rw e at h))
]

purge_missing-dropped :
    (refs : List String) (prefix : Option String) (other : String) (g : GeometryStore)
    → (excepted prefix other || contains other refs) ≡ false
    → Dict.has other (purge_missing refs prefix g).entries ≡ false
unfolding purge_missing
purge_missing-dropped refs prefix other g e = elim (Bool-cases (Dict.has other g.entries)) [
  | inl h ↦
      purge_refs-dropped refs prefix (Dict.keys g.entries) other g (contains-keys other g.entries h)
        e
  | inr h ↦ purge_refs-absent refs prefix (Dict.keys g.entries) other g h
]

-- An alert with a polygon to store publishes one of the refs.
abbrev pub Publishes : List String → CapAlert → Type 0
Publishes refs a = (is_stored a ≡ false) ⊎ (contains a.geometry_ref refs ≡ true)

Publishes-more :
    (ref : String) (refs : List String) (alerts : List CapAlert)
    → All (Publishes refs) alerts
    → All (Publishes (ref ∷ refs)) alerts
Publishes-more ref refs [] h = tt
Publishes-more ref refs (a ∷ alerts) (inl e, h) = (inl e, Publishes-more ref refs alerts h)
Publishes-more ref refs (a ∷ alerts) (inr e, h) =
    (inr (rw e (either (ref == a.geometry_ref))), Publishes-more ref refs alerts h)
  where
    either : (b : Bool) → (b || true) ≡ true
    either true = refl
    either false = refl

abbrev pub refs_of : Externalized → List String
refs_of (alerts, refs, g) = refs

abbrev pub store_of : Externalized → GeometryStore
store_of (alerts, refs, g) = g

abbrev pub alerts_of : Externalized → List CapAlert
alerts_of (alerts, refs, g) = alerts

module _ (py : Hashing) where
  abbrev ArePublished : Externalized → Type 0
  ArePublished (alerts, refs, g) = All (Publishes refs) alerts

  with_ref-ArePublished :
      (a : CapAlert) (ref : String) (x : Externalized)
      → ArePublished x
      → ArePublished (with_ref a ref x)
  with_ref-ArePublished a ref (alerts, refs, g) h =
      (inr (rw (eq_refl ref) refl), Publishes-more ref refs alerts h)

  with_alert-ArePublished :
      (a : CapAlert) (x : Externalized)
      → is_stored a ≡ false
      → ArePublished x
      → ArePublished (with_alert a x)
  with_alert-ArePublished a (alerts, refs, g) e h = (inl e, h)

  externalized-ArePublished :
      (alerts : List CapAlert) (g : GeometryStore) → ArePublished (externalized py alerts g)
  unfolding externalized
  externalized-ArePublished [] g = tt
  externalized-ArePublished (a ∷ alerts) g =
      let (g', ref) = put_geometry py a a.geometry g in
      elim (Bool-cases (is_stored a)) [
        | inl e ↦ rw e (
            with_ref-ArePublished a ref (externalized py alerts g')
              (externalized-ArePublished alerts g'))
        | inr e ↦ rw e (
            with_alert-ArePublished a (externalized py alerts g) e
              (externalized-ArePublished alerts g))
      ]

  -- After a cycle each alert that is handed on with a polygon to store publishes one of the refs of
  -- the cycle, and a ref under the entry's prefix that is not one of them is no longer stored.
  pub apply_polygons-refs :
      (entry_id : String) (alerts : List CapAlert) (g : GeometryStore) (ref : String)
      → starts_with ref (concat entry_id ":") ≡ true
      → contains ref (refs_of (apply_polygons py entry_id alerts g)) ≡ false
      → All
          (Publishes (refs_of (apply_polygons py entry_id alerts g)))
          (alerts_of (apply_polygons py entry_id alerts g))
        × (Dict.has ref (store_of (apply_polygons py entry_id alerts g)).entries ≡ false)
  unfolding apply_polygons
  apply_polygons-refs entry_id alerts g ref own other =
      ends (externalized py alerts g) (externalized-ArePublished alerts g) other
    where
      ends :
          (x : Externalized)
          → ArePublished x
          → contains ref (refs_of (purged entry_id x)) ≡ false
          → All (Publishes (refs_of (purged entry_id x))) (alerts_of (purged entry_id x))
            × (Dict.has ref (store_of (purged entry_id x)).entries ≡ false)
      ends (alerts, refs, g) h f =
          (h, purge_missing-dropped refs (some (concat entry_id ":")) ref g (rw (own, f) refl))
