-- ===== src/Coordinator/Polygons.antt =====
-- The polygons in `async_apply` (coordinator.py): each goes to the geometry store, the alert keeps
-- its ref, and the refs of the entry that no alert keeps are purged.
use cap_alerts.Prelude.{
  String, Bool, not, ◌&&◌, ◌||◌, Option, none, some, List, [], ◌∷◌, ◌==◌, is_empty, if◌then◌else◌,
}
use cap_alerts.Prelude.Text.{concat}
use cap_alerts.GeometryStore.Evict.{Hashing, GeometryStore, put_content, purge_missing}
use cap_alerts.Model.{CapAlert}
use cap_alerts.Model.Json.{Members}
use cap_alerts.Normalize.Alerts.{nothing}

-- `a.geometry_ref and a.geometry and a.phase not in ("cancel", "expired")`
abbrev pub is_stored : CapAlert → Bool
is_stored a =
    not (is_empty a.geometry_ref)
    && (not (nothing a.geometry) && not (a.phase == "cancel" || a.phase == "expired"))

-- The alerts, the refs of those with a polygon, and the store.
abbrev pub Externalized : Type 0
Externalized = List CapAlert × List String × GeometryStore

abbrev pub with_alert : CapAlert → Externalized → Externalized
with_alert a (alerts, refs, g) = (a ∷ alerts, refs, g)

abbrev pub with_ref : CapAlert → String → Externalized → Externalized
with_ref a ref (alerts, refs, g) = (record a { geometry_ref = ref } ∷ alerts, ref ∷ refs, g)

abbrev pub purged : String → Externalized → Externalized
purged entry_id (alerts, refs, g) =
    (alerts, refs, purge_missing refs (some (concat entry_id ":")) g)

module _ (py : Hashing) where
  abbrev pub put_geometry : CapAlert → Option Members → GeometryStore → GeometryStore × String
  put_geometry a none g = (g, a.geometry_ref)
  put_geometry a (some geometry) g = put_content py a.geometry_ref geometry g

  -- The loop over the alerts.
  unfoldable pub externalized : List CapAlert → GeometryStore → Externalized
  externalized [] g = ([], [], g)
  externalized (a ∷ alerts) g =
      let (g', ref) = put_geometry a a.geometry g in
      let kept = with_alert a (externalized alerts g) in
      let stored = with_ref a ref (externalized alerts g') in if is_stored a then stored else kept

  -- From the filtered alerts to those that the store is given.
  unfoldable pub apply_polygons : String → List CapAlert → GeometryStore → Externalized
  unfolding externalized
  apply_polygons entry_id alerts g = purged entry_id (externalized alerts g)
