-- ===== src/Samples/GeometryRuns.antt =====
-- Runs of the geometry store (geometry_store.py).
use cap_alerts.Prelude.{◌≡◌, ◌==◌, refl, Bool, true, false, some, List, [], ◌∷◌}
use cap_alerts.Dict
use cap_alerts.Model.Json.{Members}
use cap_alerts.GeometryStore.Evict.{
  GeometryStore, new_geometry_store, owner_of, drop, oldest, evict_loop, evict_owner_to_cap,
  written, put_serialized, purge_refs, purge_missing,
}
use cap_alerts.GeometryStore.Accounts.{
  IsAccounted, new_geometry_store-IsAccounted, put_serialized-IsAccounted,
}
use cap_alerts.GeometryStore.Budget.{Fits, put_serialized-Fits, put_serialized_isolated}

abbrev shape : Members
shape = Members.no_members

-- A store with room for five bytes, and three polygons of three bytes, the last of another entry.
abbrev narrow : GeometryStore
narrow = new_geometry_store (some 5)

abbrev one : GeometryStore
one = put_serialized "e:nws:1" shape "{.}" narrow

abbrev two : GeometryStore
two = put_serialized "e:nws:2" shape "{.}" one

abbrev three : GeometryStore
three = put_serialized "f:nws:1" shape "{.}" two

-- `put` and `purge_missing` with all that they call open, for the tests.
stored : GeometryStore → List Bool
unfolding put_serialized written drop evict_owner_to_cap evict_loop oldest owner_of purge_missing
    purge_refs Dict.get Dict.has Dict.put Dict.remove Dict.keys
stored g =
    Dict.has "e:nws:1" g.entries ∷ Dict.has "e:nws:2" g.entries ∷ Dict.has "f:nws:1" g.entries ∷ []

-- The second polygon of `e` evicts its first, that of `f` nothing.
evicted : stored three ≡ false ∷ true ∷ true ∷ []
unfolding stored
evicted = refl

-- A purge for `e` leaves `f` alone.
purged : stored (purge_missing [] (some "e:") three) ≡ false ∷ false ∷ true ∷ []
unfolding stored
purged = refl

narrow-IsAccounted : IsAccounted narrow
narrow-IsAccounted = new_geometry_store-IsAccounted (some 5)

one-IsAccounted : IsAccounted one
one-IsAccounted = put_serialized-IsAccounted "e:nws:1" shape "{.}" narrow narrow-IsAccounted

put_serialized-IsAccounted_example : IsAccounted two
put_serialized-IsAccounted_example =
    put_serialized-IsAccounted "e:nws:2" shape "{.}" one one-IsAccounted

put_serialized-Fits_example :
    Fits (owner_of "e:nws:2") "e:nws:2" two × (Dict.get "e:nws:2" two.entries ≡ some shape)
put_serialized-Fits_example = put_serialized-Fits "e:nws:2" shape "{.}" one

foreign : (owner_of "e:nws:2" == owner_of "f:nws:1") ≡ false
unfolding owner_of
foreign = refl

put_serialized_isolated_example : Dict.get "e:nws:2" three.entries ≡ Dict.get "e:nws:2" two.entries
put_serialized_isolated_example =
    put_serialized_isolated "f:nws:1" "e:nws:2" shape "{.}" two foreign
