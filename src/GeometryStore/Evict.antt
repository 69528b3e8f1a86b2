-- ===== src/GeometryStore/Evict.antt =====
-- The state and operations of `GeometryStore` (geometry_store.py).
use Prim.Native.Char.{code}
use Prim.Native.String.{count}
use text.Mathlib.Text.{starts_with}
use cap_alerts.Prelude.{
  ℕ, zero, suc, ◌+◌, ◌-◌, String, Bool, false, not, ◌&&◌, ◌||◌, Option, none, some, List, [], ◌∷◌,
  ◌++◌, ◌==◌, ◌=ℕ◌, ltb, if◌then◌else◌,
}
use cap_alerts.Prelude.Lists.{length, keep_if, contains}
use cap_alerts.Prelude.Text.{concat}
use cap_alerts.Dict
use cap_alerts.Dict.{Dict}
use cap_alerts.Model.Json.{Members}

-- `_serialize`, and `hashlib.sha256(...).hexdigest()[:8]`.
pub record Hashing : Type 0 where
  pub serialize : Members → String
  pub digest : String → String

-- `entries` is the `OrderedDict`, oldest first.
pub record GeometryStore : Type 0 where
  pub max_bytes : ℕ
  pub entries : Dict Members
  pub sizes : Dict ℕ
  pub owner_bytes : Dict ℕ
  pub over_budget : List String

-- `MAX_BYTES`
abbrev pub max_bytes_default : ℕ
max_bytes_default = 5_000_000

abbrev budget_or_default : Option ℕ → ℕ
budget_or_default none = max_bytes_default
budget_or_default (some n) = n

-- `__init__`
abbrev pub new_geometry_store : Option ℕ → GeometryStore
new_geometry_store max_bytes = record {
  max_bytes = budget_or_default max_bytes;
  entries = [];
  sizes = [];
  owner_bytes = [];
  over_budget = [];
}

-- `_owner`: `ref.split(":", 1)[0]`
unfoldable pub owner_of : String → String
owner_of String.[] = ""
owner_of (String.◌∷◌ c ref) = if code c =ℕ b':' then "" else String.◌∷◌ c (owner_of ref)

-- `d.get(k, 0)`
abbrev pub or_zero : Option ℕ → ℕ
or_zero none = 0
or_zero (some n) = n

abbrev pub amount : String → Dict ℕ → ℕ
amount k d = or_zero (Dict.get k d)

-- `_drop`; Python's difference is not positive where this one is 0.
unfoldable pub drop : String → GeometryStore → GeometryStore
drop ref g =
    let remaining = amount (owner_of ref) g.owner_bytes - amount ref g.sizes in
    record g {
      entries = Dict.remove ref g.entries;
      sizes = Dict.remove ref g.sizes;
      owner_bytes =
          if ltb 0 remaining
          then Dict.put (owner_of ref) remaining g.owner_bytes
          else Dict.remove (owner_of ref) g.owner_bytes;
    }

-- The first ref of the owner that is not the one to keep.
unfoldable pub oldest : String → String → Dict Members → Option String
oldest owner keep [] = none
oldest owner keep ((ref, geometry) ∷ entries) =
    if not (ref == keep) && owner_of ref == owner then some ref else oldest owner keep entries

-- The `while` loop of `_evict_owner_to_cap`, with the number of refs evicted.
unfoldable pub evict_loop : ℕ → String → String → GeometryStore → GeometryStore × ℕ
evict_loop zero owner keep g = (g, 0)
evict_loop (suc fuel) owner keep g =
    if ltb g.max_bytes (amount owner g.owner_bytes)
    then elim (oldest owner keep g.entries) [
      | none ↦ (g, 0)
      | some ref ↦ let (g', evicted) = evict_loop fuel owner keep (drop ref g) in (g', evicted + 1)
    ]
    else (g, 0)

abbrev pub mark : String → ℕ → GeometryStore → GeometryStore
mark owner evicted g = record g {
  over_budget =
      if evicted =ℕ 0
      then keep_if (λ o. not (o == owner)) g.over_budget
      else if contains owner g.over_budget
      then g.over_budget
      else owner ∷ g.over_budget;
}

-- `_evict_owner_to_cap`; every round drops one entry.
unfoldable pub evict_owner_to_cap : String → String → GeometryStore → GeometryStore
unfolding evict_loop
evict_owner_to_cap owner keep g =
    let (g', evicted) = evict_loop (length g.entries) owner keep g in mark owner evicted g'

-- The state of `_put` before it evicts.
unfoldable pub written : String → Members → ℕ → GeometryStore → GeometryStore
unfolding drop
written ref geometry size g =
    let g' = if Dict.has ref g.entries then drop ref g else g in
    record g' {
      entries = Dict.put ref geometry g'.entries;
      sizes = Dict.put ref size g'.sizes;
      owner_bytes =
          Dict.put (owner_of ref) (amount (owner_of ref) g'.owner_bytes + size) g'.owner_bytes;
    }

-- `_put`
unfoldable pub put_serialized : String → Members → String → GeometryStore → GeometryStore
unfolding written evict_owner_to_cap
put_serialized ref geometry serialized g =
    evict_owner_to_cap (owner_of ref) ref (written ref geometry (count serialized) g)

module _ (py : Hashing) where
  -- `put`
  unfoldable pub put : String → Members → GeometryStore → GeometryStore
  put ref geometry g = put_serialized ref geometry (py.serialize geometry) g

  -- `put_content`
  unfoldable pub put_content : String → Members → GeometryStore → GeometryStore × String
  put_content base_ref geometry g =
      let serialized = py.serialize geometry in
      let ref = concat base_ref (concat ":" (py.digest serialized)) in
      (put_serialized ref geometry serialized g, ref)

-- `move_to_end`
abbrev touch : String → Members → Dict Members → Dict Members
touch ref geometry entries = Dict.remove ref entries ++ (ref, geometry) ∷ []

abbrev promote : String → Option Members → GeometryStore → GeometryStore × Option Members
promote ref none g = (g, none)
promote ref (some geometry) g = (record g { entries = touch ref geometry g.entries }, some geometry)

-- `get`
unfoldable pub get : String → GeometryStore → GeometryStore × Option Members
get ref g = promote ref (Dict.get ref g.entries) g

-- `has`
abbrev pub has : String → GeometryStore → Bool
has ref g = Dict.has ref g.entries

refs_of : String → Dict Members → ℕ
refs_of owner [] = 0
refs_of owner ((ref, geometry) ∷ entries) =
    (if owner_of ref == owner then 1 else 0) + refs_of owner entries

-- `usage`
unfoldable pub usage : String → GeometryStore → ℕ × ℕ
unfolding refs_of
usage owner g = (refs_of owner g.entries, amount owner g.owner_bytes)

-- `delete`
unfoldable pub delete : String → GeometryStore → GeometryStore
unfolding drop
delete ref g = if Dict.has ref g.entries then drop ref g else g

abbrev pub excepted : Option String → String → Bool
excepted none ref = false
excepted (some prefix) ref = not (starts_with ref prefix)

-- The loop of `purge_missing`, over a copy of the refs.
unfoldable pub purge_refs :
    List String → Option String → List String → GeometryStore → GeometryStore
purge_refs refs prefix [] g = g
purge_refs refs prefix (ref ∷ stored) g =
    purge_refs refs prefix stored
      (if excepted prefix ref || contains ref refs then g else drop ref g)

-- `purge_missing`
unfoldable pub purge_missing : List String → Option String → GeometryStore → GeometryStore
unfolding purge_refs
purge_missing refs prefix g = purge_refs refs prefix (Dict.keys g.entries) g
