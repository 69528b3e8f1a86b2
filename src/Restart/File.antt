-- ===== src/Restart/File.antt =====
-- `AlertRestoreStore` (restore.py). What the host's storage is asked to write is recorded in order;
-- `now` is `dt_util.utcnow().isoformat()`.
use cap_alerts.Prelude.{
  String, Bool, true, false, not, ◌&&◌, Option, none, some, List, [], ◌∷◌, ◌++◌, ◌==◌, ◌=ℕ◌,
  if◌then◌else◌,
}
use cap_alerts.Prelude.Lists.{length}
use cap_alerts.Dict
use cap_alerts.Dict.{Dict}

abbrev pub Records : Type 0
Records = Dict (Dict String)

-- `RestoredSet`, and the document that `_document` makes.
pub record RestoredSet : Type 0 where
  pub records : Records
  pub scope_key : Option String
  pub confirmed_at : String

-- What a load finds: no file, one that the storage cannot load, one whose contents cannot be walked,
-- or the set in it.
pub data Raw : Type 0 where
  no_file unloadable malformed : Raw
  readable : RestoredSet → Raw

pub data Write : Type 0 where
  delayed written : RestoredSet → Write
  removed : Write

pub record RestoreStore : Type 0 where
  pub saved : Option Records
  pub exists : Bool
  pub last_saved : Option String
  pub writes : List Write

-- `__init__`
abbrev pub new_restore_store : RestoreStore
new_restore_store = record { saved = none; exists = false; last_saved = none; writes = [] }

abbrev same_text : String → Option String → Bool
same_text s none = false
same_text s (some t) = s == t

-- Every item of one dict is in the other.
unfoldable pub record_within : Dict String → Dict String → Bool
record_within [] other = true
record_within ((k, v) ∷ fields) other = same_text v (Dict.get k other) && record_within fields other

-- `==` of two dicts.
abbrev pub same_record : Dict String → Option (Dict String) → Bool
same_record fields none = false
same_record fields (some other) = length fields =ℕ length other && record_within fields other

unfoldable pub records_within : Records → Records → Bool
unfolding record_within
records_within [] other = true
records_within ((k, fields) ∷ records) other =
    same_record fields (Dict.get k other) && records_within records other

unfoldable pub same_records : Records → Records → Bool
unfolding records_within
same_records records other = length records =ℕ length other && records_within records other

abbrev pub or_empty : Option Records → Records
or_empty none = []
or_empty (some records) = records

-- `async_load`
unfoldable pub load : Raw → RestoreStore → RestoreStore × Option RestoredSet
load no_file s = (s, none)
load unloadable s = (s, none)
load malformed s = (record s { exists = true }, none)
load (readable restored) s =
    (record s { exists = true; saved = some restored.records }, some restored)

-- `_remember`
abbrev pub remember : String → Records → RestoreStore → RestoreStore
remember now records s = record s { saved = some records; exists = true; last_saved = some now }

-- `async_save_if_changed`
unfoldable pub save_if_changed : String → RestoredSet → RestoreStore → RestoreStore × Bool
unfolding same_records
save_if_changed now set s =
    if same_records set.records (or_empty s.saved)
    then (s, false)
    else (remember now set.records (record s { writes = s.writes ++ delayed set ∷ [] }), true)

abbrev pub is_nothing : Records → Option Records → Bool → Bool
is_nothing [] none exists = not exists
is_nothing [] (some records) exists = false
is_nothing (r ∷ records) saved exists = false

-- `async_save_now`
unfoldable pub save_now : String → RestoredSet → RestoreStore → RestoreStore
save_now now set s =
    if is_nothing set.records s.saved s.exists
    then s
    else remember now set.records (record s { writes = s.writes ++ written set ∷ [] })

-- `async_remove`
abbrev pub remove : RestoreStore → RestoreStore
remove s = record s { saved = none; exists = false; writes = s.writes ++ removed ∷ [] }

-- The calls after a load, each save with its time.
pub data Op : Type 0 where
  changed now : String → RestoredSet → Op
  removal : Op

unfoldable pub done : Op → RestoreStore → RestoreStore
unfolding save_if_changed save_now
done (changed at set) s = (save_if_changed at set s).0
done (now at set) s = save_now at set s
done removal s = remove s

unfoldable pub all_done : List Op → RestoreStore → RestoreStore
unfolding done
all_done [] s = s
all_done (op ∷ ops) s = all_done ops (done op s)
