-- ===== src/Samples/RestartRuns.antt =====
-- Runs of the file of restored records (restore.py).
use cap_alerts.Prelude.{◌≡◌, refl, none, some, List, [], ◌∷◌, false}
use cap_alerts.Dict
use cap_alerts.Restart.File.{
  Records, RestoredSet, no_file, readable, new_restore_store, load, save_if_changed, save_now,
  same_records, records_within, record_within, Op, changed, now, removal, done, all_done,
}
use cap_alerts.Restart.Contents.{Holds, after, save_if_changed-Holds}

abbrev set_of : Records → RestoredSet
set_of records = record { records = records; scope_key = some "here"; confirmed_at = "noon" }

abbrev flood : Records
flood = ("a", ("severity", "severe") ∷ ("phase", "new") ∷ []) ∷ []

-- The same records in another order.
abbrev flood_again : Records
flood_again = ("a", ("phase", "new") ∷ ("severity", "severe") ∷ []) ∷ []

-- An entry without alerts never makes a file.
quiet :
    (all_done
      (changed "1" (set_of []) ∷ now "2" (set_of []) ∷ [])
      (load no_file new_restore_store).0).writes
    ≡ []
unfolding all_done done load save_if_changed save_now same_records records_within
quiet = refl

unchanged :
    (save_if_changed "3"
      (set_of flood_again)
      (load (readable (set_of flood)) new_restore_store).0).1
    ≡ false
unfolding load save_if_changed same_records records_within record_within Dict.get
unchanged = refl

abbrev ops : List Op
ops = now "1" (set_of flood) ∷ removal ∷ []

save_if_changed-Holds_example : Holds flood (
    after none
      (save_if_changed "2"
        (set_of flood)
        (all_done ops (load no_file new_restore_store).0)).0.writes)
save_if_changed-Holds_example = save_if_changed-Holds no_file ops "2" (set_of flood)
