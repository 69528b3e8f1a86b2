-- ===== src/Restart/Contents.antt =====
-- What the file of an entry holds after any calls (restore.py).
use cap_alerts.Prelude.{
  ◌≡◌, ◌⊎◌, inl, inr, refl, sym, ◌∙◌, ap, Bool, true, String, Option, none, some, List, [], ◌∷◌,
  ◌++◌, Bool-cases, if_either,
}
use cap_alerts.Restart.File.{
  Records, RestoredSet, Raw, no_file, unloadable, malformed, readable, Write, delayed, written,
  removed, RestoreStore, new_restore_store, or_empty, same_records, load, save_if_changed, save_now,
  is_nothing, Op, changed, now, removal, done, all_done,
}

-- The records that a load finds after some writes, a delayed one counted as done.
abbrev pub after : Option Records → List Write → Option Records
after held [] = held
after held (delayed set ∷ writes) = after (some set.records) writes
after held (written set ∷ writes) = after (some set.records) writes
after held (removed ∷ writes) = after none writes

abbrev pub found : Raw → Option Records
found no_file = none
found unloadable = none
found malformed = none
found (readable set) = some set.records

abbrev held_by : Write → Option Records
held_by (delayed set) = some set.records
held_by (written set) = some set.records
held_by removed = none

after-append :
    (held : Option Records) (writes : List Write) (write : Write)
    → after held (writes ++ write ∷ []) ≡ held_by write
after-append held [] (delayed set) = refl
after-append held [] (written set) = refl
after-append held [] removed = refl
after-append held (delayed set ∷ writes) write = after-append (some set.records) writes write
after-append held (written set ∷ writes) write = after-append (some set.records) writes write
after-append held (removed ∷ writes) write = after-append none writes write

abbrev IsCurrent : Option Records → RestoreStore → Type 0
IsCurrent held s = s.saved ≡ after held s.writes

done-IsCurrent :
    (held : Option Records) (op : Op) (s : RestoreStore)
    → IsCurrent held s
    → IsCurrent held (done op s)
unfolding done save_if_changed save_now
done-IsCurrent held (changed at set) s h =
    if_either (λ (r : RestoreStore × Bool). IsCurrent held r.0)
      (same_records set.records (or_empty s.saved)) h
      (sym (after-append held s.writes (delayed set)))
done-IsCurrent held (now at set) s h =
    if_either (IsCurrent held) (is_nothing set.records s.saved s.exists) h
      (sym (after-append held s.writes (written set)))
done-IsCurrent held removal s h = sym (after-append held s.writes removed)

all_done-IsCurrent :
    (held : Option Records) (ops : List Op) (s : RestoreStore)
    → IsCurrent held s
    → IsCurrent held (all_done ops s)
unfolding all_done
all_done-IsCurrent held [] s h = h
all_done-IsCurrent held (op ∷ ops) s h =
    all_done-IsCurrent held ops (done op s) (done-IsCurrent held op s h)

load-IsCurrent : (raw : Raw) → IsCurrent (found raw) (load raw new_restore_store).0
unfolding load
load-IsCurrent no_file = refl
load-IsCurrent unloadable = refl
load-IsCurrent malformed = refl
load-IsCurrent (readable set) = refl

-- What a file holds is what is asked for, or equal to it as a dict.
abbrev pub Holds : Records → Option Records → Type 0
Holds records held = (held ≡ some records) ⊎ (same_records records (or_empty held) ≡ true)

-- After a load, any saves and removals and one more save of a set if it changed, the file holds the
-- records of that set: it was asked to write them, or it holds equal ones, none counting as empty.
pub save_if_changed-Holds :
    (raw : Raw) (ops : List Op) (at : String) (set : RestoredSet)
    → Holds set.records (
        after
          (found raw)
          (save_if_changed at set (all_done ops (load raw new_restore_store).0)).0.writes)
unfolding save_if_changed
save_if_changed-Holds raw ops at set =
    let s = all_done ops (load raw new_restore_store).0 in
    let current =
      all_done-IsCurrent (found raw) ops (load raw new_restore_store).0 (load-IsCurrent raw) in
    elim (Bool-cases (same_records set.records (or_empty s.saved))) [
      | inl e ↦ rw e (inr (ap (λ held. same_records set.records (or_empty held)) (sym current) ∙ e))
      | inr e ↦ rw e (inl (after-append (found raw) s.writes (delayed set)))
    ]
