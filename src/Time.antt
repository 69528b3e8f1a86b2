-- ===== src/Time.antt =====
-- Timestamps. An aware `datetime` is its instant in microseconds, a naive one the instant that it
-- has when it is read as UTC. `datetime.fromisoformat` is a parameter; `none` is its `ValueError`.
use cap_alerts.Prelude.{ℕ, String, Option, none, some, is_empty, if◌then◌else◌}
use cap_alerts.Prelude.Text.{replace_z}

pub data DateTime : Type 0 where
  naive : ℕ → DateTime
  aware : ℕ → DateTime

abbrev pub FromIso : Type 0
FromIso = String → Option DateTime

-- `dt.replace(tzinfo=timezone.utc)` where `dt.tzinfo is None`.
unfoldable pub as_utc : Option DateTime → Option ℕ
as_utc none = none
as_utc (some (naive t)) = some t
as_utc (some (aware t)) = some t

-- `_parse_iso` of store.py and of normalize.py.
unfoldable pub parse_iso : FromIso → String → Option ℕ
unfolding as_utc
parse_iso from_iso value = if is_empty value then none else as_utc (from_iso (replace_z value))

-- `parse_instant` of conventions.py, which does not rewrite a "Z".
unfoldable pub parse_instant : FromIso → String → Option ℕ
unfolding as_utc
parse_instant from_iso value = if is_empty value then none else as_utc (from_iso value)
