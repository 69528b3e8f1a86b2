-- ===== src/NaadStream/Client.antt =====
-- `NAADStreamClient` (providers/naad_stream.py) over what its socket does: an attempt to connect is
-- refused or opens a session, and a session is what its reads give. The notifications, the sleeps
-- between attempts and the documents are recorded, the last notification and the last sleep first.
-- A time is in microseconds.
use text.Mathlib.Text.{starts_with}
use cap_alerts.Prelude.{
  ℕ, ◌+◌, ◌*◌, String, Bool, true, false, ◌||◌, Option, none, some, List, [], ◌∷◌, ◌++◌, ◌==◌, ltb,
  map, if◌then◌else◌,
}
use cap_alerts.Prelude.Lists.{length}
use cap_alerts.NaadStream.Frames.{Chars, extract_docs}

-- One turn of the read loop: decoded text, nothing within the heartbeat timeout, the end of the
-- stream, or an exception.
pub data Reading : Type 0 where
  received : Chars → Reading
  silent closed broken : Reading

-- How `_read_loop` ends: it returns whether it saw data, or raises. With it, the documents.
pub data Ended : Type 0 where
  returned : Bool → List Chars → Ended
  raised : List Chars → Ended

abbrev pub docs_of : Ended → List Chars
docs_of (returned saw_data docs) = docs
docs_of (raised docs) = docs

abbrev pub with_earlier : List Chars → Ended → Ended
with_earlier earlier (returned saw_data docs) = returned saw_data (earlier ++ docs)
with_earlier earlier (raised docs) = raised (earlier ++ docs)

-- `_read_loop`; the list ends where the client is stopped.
unfoldable pub read_loop : List Reading → Chars → Bool → Ended
unfolding extract_docs
read_loop [] buffer saw_data = returned saw_data []
read_loop (silent ∷ readings) buffer saw_data = returned saw_data []
read_loop (closed ∷ readings) buffer saw_data = returned saw_data []
read_loop (broken ∷ readings) buffer saw_data = raised []
read_loop (received text ∷ readings) buffer saw_data =
    let (tail, docs) = extract_docs (buffer ++ text) in
    with_earlier docs (read_loop readings tail true)

-- `_SENDER_RE.search` and `_STATUS_RE.search`, by the first group that they match.
pub record Patterns : Type 0 where
  pub sender : Chars → Option String
  pub status : Chars → Option String

-- `NAAD_STREAM_HEARTBEAT_SENDER_PREFIX`
abbrev pub heartbeat_sender_prefix : String
heartbeat_sender_prefix = "NAADS-Heartbeat"

abbrev begins_with : Option String → String → Bool
begins_with none prefix = false
begins_with (some text) prefix = starts_with text prefix

abbrev is_text : Option String → String → Bool
is_text none expected = false
is_text (some text) expected = text == expected

-- `_is_heartbeat`
unfoldable pub is_heartbeat : Patterns → Chars → Bool
is_heartbeat p doc =
    begins_with (p.sender doc) heartbeat_sender_prefix || is_text (p.status doc) "System"

pub data Dispatched : Type 0 where
  heartbeat alert : Chars → Dispatched

-- `_dispatch`
unfoldable pub dispatch : Patterns → Chars → Dispatched
unfolding is_heartbeat
dispatch p doc = if is_heartbeat p doc then heartbeat doc else alert doc

-- `NAAD_STREAM_BACKOFF_MIN_S` and `NAAD_STREAM_BACKOFF_MAX_S`
abbrev pub backoff_min : ℕ
backoff_min = 1_000_000

abbrev pub backoff_max : ℕ
backoff_max = 60_000_000

-- `random.uniform(0, ceiling)`, by the number of times that it was called before.
abbrev pub Uniform : Type 0
Uniform = ℕ → ℕ → ℕ

-- A call of `_sleep_backoff`: its argument, and how long it sleeps.
pub record Sleep : Type 0 where
  pub ceiling : ℕ
  pub delay : ℕ

pub record Client : Type 0 where
  pub connected : Bool
  pub backoff : ℕ
  pub first : Bool
  pub failures : ℕ
  pub notified : List Bool
  pub sleeps : List Sleep
  pub backfills : ℕ
  pub dispatched : List Dispatched

-- `__init__`, and the locals that `_run` begins with.
abbrev pub new_client : Client
new_client = record {
  connected = false;
  backoff = backoff_min;
  first = true;
  failures = 0;
  notified = [];
  sleeps = [];
  backfills = 0;
  dispatched = [];
}

-- `_set_connected`
unfoldable pub set_connected : Bool → Client → Client
set_connected true c =
    if c.connected then c else record c { connected = true; notified = true ∷ c.notified }
set_connected false c =
    if c.connected then record c { connected = false; notified = false ∷ c.notified } else c

-- `min(backoff * 2, self._backoff_max_s)`
abbrev pub doubled : ℕ → ℕ
doubled backoff = if ltb backoff_max (backoff * 2) then backoff_max else backoff * 2

-- `saw_data` where `_read_loop` raises is what it was before.
abbrev pub saw_data : Ended → Bool
saw_data (returned saw docs) = saw
saw_data (raised docs) = false

abbrev pub reset : Bool → Client → Client
reset saw c = record c { backoff = if saw then backoff_min else c.backoff }

-- One turn of the loop of `_run`: the connection is refused, a session ends, or the client is
-- stopped during a session.
pub data Attempt : Type 0 where
  refused : Attempt
  session last_session : List Reading → Attempt

module _ (uniform : Uniform) where
  abbrev pub sleep_of : Client → Sleep
  sleep_of c = record { ceiling = c.backoff; delay = uniform (length c.sleeps) c.backoff }

  -- `_sleep_backoff`
  abbrev pub sleep_backoff : Client → Client
  sleep_backoff c = record c { sleeps = sleep_of c ∷ c.sleeps }

  -- `_sleep_backoff`, and the doubling that follows it.
  abbrev pub wait : Client → Client
  wait c = record (sleep_backoff c) { backoff = doubled c.backoff }

  -- The `except` of the connection.
  abbrev pub refuse : Client → Client
  refuse c = wait (record c { failures = c.failures + 1 })

module _ (p : Patterns) where
  -- From the connection to the `finally` that closes it.
  unfoldable pub serve : List Reading → Client → Client
  unfolding set_connected read_loop dispatch
  serve readings c =
      let up = set_connected true (record c { failures = 0 }) in
      set_connected false (record up {
        backfills = if c.first then c.backfills else c.backfills + 1;
        first = false;
        dispatched = c.dispatched ++ map (dispatch p) (docs_of (read_loop readings [] false));
      })

module _ (p : Patterns) (uniform : Uniform) where
  unfoldable pub run_loop : List Attempt → Client → Client
  unfolding serve
  run_loop [] c = c
  run_loop (refused ∷ attempts) c = run_loop attempts (refuse uniform c)
  run_loop (session readings ∷ attempts) c =
      run_loop attempts
        (wait uniform (reset (saw_data (read_loop readings [] false)) (serve p readings c)))
  run_loop (last_session readings ∷ attempts) c = serve p readings c

  -- `run`
  unfoldable pub run : List Attempt → Client → Client
  unfolding run_loop
  run attempts c = set_connected false (run_loop attempts c)
