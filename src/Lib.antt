-- ===== src/Lib.antt =====
-- CAP Alerts (custom_components/cap_alerts): weather and hazard alerts for Home Assistant.
--
-- A provider fetches and parses the feed of one source into `CAPAlert` records. `normalize.py` puts
-- them on one severity and lifecycle vocabulary. `store.py` compares each poll with the last one: it
-- decides which alerts are new, changed or over, survives the restart of the host, and fires one
-- event for each change. `geometry_store.py` keeps the polygons out of the entity state, under a
-- byte budget. `coordinator.py` filters the alerts and posts the events, `payload.py` trims what the
-- host records, and `restore.py` keeps the records of a run for the next. For Canada the NAAD stream
-- delivers documents as they are issued: `naad_stream.py` cuts them out of a socket, and
-- `eccc_ingest.py` holds the live ones and fetches the missing ones. Entities, triggers and the
-- frontend read what the store and the events say.
--
-- Files and what they model (the sources stand in custom_components/cap_alerts/):
--   Model, Model/Json        model.py: `CAPAlert`, all fields and defaults
--   Conventions              conventions.py: the row of a source, its hooks and stages, and which
--                            row applies (`row_for`)
--   Time                     `_parse_iso` of store.py and `parse_instant` of conventions.py
--   Store                    store.py, class `AlertStore`. Its operations stand in Store/State
--                            (`__init__`, `_tombstone`), Store/Fields (`_diff_fields`,
--                            `record_from_alert`, `alert_from_record`), Store/Absence
--                            (`_removal_reason`, `_retain_on_absence`, `_infer_terminal_phase`),
--                            Store/Events (`_fire_event`, `release`, `_flush_deferred`),
--                            Store/Reconcile (the two loops of `process`), Store/Boot
--                            (`_reconcile_known_at_boot`) and Store/Process (`process`, `restore`).
--                            The other files of Store/ hold proofs.
--   GeometryStore            geometry_store.py, class `GeometryStore`: Evict is the code, Accounts
--                            and Budget are proofs
--   Cap                      providers/cap.py: Document is the parsed CAP document, Language the
--                            choice of its blocks (`select_info`, `select_alt_info`), Chain
--                            `resolve_chain_leaves` and `_dedupe_by_identifier` of
--                            providers/eccc.py; Preferred, Alternate and Superseded are proofs
--   Ingest                   providers/eccc_ingest.py, class `NAADIngest`: State is `__init__` and the
--                            connection, Repository is `_recover_from_repository`, Live are the
--                            callbacks, Steps any sequence of them; Filed, Sound, Window,
--                            Throttle, Attempts, GivenUp and Dropped are proofs
--   NaadStream               providers/naad_stream.py: Frames is `_extract_docs`, Client the rest of
--                            `NAADStreamClient` over what its socket does; Search, Chunks,
--                            Framing, Documents, Reconnect and Broken are proofs
--   Coordinator              coordinator.py: Filters are the marine and the area code filter, Events
--                            the contexts of a cycle and the events held through startup, Polygons
--                            the way of a polygon into the geometry store; InOrder and Published
--                            are proofs
--   Conventions/Episode      conventions.py: `episode_id`
--   Nws                      providers/nws_conventions.py: Vtec is the VTEC string and its severity,
--                            Icons the tables, Reissue `collapse_nws_reissues`; Newest and Collapse
--                            are proofs
--   Payload                  payload.py: Trim is the code (`truncate_bytes`, `fit_to_budget`); Cuts,
--                            Longest, Rungs and Budget are proofs
--   Restart                  restore.py: File is `AlertRestoreStore` over the writes that it asks of the
--                            host's storage, Contents is a proof
--   Revalidate               providers/revalidate.py: Feed is `FeedValidators` and
--                            `fetch_feed_text`, cut at the request; Replay is a proof
--   Normalize                normalize.py: Alerts is the code (`_compute_phase`,
--                            `_normalize_severity`, `_truncate_state`, `_geometry_ref`,
--                            `count_by_onset`); Vocabulary, Counts and Refs are proofs
--   ContentCache             providers/cap_content_cache.py: Cache is `CAPContentCache`, with
--                            `get_or_fetch` cut at its `await` into `call` and `finish`; Bytes,
--                            Bounded and Answers are proofs
--   Trigger                  trigger.py: Matchers are the severity tests over an event, Timed is
--                            `_TimedListener` with the host's states, timers and clock; Crossings,
--                            Armed, Runs and Respelled are proofs
--   Prelude, Dict            the shared lists, tests and texts, and Python's ordered `dict`
--   Samples                  runs at concrete inputs, one instance of each theorem among them
--
-- How the code is represented. A class is a record, a method a function from the record to the new
-- record (with the method's result). A `dict` is an association list in insertion order, a `set` a
-- list of texts. The calls of `fire` are recorded in order in the field `fired`. An instant is its
-- microseconds from the start of `datetime`. A method of many statements is cut where its loops and
-- branches are, so `process` is `prepare` (the bookkeeping before the loops), `visit_all` (the
-- alerts of the poll), `miss_all` (the alerts that the poll does not have) and `settle`.
--
-- What stands outside of the repository is a parameter: `datetime.fromisoformat` and `isoformat`,
-- the entity registry (`lookup_entity_id`), `json.dumps` and SHA-256 (`Hashing`), the size that
-- `json.dumps` gives (`size_of`), `sys.getsizeof`, `dt_util.parse_datetime`, `str.lower`,
-- `str.strip().casefold()` (`fold`), the decimal digits of a regular expression, the answers of a host,
-- what a socket gives, the first group that a regular expression finds (`Patterns`),
-- `random.uniform` (`Uniform`), and the convention rows in force.
--
-- Fuel. Loops over a list are structural. The eviction loop of `GeometryStore` runs on the number of
-- stored refs, that of `_store` in the content cache on the number of bodies: each round drops one,
-- so that is enough. The loop that takes documents off a stream's buffer gets one
-- round more than the buffer is long, since each document is not empty; it answers `none` where its
-- rounds run out before it comes to a `break`.
--
-- What is not modelled: the fetching and parsing of feeds (XML, JSON and their floating-point
-- geometry), the providers other than the parts named above, the setup of an entry and what joins
-- the steps of `async_apply` in coordinator.py, the entities, views and websocket of Home Assistant, the config
-- flows, and the diagnostics. A callback of the ingest runs to its end as one step: what other
-- callbacks do during its waits is not interleaved. Log lines are left out everywhere.
pub mod Prelude
pub mod Dict
pub mod Time
pub mod Model
pub mod Conventions
pub mod Store
pub mod GeometryStore
pub mod ContentCache
pub mod Coordinator
pub mod Nws
pub mod Payload
pub mod Restart
pub mod Revalidate
pub mod Cap
pub mod Ingest
pub mod NaadStream
pub mod Normalize
pub mod Trigger
mod Samples
