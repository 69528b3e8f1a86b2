-- ===== src/Samples.antt =====
-- Tests of the model at concrete inputs, and an instance of each theorem.
mod StoreRuns
mod GeometryRuns
mod TriggerRuns
mod CacheRuns
mod NormalizeRuns
mod FeedRuns
mod StreamRuns
mod PayloadRuns
mod IngestRuns
mod CapRuns
mod NwsRuns
mod CoordinatorRuns
mod RestartRuns
