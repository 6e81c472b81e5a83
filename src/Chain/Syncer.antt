-- ===== src/Chain/Syncer.antt =====
-- chain/src/syncer.rs: `ChainSyncer`. `sync` plans a round (Plan), its tasks form a pipeline
-- (Pipeline), and what the pipeline delivers is stored or linked to the stored chain (Link).
pub mod Plan
pub mod Link
pub mod Ancestors
pub mod Forks
pub mod Persist
pub mod Pipeline
pub mod Processing
pub mod Sorting
mod Tests
