-- ===== src/Chain.antt =====
-- The crate `chain`: the stages between the node and the storage.
pub mod ReorderBuffer
pub mod SizeBatcher
pub mod WeightBatcher
pub mod Syncer
