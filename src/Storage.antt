-- ===== src/Storage.antt =====
-- The storage layer of the crate `redbit`, and its byte helpers.
pub mod Partitioning
pub mod SortBuffer
pub mod CacheBudget
pub mod Context
pub mod Retry
pub mod Utf8
pub mod Redb
pub mod PlainTable
pub mod IndexTable
pub mod DictTable
pub mod WriterApi
pub mod TxFsm
pub mod Router
pub mod Readers
pub mod TableWriter
