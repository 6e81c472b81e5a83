-- ===== src/Lib.antt =====
-- redbit: an indexer for block chains. It fetches the blocks of a node, processes them in parallel,
-- puts them back into the order of their heights, groups them, and persists them into redb tables
-- that are spread over shards.
--
-- The parts, with the files that model them:
--
-- Chain, the crate `chain`, is the pipeline of a round of indexing.
--   * Chain/SizeBatcher is chain/src/size_batcher.rs (`SizeBatcher`): `push`, `take_all`, `new` and
--     `from_kb`; `batches` is the loop of `block_stream` in chain/src/block_stream.rs over what was
--     fetched. It sends batches to the task "process".
--   * Chain/Syncer/Pipeline is that task, which regroups the processed blocks (`process`), and the
--     task "sort" (`sort`), both of `ChainSyncer::sync` in chain/src/syncer.rs. A channel is the
--     list of what is sent through it; batches reach "process" in any order, since they are
--     processed in parallel, and theorems therefore hold for every order.
--   * Chain/ReorderBuffer is chain/src/reorder_buffer.rs (`ReorderBuffer`) and Chain/WeightBatcher
--     is chain/src/weight_batcher.rs (`WeightBatcher`): "sort" inserts each block into the first one
--     and pushes what it releases into the second one.
--   * Chain/Syncer/Plan is the start of `sync`: which heights to fetch, whether to batch and from
--     which height on to look for forks. Chain/Syncer/Link is `persist_or_link` and `chain_link`,
--     over the traits `BlockChainLike` and `BlockProvider` of chain/src/api.rs, which are records of
--     operations. Chain/Syncer/Persist is the task "persist", which calls it for each batch, with the
--     durability that the number of the batch gives.
-- Storage, the crate `redbit`, is below.
--   * Storage/Partitioning is redbit/src/storage/partitioning.rs, the shard of a key or a value, and
--     `inc_le` of redbit/src/utils.rs.
--   * Storage/SortBuffer is redbit/src/storage/sort_buffer.rs, which sorts what is to be written to a
--     shard: SortBuffer has `gallop_left_slice`, `gallop_right_slice` and
--     `merge_sorted_by_key_gallop`; SortBuffer/Levels has `MergeBuffer` with `merge_sorted`,
--     `merge_unsorted` and `append_sorted`; SortBuffer/Reduction has `take_sorted`. Keys are compared
--     by `KeyOrder` of Prelude/Order, an interface of `K::compare`, which redb documents to be a
--     total order. The sorts of the standard library are insertion sorts, and its binary heap is a
--     list whose greatest entry is popped.
--   * Storage/Router is redbit/src/storage/router.rs: for each call the commands that `ShardedRouter`
--     sends and to which shard. Storage/TableWriter is table_writer.rs beside it, a table that sends
--     through its router and to the threads of its shards. Storage/WriterApi has the commands and the states of
--     redbit/src/storage/table_writer_api.rs, and its `dedup_tasks_keep_slowest`.
--   * Storage/TxFsm is redbit/src/storage/tx_fsm.rs, the thread that takes these commands: `step` and
--     `flush` there; `drain_batch` (`drain_more`), the loop of a transaction (`in_tx`) and the loop of
--     the thread (`serve`) in TxFsm/Thread. It sorts what is inserted with SortBuffer and writes it
--     to a table, by the interface `WriteTable`.
--   * Storage/PlainTable, Storage/IndexTable and Storage/DictTable are the tables of
--     table_plain_write.rs, table_index_write.rs and table_dict_write.rs in redbit/src/storage, and
--     Storage/Readers the look-ups over their shards in table_plain_read.rs, table_index_read.rs and
--     table_dict_read.rs. They stand on Storage/Redb, the interface of the crates redb and lru: its
--     records `IsMap`, `IsRelation` and `IsCache` say what their documentation promises while there
--     is no I/O error, and Redb/Memory has tables in memory that keep that promise.
--   * Storage/CacheBudget is `allocate_cache_mb` of redbit/src/storage/cache.rs, which shares the cache
--     out among the columns and their shards.
--   * Chains/Btc is chains/btc/src: Codec has the codec of addresses (codec.rs), Provider the
--     processing of a block (block_provider.rs) with the types of model_v1.rs. Chains/Ltc is the
--     codec of chains/ltc/src/codec.rs. The crates bs58, bech32 and bitcoin are interfaces, whose
--     documented behaviour is `IsCrates` and `IsScripts`.
--   * Storage/Context is the commit of redbit/src/storage/context.rs: the futures of its tables and of
--     the contexts in it are collected in their order (`commit_ctx_async`), then waited for, as
--     `FlushFuture::wait` and `dedup_tasks_keep_slowest` do. A context is the list of its tables and
--     contexts; its events are what is sent to the threads and the results that come back.
--   * Macros/Columns is `get_field_macros` of macros/src/field_parser.rs, which orders the columns of an
--     entity, from what `parse_entity_field` makes of each field. The macros give the tables
--     of a context in this order.
--   * Storage/Retry is redbit/src/retry.rs, with which the clients of the nodes repeat a request.
--   * Storage/Utf8 is `increment_last_scalar` of redbit/src/codec.rs, which makes the next sample of a
--     text.
-- Prelude holds what the parts share: lists, association lists, machine words and the order of
-- keys.
--
-- A method that changes `self` is a function that returns the new record beside its result. `u32`
-- arithmetic wraps as in a release build, saturating operations saturate, and `usize` has 64 bits.
-- A panic is the result `none`, or `panicked` where errors are told apart.
-- Whether code is compiled that `#[cfg(test)]` keeps to the tests of the crate, the refusal of a batch
-- that is not sorted by key, is a parameter (`cfg_test`).
--
-- Fuel: the loop of `insert` removes a pending block in each round, so it runs on the number of
-- pending blocks. `chain_link` goes down one height at each call, so the height of the block is
-- enough, if the node and the storage agree on the heights. The searches run on the length
-- of the run, the loop of the merge on the length of its second run, since every round takes an
-- entry of it, and the loop of `take_sorted` on the number of runs. That these are enough is part
-- of the theorems, which have the results. The other loops follow a list.
--
-- The loops of the writer thread take at least one command in each round, so they run on the number
-- of commands. The loop of `increment_last_scalar` runs on the number of values up to the last one.
--
-- Not modelled: the opening of databases and tables, the ranges, iterators and statistics of redb,
-- the beginning and the end of the writing of a context, the code that the macros generate,
-- the codecs of the other chains, the clients of the nodes, the HTTP server, settings, signals,
-- logging, the times that tasks take, the time stamps of headers, the capacities of vectors, which no
-- result depends on, and the shutdown of a round.
pub mod Prelude
pub mod Chain
pub mod Chains
pub mod Macros
pub mod Storage
