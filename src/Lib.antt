-- ===== src/Lib.antt =====
-- LauraDB, a document database in Go: its storage, transaction and coordination core.
--
-- The program's parts. A client works through sessions (pkg/database), which run transactions
-- of the multi-version store (pkg/mvcc) over collections; documents (pkg/document) are kept
-- in pages (pkg/storage) behind a buffer pool and a write-ahead log, and found through B+
-- tree indexes (pkg/index) by the query engine (pkg/query, pkg/aggregation); query results
-- are cached (pkg/cache). Transactions over several databases go through a two-phase commit
-- (pkg/distributed); pkg/replication and pkg/sharding distribute the data.
--
-- Which file models which part:
-- - Prelude and its children: Go's maps as association lists (Prelude/Assoc), lists measured
--   by native numbers, Boolean tests.
-- - Mvcc/VersionStore: pkg/mvcc/version_store.go. A chain is the list of its nodes from Head
--   on.
-- - Mvcc/Manager, Mvcc/Access, Mvcc/Commit: pkg/mvcc/transaction.go. Begin, Abort and
--   maybeGarbageCollect are in Manager, Read, Write and Delete in Access, Commit in Commit. A
--   *Transaction is an address in a heap of the manager's record. Mvcc/Trace runs sequences
--   of calls, and its children prove what holds of them.
-- - Distributed/Coordinator, Distributed/TwoPhase: pkg/distributed/two_phase_commit.go. A
--   participant is a value of an interface with a state of its own. Prepare, Commit, Abort
--   and Execute are each one step: the source releases the lock while the participants
--   answer, and calls that overlap are not modelled.
-- - Storage/Bytes: byte slices and the little-endian integers of encoding/binary.
-- - Storage/Page, Storage/FreePage: pkg/storage/page.go and free_page.go. A function that
--   changes a page returns it. The child modules RoundTrip, Stack and Operations prove the
--   formats.
-- - Storage/DiskManager: pkg/storage/disk_manager.go. The data file is the list of its blocks
--   of 4096 bytes; Blocks is about reading and writing, FreeList, Reuse and Lifo about
--   AllocatePage and DeallocatePage. The compaction of slotted pages is not modelled.
-- - Storage/Wal: pkg/storage/wal.go. The log is the list of its bytes. Replay runs on fuel,
--   one round more than the file has bytes, and every round takes at least 33 of them.
--   Session runs sequences of calls and restarts.
-- - Storage/SlottedPage: pkg/storage/slotted_page.go. Slots has the operations; View says
--   what the slots hold and which pages are well formed, Rewrite what the replacement of one
--   slot does, and Reads, Active, Compaction, Insertion, Changes, Deletion, Placement and
--   Updates what the methods do.
-- - Storage/BufferPool: pkg/storage/buffer_pool.go, over the model of the disk manager. The
--   writes of a client to a page that it has fetched are the operation `modify`. Eviction is
--   about the choice of a page, Capacity about the size of the pool, View, Fetch, Update and
--   Flush about what the clients see.
-- - Index/BTree: pkg/index/btree.go. Descent has the walks down the tree, Operations the
--   exported methods; Items is the tree in its order, Place and Insertion what an insertion
--   does to it, Shape and ShapeKept the depth and the number of keys, Chain and Leaves the
--   list of the leaves, Range and Scan the range scan. The scan follows the next pointers for
--   at most as many steps as there are leaves. Index/Comparison is the order that the tree
--   relies on, Index/Key the one of pkg/index/composite_key.go.
-- - Lsm: pkg/lsm. Bloom is bloom.go with the FNV-1a hash; SsTable is sstable.go: its writer
--   and Get, Entries the encoding, Writing what the writer has written, Lookup the scan of
--   entries, Seeking the sparse index, Reads the result of Get, Footer the footer with
--   OpenSSTable, Parsing and Reopening its round trip. Where a definition takes the bytes of
--   a footer, Get does not read them, and those of Footer are a case. The scan has as much
--   fuel as the file has bytes, and every entry takes some. Merge is mergeSSTables of lsm.go
--   with the iterators: Least and Choice the search for the smallest entry, Compaction and
--   Members what the loop writes, Iteration the entries of a table, Tables the merged table.
--   The loop has one round more than the tables have entries. SkipList is skiplist.go, as the
--   list of its nodes with the number of their levels: Walk is about its loops, Middle,
--   Changes, Insertion and Deletion about its keys and values. MemTable is memtable.go. Tree
--   is the tree of lsm.go: callers and workers are steps, each atomic under the lock; Reach
--   has the sequences of steps and the invariant, Layers the order in which Get looks,
--   Writes, Flushes and Compactions the steps, Merging the lists of tables around a merge,
--   Reads and Progress what follows, Close and Shutdown the end.
-- - Sharding/ConfigServer: the registries of pkg/sharding/config_server.go; Integrity is
--   about the references from chunks to shards.
-- - Recency: container/list as the caches use it, next to a map with the same keys.
--   Cache/Lru: pkg/cache/lru.go. Its children are about the map and the list (Linked),
--   sequences of calls (Calls), what Get returns (Reads), how recently the keys were used
--   (Ages) and what is evicted (Eviction).
--
-- Bounds. Counters of type uint64 wrap at 2^64; a theorem about a run of calls asks that the
-- counters stay below it. Times are arguments of the calls that read the clock.
--
-- Not modelled: the network servers and clients and the command line tools, which pass calls
-- on; the failures of the operating system's files and the texts of errors; of pkg/storage
-- the memory-mapped disk manager, the storage engine, and in the disk manager Sync, Close and
-- the compaction of pages; of pkg/lsm the listing of a directory as a tree is opened again;
-- of pkg/sharding all but the registries; and the packages named above that have no file
-- here: pkg/database, pkg/document, pkg/query, pkg/aggregation and pkg/replication.
mod Prelude
mod Recency
pub mod Mvcc
pub mod Distributed
pub mod Storage
pub mod Cache
pub mod Index
pub mod Lsm
pub mod Sharding
