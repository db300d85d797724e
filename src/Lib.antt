-- ===== src/Lib.antt =====
-- A model of PRISM, the key-value store over persistent memory and SSDs in the directory PRISM, and the
-- theorems about it. A value is in one of three places: in a persistent write buffer (PWB), to which every
-- insert and update goes, in value storage on an SSD, to which full buffers are reclaimed, or in a cache
-- in DRAM, which reads fill. An entry of an address table (HSIT) points at the place, and the index maps
-- a key to its entry.
--
-- The parts, and the files that model them:
-- - Config: the sizes of PRISM/include/mts-config.h, which the theorems leave open.
-- - Memory, Memory/Tags: the entries that the components share, and the tagged pointers of
--   PRISM/src/util.cpp. A pointer is a 64-bit word, and an access through 0 stops.
-- - AddressTable: PRISM/src/AddressTable.cpp; `assign` and `free` keep their names, and `relink_to_ol` is
--   the link_to_ol of an update. Slots and Assign hold the proofs.
-- - ValueStorage: PRISM/src/ValueStorage.cpp. Buffer has the write buffers, Link the links to the address
--   table, Put the write path, Collect garbage collection; Chunks, Filling, Sorted,
--   Linked, Flush, Started and Forced hold proofs on these, and Chunkwise, Moved, Relinked, Gathered, Collected, Victims,
--   Begun, Whole and Everywhere those on garbage collection.
-- - OpLog: PRISM/src/OpLog.cpp with the control structure of PRISM/lib/TSOpLog. Reclaim has the reclaiming
--   thread, cut into steps, and `enq`; Queue, Swap and Pick hold proofs, and Live, Moving, Logs, Rounds,
--   Drained, Emptied, Reclaimed and Joined those on the reclaiming thread.
-- - Mts: PRISM/src/MTS.cpp and PRISM/src/AIO.cpp. Reads has lookup and scan, Calls has insert, update
--   (`update_key`), remove and recover; InLog, Inserted, Updated, Flushed, Collecting,
--   Reclaiming, Combined, Leaders, Fetched and Removed hold proofs; Leaders also has `lead_all`, in which
--   the leaders of one queue of requests follow one another.
-- - Background: the threads of PRISM/src/MTS.cpp that fill the cache: DramCacheThreadExec (`cache_round`) and
--   IOCompleterThreadExec (`completer_round`), a round of a loop as a function. Completed, Scanned and
--   Served hold proofs.
-- - LruList, CacheThread, CacheThread/Evict: PRISM/src/LRUList.cpp and PRISM/src/CacheThread.cpp.
--   LruList/Ends, Tail, Sequences, Unlinked, Moved, TakenOut and Removed, and Places, Cached and
--   Promoted below CacheThread hold proofs.
-- - Prototype: the tandem index of the directory Prototype. Nodes has Prototype/include/node.h; Pool the two
--   pools of nodes; ValueList is Prototype/src/valuelist.cpp (Chain, Placed, Inserted, Found, Changed, Lost
--   and Empty hold proofs); Skiplist is Prototype/src/dramSkiplist.cpp (Pivot and Levels hold proofs); and
--   Tandem is Prototype/src/tandemIndex.cpp (Reading, Writing, Kept and Inserted hold proofs). A pointer to
--   a node is an address, and a node links others by number.
-- - Base: numbers, lists, runs that may stop, sorting (Sort, and Order for the order being the only one). Tests: small worlds and the theorems at them.
--
-- Conventions. A call is a function into `Run`, which returns or stops with a reason. A call runs to its
-- end on one thread; the work of other threads stands between calls, and a loop that waits for another
-- thread stops as `spinning`. A place on the disk is counted in entries. Random numbers and what malloc
-- returns are arguments. The bounds: the scan for an empty slot gets one round more than there are slots
-- left, the reclaiming loop one more than there are cache lines in use, eviction reclaim_pages_num rounds;
-- only the walks along a scan chain and the loops of Prototype take a bound from the caller. `std::sort`
-- is Base.Sort.sort_by, which keeps the order of equal keys; the program's sort promises none. So the
-- results on garbage collection that depend on it ask for distinct keys, with which there is one order
-- only (Base.Order); used chunks with equal counts are taken by rising offset.
--
-- Parameters: the index (PRISM/lib/pactree) is a record of its four operations, and io_uring a record of
-- what a batch of requests does to the disk. Not modelled: locks and memory order, statistics, the
-- start and end of the threads, and the other programs of the repository (BwTree, masstree, the workload
-- generator and the scripts).
pub mod Base
pub mod Config
pub mod Memory
pub mod AddressTable
pub mod ValueStorage
pub mod OpLog
pub mod Mts
pub mod LruList
pub mod CacheThread
pub mod Background
pub mod Prototype
pub mod Tests
