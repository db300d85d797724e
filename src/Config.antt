-- ===== src/Config.antt =====
-- The sizes of PRISM/include/mts-config.h. The development holds for every choice of them; `prism`
-- is the one that the file makes for 8 threads.
use hkv.Base.{ℕ, ◌*◌, ◌/◌, ◌^◌}

pub record Config : Type 0 where
  -- MTS_AT_ENTRY_NUM
  pub at_entry_num : ℕ
  -- KV_SIZE, the bytes of a log entry
  pub kv_size : ℕ
  -- MTS_OPLOG_HIGH_MARK, the bytes of a log
  pub oplog_high_mark : ℕ
  -- MTS_VS_ENTRIES_PER_CHUNK
  pub entries_per_chunk : ℕ
  -- MTS_VS_CHUNK_NUM, MTS_VS_HIGH_MARK and MTS_VS_LOW_MARK
  pub chunk_num : ℕ
  pub vs_high_mark : ℕ
  pub vs_low_mark : ℕ
  -- MTS_VS_NUM
  pub vs_num : ℕ
  -- W_QD and GC_QD, the requests that one write of a chunk is cut into
  pub w_qd : ℕ
  pub gc_qd : ℕ
  -- R_QD, and READ_IO_SIZE in entries
  pub r_qd : ℕ
  pub read_io_entries : ℕ
  -- MTS_AT_NUM
  pub at_num : ℕ
  -- MTS_ACTIVE_LIST_SIZE and MTS_INACTIVE_LIST_SIZE, in entries
  pub active_list_size : ℕ
  pub inactive_list_size : ℕ
  -- MTS_RECLAIM_PAGES_NUM
  pub reclaim_pages_num : ℕ
  -- MTS_CACHEQUEUE_NUM and IO_URING_RRING_NUM, which are MTS_THREAD_NUM, and IO_COMPLETER_NUM
  pub cachequeue_num : ℕ
  pub rring_num : ℕ
  pub io_completer_num : ℕ

abbrev pub prism : Config
prism = record {
  at_entry_num = 2 ^ 30 / 16;
  kv_size = 1024;
  oplog_high_mark = 2 ^ 34 / 8 / 2;
  entries_per_chunk = 2 ^ 17 / 1024;
  chunk_num = 2 ^ 37 / 2 ^ 17;
  vs_high_mark = 2 ^ 20 * 75 / 100;
  vs_low_mark = 2 ^ 20 * 65 / 100;
  vs_num = 1;
  w_qd = 4;
  gc_qd = 8;
  r_qd = 64;
  read_io_entries = 4096 / 1024;
  at_num = 8;
  active_list_size = 20 * 2 ^ 30 / 16 / 1072;
  inactive_list_size = (20 * 2 ^ 30 * 15 / 16) / 1072;
  reclaim_pages_num = 512;
  cachequeue_num = 8;
  rring_num = 8;
  io_completer_num = 8;
}

-- A choice small enough to follow by hand.
abbrev pub tiny : Config
tiny = record {
  at_entry_num = 4;
  kv_size = 64;
  oplog_high_mark = 256;
  entries_per_chunk = 2;
  chunk_num = 4;
  vs_high_mark = 3;
  vs_low_mark = 2;
  vs_num = 1;
  w_qd = 2;
  gc_qd = 2;
  r_qd = 2;
  read_io_entries = 1;
  at_num = 1;
  active_list_size = 1;
  inactive_list_size = 2;
  reclaim_pages_num = 2;
  cachequeue_num = 2;
  rring_num = 2;
  io_completer_num = 1;
}
