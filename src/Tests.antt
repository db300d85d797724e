-- ===== src/Tests.antt =====
-- Small worlds, and the theorems at them.
mod Slots
mod Storage
mod Store
mod Cache
mod Tandem
mod Collect
mod Reclaim
mod Background
use hkv.Base.{
  ℕ, zero, ◌+◌, ◌≡◌, refl, sym, ◌≢◌, false, List, [], ◌∷◌, negsuc, arith, none, update, update_self,
  update_ne, replicate, ◌==◌, if◌then◌else◌,
}
use hkv.Config.{Config, tiny}
use hkv.Memory.{AtEntry, OpEntry, Memory}
use hkv.AddressTable
use hkv.AddressTable.{AddressTable, unstored}
use hkv.ValueStorage
use hkv.ValueStorage.{VsEntry, blank, ValueStorage}
use hkv.ValueStorage.Buffer.{IoUring}
use hkv.ValueStorage.Sorted.{place_all, slice, IsFaithful}
use hkv.OpLog
use hkv.OpLog.{OpLog}
use hkv.Mts.{KeyIndex, World}
use hkv.Mts.InLog.{IsIndex, InLog}
use hkv.Mts.Removed.{Removes}
use hkv.Memory.{put_tagged_ptr, oplog_val}

-- A ring that does what is asked of it, one request after the other.
abbrev pub ring : IoUring
ring = record { submit = place_all; read = slice }

pub ring-IsFaithful : IsFaithful ring
ring-IsFaithful = record { submit = λ rs disk. refl; read = λ disk offset n. refl }

-- An index that is a function.
abbrev pub plain : KeyIndex
plain = record {
  Index = ℕ → ℕ;
  insert = λ key a i. update i key a;
  remove = λ key i. update i key 0;
  lookup = λ key i. i key;
  scan = λ start range i. [];
}

pub plain-IsIndex : IsIndex plain
plain-IsIndex = record {
  lookup-insert = λ key a i h. update_self i key a;
  lookup-insert_else = λ key other a i ne. update_ne i key other a (λ e. ne (sym e));
}

abbrev pub zeroes : Memory
zeroes = record {
  at = λ _. unstored 0;
  op = λ _. record { val = 0; opa = 0; key = 0; size = 0 };
  dc = λ _. none;
}

abbrev pub table : AddressTable
table = AddressTable.init 4096 0

abbrev pub log : OpLog
log = OpLog.init tiny 0 8192 16384

abbrev pub storage : ValueStorage
storage = ValueStorage.init tiny 0 (λ _. replicate 2 blank) (replicate 2 blank) (λ _. blank)

abbrev pub empty_store : World plain
empty_store = record {
  index = λ _. 0;
  tables = λ _. table;
  logs = λ _. log;
  storages = λ _. storage;
  memory = zeroes;
  free_queue = λ _. [];
  cache_queue = λ _. [];
  pending = λ _ _. [];
  waiting = λ _ _. [];
}

pub plain-Removes : Removes plain
plain-Removes = record { lookup-remove = λ key i. update_self i key 0 }

-- The key 7 with the value 71 in the log.
abbrev pub logged_store : World plain
logged_store = record empty_store {
  index = update empty_store.index 7 4096;
  memory = record zeroes {
    at = update zeroes.at 4096 (unstored (put_tagged_ptr 8192 oplog_val));
    op = update zeroes.op 8192 (record { val = 71; opa = 4096; key = 7; size = 64 });
  };
}

pub logged_store-InLog : InLog logged_store.memory 4096 8192 7 71
logged_store-InLog = record {
  entry = λ e. omega (arith, e);
  place = λ e. omega (arith, e);
  user = omega arith;
  linked = refl;
  back = refl;
  holds = (refl, refl);
}
