-- ===== src/Mts/InLog.antt =====
-- Values in the log as PRISM/src/MTS.cpp sees them: what `lookup` returns for one, and what a log with
-- room gives `insert` and `update`.
use hkv.Base.{
  ℕ, ◌+◌, ◌^◌, ◌≤◌, ◌<◌, ◌≡◌, refl, sym, ap, ◌∙◌, ◌≢◌, some, List, pos, negsuc, arith, ok,
  update_self,
}
use hkv.Config.{Config}
use hkv.Memory.{
  AtEntry, OpEntry, Memory, clean_entry, load_at, load_op, store_at, store_op, get_tag,
  put_tagged_ptr, oplog_val,
}
use hkv.Memory.Tags.{IsUserPtr, get_tag-put_self, get_untagged-put_self}
use hkv.ValueStorage.Buffer.{IoUring}
use hkv.OpLog.{NvLog, log_of, set_log, put_ol_entry}
use hkv.OpLog.Queue.{IsValid, entry_size, longer, filled, put_ol_entry-fits}
use hkv.OpLog.Reclaim.{Site, enq}
use hkv.Mts.{KeyIndex, World, oplog, get_val_pos, site_of}
use hkv.Mts.Reads.{read_oplog, lookup}

-- What the documentation of an ordered index promises of its reads after its writes.
pub record IsIndex (k : KeyIndex) : Type 0 where
  pub lookup-insert :
      (key a : ℕ) (i : k.Index) → k.lookup key i ≡ 0 → k.lookup key (k.insert key a i) ≡ a
  pub lookup-insert_else :
      (key other a : ℕ) (i : k.Index)
      → other ≢ key
      → k.lookup other (k.insert key a i) ≡ k.lookup other i

-- The value of the address-table entry `a` is in the log entry `p`, and in no storage.
pub record InLog (m : Memory) (a p key val : ℕ) : Type 0 where
  pub entry : a ≢ 0
  pub place : p ≢ 0
  pub user : IsUserPtr p
  pub linked :
      m.at a
      ≡ record { vs_id = negsuc 0; vs_offset = negsuc 0; val_addr = put_tagged_ptr p oplog_val }
  pub back : (m.op p).opa ≡ a
  pub holds : ((m.op p).key ≡ key) × ((m.op p).val ≡ val)

pub get_val_pos-InLog :
    (m : Memory) (a p key val : ℕ) → InLog m a p key val → get_val_pos a m ≡ ok oplog
unfolding get_val_pos load_at
get_val_pos-InLog m a p key val h =
    ground (arith, h.entry, h.linked, get_tag-put_self p oplog_val h.user (omega arith))

read_oplog-InLog : (m : Memory) (a p key val : ℕ) → InLog m a p key val → read_oplog a m ≡ ok val
unfolding read_oplog load_at load_op
read_oplog-InLog m a p key val h = ground (
  arith,
  h.entry,
  h.linked,
  h.place,
  h.back,
  h.holds,
  get_untagged-put_self p oplog_val h.user (omega arith),
)

-- An entry that fits goes to the log with no look at the storages.
enq-fits :
    (io : IoUring) (c : Config) (draws : List ℕ) (key val : ℕ) (s : Site) (p : ℕ) (log : NvLog)
    (m : Memory)
    → put_ol_entry c (log_of s.oplog s.oplog.working_oplog) key val s.memory ≡ ok (some (p, log, m))
    → enq io c draws key val s
      ≡ ok (some p, record s { oplog = set_log s.oplog s.oplog.working_oplog log; memory = m })
unfolding enq
enq-fits io c draws key val s p log m put = rw put refl

-- The log that `insert` and `update` of a thread write to has room for an entry, and nothing of it
-- was reclaimed since its counters were reset.
pub record HasRoom (c : Config) (log : NvLog) : Type 0 where
  pub valid : IsValid c log
  pub kv_pos : 0 < c.kv_size
  pub kv_small : c.kv_size + 126 < 2 ^ 32
  pub front : log.head_cnt ≡ 0
  pub room : log.tail_cnt + entry_size c ≤ log.log_size

-- The end of `insert` and of `update`: both links between the log entry and the table entry.
pub linked-InLog :
    (m : Memory) (a p key val : ℕ) (e : AtEntry)
    → a ≢ 0
    → p ≢ 0
    → IsUserPtr p
    → e ≡ record { vs_id = negsuc 0; vs_offset = negsuc 0; val_addr = put_tagged_ptr p oplog_val }
    → ((m.op p).key ≡ key) × ((m.op p).val ≡ val)
    → InLog (store_at a e (store_op p (record (m.op p) { opa = a }) m)) a p key val
linked-InLog m a p key val e ne pne user eq h = record {
  entry = ne;
  place = pne;
  user = user;
  linked = update_self m.at a e ∙ eq;
  back = ap (λ (o : OpEntry). o.opa) (update_self m.op p _);
  holds = (
    ap (λ (o : OpEntry). o.key) (update_self m.op p _) ∙ h.0,
    ap (λ (o : OpEntry). o.val) (update_self m.op p _) ∙ h.1,
  );
}

-- Values are found through two words only.
pub InLog-of :
    (m m' : Memory) (a p key val : ℕ)
    → m'.at a ≡ m.at a
    → m'.op p ≡ m.op p
    → InLog m a p key val
    → InLog m' a p key val
InLog-of m m' a p key val e f h = record {
  entry = h.entry;
  place = h.place;
  user = h.user;
  linked = e ∙ h.linked;
  back = ap (λ (o : OpEntry). o.opa) f ∙ h.back;
  holds = (ap (λ (o : OpEntry). o.key) f ∙ h.holds.0, ap (λ (o : OpEntry). o.val) f ∙ h.holds.1);
}

module _ {k : KeyIndex} where
  -- The log of the thread, and the place of the next entry.
  abbrev pub log_for : World k → ℕ → NvLog
  log_for w thread = log_of (w.logs thread) (w.logs thread).working_oplog

  abbrev pub new_place : World k → ℕ → ℕ
  new_place w thread = (log_for w thread).buffer + (log_for w thread).tail_cnt

  -- What `enq` makes of the memory and of the log of the thread.
  abbrev pub logged : Config → World k → ℕ → ℕ → ℕ → Memory
  logged c w thread key val = filled c (log_for w thread) key val w.memory

  abbrev pub logged_site : Config → World k → ℕ → ℕ → ℕ → Site
  logged_site c w thread key val = record (site_of w thread) {
    oplog = set_log (w.logs thread) (w.logs thread).working_oplog (longer c (log_for w thread));
    memory = logged c w thread key val;
  }

module _ (io : IoUring) (c : Config) {k : KeyIndex} where
  -- A value in the log is what `lookup` returns, and the store is as before.
  pub lookup-InLog :
      (w : World k) (key a p val : ℕ)
      → k.lookup key w.index ≡ a
      → InLog w.memory a p key val
      → lookup io c key w ≡ ok (val, w)
  unfolding lookup
  lookup-InLog w key a p val e h = ground (
    arith,
    e,
    h.entry,
    h.linked,
    h.place,
    h.back,
    h.holds,
    get_tag-put_self p oplog_val h.user (omega arith),
    get_untagged-put_self p oplog_val h.user (omega arith),
  )

  pub enq-HasRoom :
      (w : World k) (thread : ℕ) (draws : List ℕ) (key val : ℕ)
      → HasRoom c (log_for w thread)
      → enq io c draws key val (site_of w thread)
        ≡ ok (some (new_place w thread), logged_site c w thread key val)
  enq-HasRoom w thread draws key val r = enq-fits io c draws key val (site_of w thread) _ _ _ (
      put_ol_entry-fits c (log_for w thread) r.valid r.front key val w.memory r.kv_pos r.kv_small
        r.room)

-- The place of the next entry is one of user space.
pub new_place-user :
    {k : KeyIndex} (c : Config) (w : World k) (thread : ℕ)
    → HasRoom c (log_for w thread)
    → (new_place w thread ≢ 0) × IsUserPtr (new_place w thread)
new_place-user c w thread r =
    (λ q. omega (arith, r.valid.based), omega (arith, r.valid.low, r.valid.bounded))

-- A clean table entry is not the one of a value in the log.
pub clean-ne_InLog :
    (m : Memory) (b a p key val : ℕ)
    → get_tag (m.at b).val_addr ≡ pos clean_entry
    → InLog m a p key val
    → a ≢ b
clean-ne_InLog m b a p key val clean h e =
    let tag : get_tag (m.at a).val_addr ≡ pos oplog_val =
      ap (λ (x : AtEntry). get_tag x.val_addr) h.linked
      ∙ get_tag-put_self p oplog_val h.user (omega arith) in
    absurd (clean_or_not (sym clean ∙ ap (λ x. get_tag (m.at x).val_addr) (sym e) ∙ tag))
  where
    clean_or_not : pos clean_entry ≡ pos oplog_val → ⊥
    clean_or_not h = ground arith
