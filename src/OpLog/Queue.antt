-- ===== src/OpLog/Queue.antt =====
-- A log of PRISM/src/OpLog.cpp as a queue: put_ol_entry appends behind, oplog_peek_head and
-- oplog_deq take from the front, and the counters stay inside the log.
use hkv.Base.{
  ℕ, ◌+◌, ◌-◌, ◌%◌, ◌^◌, ◌≤◌, ◌<◌, ◌≡◌, refl, sym, ap, ◌∙◌, subst, ◌≢◌, inl, inr, true, false,
  Option, none, some, List, [], ◌∷◌, ◌++◌, arith, ltb, ltb→lt, ltb-false→le, Bool-cases, ◌==◌, Run,
  ok, update_ne, update-update,
}
use hkv.Config.{Config}
use hkv.Memory.{OpEntry, Memory, store_op}
use hkv.OpLog.{
  NvLog, align_uint_to_cacheline, oplog_used, nvlog_index, oplog_at, nvlog_enq, oplog_enq,
  put_ol_entry, oplog_peek_head, oplog_deq,
}

-- The bytes that an entry takes.
abbrev pub entry_size : Config → ℕ
entry_size c = align_uint_to_cacheline c.kv_size

-- The counters of a log start at 0 and start there again when it is reclaimed, so the tail stays
-- inside the log. The log lies in user space.
pub record IsValid (c : Config) (log : NvLog) : Type 0 where
  pub sized : log.log_size ≡ c.oplog_high_mark
  pub ordered : log.head_cnt ≤ log.tail_cnt
  pub bounded : log.tail_cnt ≤ log.log_size
  pub based : 0 < log.buffer
  pub low : log.buffer + log.log_size < 2 ^ 47

-- The keys and values of the entries from the counter `cnt` to the tail of a log in `buffer`.
abbrev pub Entries : Config → ℕ → ℕ → Memory → ℕ → List (ℕ × ℕ) → Type 0
Entries c buffer tail m cnt [] = cnt ≡ tail
Entries c buffer tail m cnt ((key, val) ∷ es) =
    ((m.op (buffer + cnt)).key ≡ key)
    × ((m.op (buffer + cnt)).val ≡ val)
    × ((m.op (buffer + cnt)).size ≡ entry_size c)
    × Entries c buffer tail m (cnt + entry_size c) es

pub record IsQueue (c : Config) (log : NvLog) (m : Memory) (es : List (ℕ × ℕ)) : Type 0 where
  pub valid : IsValid c log
  pub entries : Entries c log.buffer log.tail_cnt m log.head_cnt es

-- The size of an entry, which is counted in an unsigned int.
pub entry_size-bounds :
    (c : Config)
    → 0 < c.kv_size
    → c.kv_size + 63 < 2 ^ 32
    → (0 < entry_size c) × (c.kv_size ≤ entry_size c)
unfolding align_uint_to_cacheline
entry_size-bounds c pos h = (omega arith, omega arith)

aligned :
    (c : Config) → c.kv_size + 126 < 2 ^ 32 → align_uint_to_cacheline (entry_size c) ≡ entry_size c
unfolding align_uint_to_cacheline
aligned c h = omega arith

pub entry_size-small : (c : Config) → c.kv_size + 126 < 2 ^ 32 → entry_size c < 2 ^ 32
unfolding align_uint_to_cacheline
entry_size-small c h = omega arith

pub Entries-le :
    (c : Config) (buffer tail : ℕ) (m : Memory) (cnt : ℕ) (es : List (ℕ × ℕ))
    → Entries c buffer tail m cnt es
    → cnt ≤ tail
Entries-le c buffer tail m cnt [] h = omega arith
Entries-le c buffer tail m cnt (e ∷ es) h =
    omega (arith, Entries-le c buffer tail m (cnt + entry_size c) es h.3)

module _ (c : Config) (log : NvLog) where
  -- The log with one entry more, and the memory with the entry.
  abbrev pub longer : NvLog
  longer = record log {
    tail_cnt = log.tail_cnt + entry_size c;
    stored_tail = log.tail_cnt + entry_size c;
  }

  abbrev pub filled : ℕ → ℕ → Memory → Memory
  filled key val m =
      store_op (log.buffer + log.tail_cnt)
        (record (m.op (log.buffer + log.tail_cnt)) { size = entry_size c; key = key; val = val }) m

  Entries-filled :
      (key val : ℕ) (m : Memory) (cnt : ℕ) (es : List (ℕ × ℕ))
      → 0 < entry_size c
      → Entries c log.buffer log.tail_cnt m cnt es
      → Entries c log.buffer
          (log.tail_cnt + entry_size c)
          (filled key val m)
          cnt
          (es ++ (key, val) ∷ [])
  Entries-filled key val m cnt [] pos h = (ground arith, ground arith, ground arith, omega arith)
  Entries-filled key val m cnt ((k, v) ∷ es) pos h =
      let le = Entries-le c log.buffer log.tail_cnt m (cnt + entry_size c) es h.3 in
      let other : (filled key val m).op (log.buffer + cnt) ≡ m.op (log.buffer + cnt) =
        update_ne m.op (log.buffer + log.tail_cnt) (log.buffer + cnt) _ (omega arith) in
      (
        ap (λ (o : OpEntry). o.key) other ∙ h.0,
        ap (λ (o : OpEntry). o.val) other ∙ h.1,
        ap (λ (o : OpEntry). o.size) other ∙ h.2,
        Entries-filled key val m (cnt + entry_size c) es pos h.3,
      )

  module _ (v : IsValid c log) (empty_front : log.head_cnt ≡ 0) where
    used-tail : oplog_used log ≡ log.tail_cnt
    unfolding oplog_used
    used-tail = omega (arith, v.low, v.bounded)

    nvlog_enq-fits :
        (e : ℕ) (m : Memory)
        → align_uint_to_cacheline e ≡ e
        → 0 < e
        → log.tail_cnt + e ≤ log.log_size
        → nvlog_enq log e m
          ≡ some (
            log.buffer + log.tail_cnt,
            record log { tail_cnt = log.tail_cnt + e },
            store_op
                (log.buffer + log.tail_cnt)
                (record (m.op (log.buffer + log.tail_cnt)) { size = e })
                m,
          )
    unfolding nvlog_enq oplog_at nvlog_index
    nvlog_enq-fits e m al pos le =
        let idx : log.tail_cnt % log.log_size ≡ log.tail_cnt = grind arith in
        let tail : (log.tail_cnt + e) % 2 ^ 64 ≡ log.tail_cnt + e = omega (arith, v.low) in
        let used : (log.tail_cnt + e + 2 ^ 64 - log.head_cnt) % 2 ^ 64 ≡ log.tail_cnt + e =
          omega (arith, v.low) in
        let b1 : ltb log.log_size e ≡ false = ground arith in
        let b2 : ltb log.log_size (log.tail_cnt + e) ≡ false = ground arith in
        simp (al, idx, tail, used, b1, b2)

    pub put_ol_entry-fits :
        (key val : ℕ) (m : Memory)
        → 0 < c.kv_size
        → c.kv_size + 126 < 2 ^ 32
        → log.tail_cnt + entry_size c ≤ log.log_size
        → put_ol_entry c log key val m
          ≡ ok (some (log.buffer + log.tail_cnt, longer, filled key val m))
    unfolding put_ol_entry oplog_enq
    put_ol_entry-fits key val m pos h le =
        let al : align_uint_to_cacheline (entry_size c) ≡ entry_size c = aligned c h in
        let b : ltb c.oplog_high_mark ((oplog_used log + entry_size c) % 2 ^ 64) ≡ false =
          ground (arith, used-tail, v.low, v.sized) in
        ground (
          arith,
          b,
          update-update m.op (log.buffer + log.tail_cnt),
          nvlog_enq-fits (entry_size c) m al (entry_size-bounds c pos (omega arith)).0 le,
        )

    pub put_ol_entry-full :
        (key val : ℕ) (m : Memory)
        → entry_size c < 2 ^ 32
        → log.log_size < log.tail_cnt + entry_size c
        → put_ol_entry c log key val m ≡ ok none
    unfolding put_ol_entry
    put_ol_entry-full key val m small lt =
        let b : ltb c.oplog_high_mark ((oplog_used log + entry_size c) % 2 ^ 64) ≡ true =
          ground (arith, used-tail, v.low, v.sized, v.bounded) in
        simp b

-- The two outcomes of put_ol_entry: NEED_RECLAIM where the entry does not fit, else the entry is
-- behind the others, the tail is persistent, and no other word of memory changes.
pub data Put (c : Config) (log : NvLog) (m : Memory) (key val : ℕ) (es : List (ℕ × ℕ))
    : Run (Option (ℕ × NvLog × Memory)) → Type 0 where
  need_reclaim : log.log_size < log.tail_cnt + entry_size c → Put c log m key val es (ok none)
  put :
      (p : ℕ) (log' : NvLog) (m' : Memory)
      → log.tail_cnt + entry_size c ≤ log.log_size
      → IsQueue c log' m' (es ++ (key, val) ∷ [])
      → log'.head_cnt ≡ 0
      → log'.stored_tail ≡ log'.tail_cnt
      → ((q : ℕ) → q ≢ p → m'.op q ≡ m.op q)
      → (m'.at ≡ m.at) × (m'.dc ≡ m.dc)
      → Put c log m key val es (ok (some (p, log', m')))

-- On a log of which nothing was reclaimed since its counters were reset, put_ol_entry asks for
-- reclaiming exactly where the entry does not fit behind the others, and otherwise appends it.
pub put_ol_entry-Put :
    (c : Config) (log : NvLog) (key val : ℕ) (m : Memory) (es : List (ℕ × ℕ))
    → 0 < c.kv_size
    → c.kv_size + 126 < 2 ^ 32
    → IsQueue c log m es
    → log.head_cnt ≡ 0
    → Put c log m key val es (put_ol_entry c log key val m)
put_ol_entry-Put c log key val m es pos h q front =
    let v : IsValid c log = q.valid in
    elim (Bool-cases (ltb log.log_size (log.tail_cnt + entry_size c))) [
      | inl full ↦
          subst (Put c log m key val es)
            (sym (
              put_ol_entry-full c log q.valid front key val m (entry_size-small c h)
                (ltb→lt _ _ full)))
            (need_reclaim (ltb→lt _ _ full))
      | inr fits ↦
          let le = ltb-false→le _ _ fits in
          subst (Put c log m key val es)
            (sym (put_ol_entry-fits c log q.valid front key val m pos h le))
            (put _ (longer c log) (filled c log key val m) le
              (record {
                valid = record {
                  sized = v.sized;
                  ordered = omega (arith, v.ordered);
                  bounded = le;
                  based = v.based;
                  low = v.low;
                };
                entries =
                    Entries-filled c log key val m log.head_cnt es
                      (entry_size-bounds c pos (omega arith)).0 q.entries;
              })
              front refl (λ r ne. update_ne m.op _ r _ (λ e. ne (sym e))) (refl, refl))
    ]

-- The front of a log, and what oplog_deq makes of it.
pub front-IsQueue :
    (c : Config) (log : NvLog) (key val : ℕ) (m : Memory) (es : List (ℕ × ℕ))
    → 0 < entry_size c
    → IsQueue c log m ((key, val) ∷ es)
    → (oplog_peek_head log ≡ some (log.buffer + log.head_cnt))
      × (oplog_deq log m ≡ record log { head_cnt = log.head_cnt + entry_size c })
      × (log.head_cnt + entry_size c ≤ log.tail_cnt)
unfolding oplog_peek_head oplog_deq oplog_at nvlog_index
front-IsQueue c log key val m es some_left q =
    let le = Entries-le c log.buffer log.tail_cnt m (log.head_cnt + entry_size c) es q.entries.3 in
    let v : IsValid c log = q.valid in
    let ne : (log.head_cnt == log.tail_cnt) ≡ false = ground arith in
    let idx : log.head_cnt % log.log_size ≡ log.head_cnt = grind arith in
    (simp (ne, idx), ground (arith, ne, idx, q.entries.2), le)

-- An entry at the front is found by oplog_peek_head, and oplog_deq leaves the others behind.
pub oplog_deq-IsQueue :
    (c : Config) (log : NvLog) (key val : ℕ) (m : Memory) (es : List (ℕ × ℕ))
    → 0 < c.kv_size
    → c.kv_size + 63 < 2 ^ 32
    → IsQueue c log m ((key, val) ∷ es)
    → (p : ℕ) × (oplog_peek_head log ≡ some p)
      × ((m.op p).key ≡ key)
      × ((m.op p).val ≡ val)
      × IsQueue c (oplog_deq log m) m es
      × (oplog_used (oplog_deq log m) + entry_size c ≡ oplog_used log)
unfolding oplog_used
oplog_deq-IsQueue c log key val m es pos h q =
    let some_left : 0 < entry_size c = (entry_size-bounds c pos h).0 in
    let v : IsValid c log = q.valid in
    let (peek, next, le) = front-IsQueue c log key val m es some_left q in
    (
      log.buffer + log.head_cnt,
      peek,
      q.entries.0,
      q.entries.1,
      subst (λ l. IsQueue c l m es) (sym next)
          (record {
            valid = record {
              sized = v.sized;
              ordered = le;
              bounded = v.bounded;
              based = v.based;
              low = v.low;
            };
            entries = q.entries.3;
          }),
      ap (λ l. oplog_used l + entry_size c) next ∙ omega arith,
    )

-- An empty log has no front, and oplog_deq leaves it as it is.
pub oplog_deq-empty :
    (c : Config) (log : NvLog) (m : Memory)
    → IsQueue c log m []
    → (oplog_peek_head log ≡ none) × (oplog_deq log m ≡ log)
unfolding oplog_peek_head oplog_deq
oplog_deq-empty c log m q = (ground (arith, q.entries), ground (arith, q.entries))
