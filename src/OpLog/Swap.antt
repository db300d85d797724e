-- ===== src/OpLog/Swap.antt =====
-- `enq` of PRISM/src/OpLog.cpp on a full log: the other log takes the entry, and the full one goes to a
-- new reclaiming thread.
use hkv.Base.{
  ℕ, ◌+◌, ◌^◌, ◌≢◌, ◌⊎◌, ◌≤◌, ◌<◌, ◌≡◌, refl, sym, ap, ◌∙◌, subst, inl, inr, false, Option, none,
  some, List, [], ◌∷◌, ◌++◌, arith, ◌==◌, Bool-cases, Run, ok,
}
use hkv.Config.{Config}
use hkv.Memory.{Memory, OpEntry}
use hkv.ValueStorage.Buffer.{IoUring}
use hkv.OpLog.{NvLog, OpLog, spawned, put_ol_entry, get_another_oplog, log_of, set_log}
use hkv.OpLog.Queue.{
  IsValid, IsQueue, Entries, Entries-le, entry_size-bounds, put_ol_entry-fits, Put, need_reclaim,
  put, entry_size, entry_size-small, put_ol_entry-full, put_ol_entry-Put,
}
use hkv.OpLog.Reclaim.{Site, enq, swap_and_put}

took :
    (c : Config) (log : NvLog) (m : Memory) (key val : ℕ) (es : List (ℕ × ℕ))
    {r : Run (Option (ℕ × NvLog × Memory))}
    → log.tail_cnt + entry_size c ≤ log.log_size
    → Put c log m key val es r
    → (p : ℕ) × (log' : NvLog) × (m' : Memory) × (r ≡ ok (some (p, log', m')))
      × IsQueue c log' m' (es ++ (key, val) ∷ [])
      × ((q : ℕ) → q ≢ p → m'.op q ≡ m.op q)
      × (m'.at ≡ m.at)
      × (m'.dc ≡ m.dc)
took c log m key val es fits (need_reclaim lt) = absurd (omega arith)
took c log m key val es fits (put p log' m' le q front kept else_same same) =
    (p, log', m', refl, q, else_same, same.0, same.1)

-- The place that a result of put_ol_entry names.
abbrev place_of : Run (Option (ℕ × NvLog × Memory)) → ℕ
place_of (ok (some x)) = x.0
place_of r = 0

-- Entries stay where the words between the two counters do.
Entries-kept :
    (c : Config) (buffer tail : ℕ) (m m' : Memory) (cnt : ℕ) (es : List (ℕ × ℕ))
    → 0 < entry_size c
    → ((q : ℕ) → buffer + cnt ≤ q → q < buffer + tail → m'.op q ≡ m.op q)
    → Entries c buffer tail m cnt es
    → Entries c buffer tail m' cnt es
Entries-kept c buffer tail m m' cnt [] size same h = h
Entries-kept c buffer tail m m' cnt ((key, val) ∷ es) size same h =
    let le = Entries-le c buffer tail m (cnt + entry_size c) es h.3 in
    let here = same (buffer + cnt) (omega arith) (omega arith) in
    (
      ap (λ (o : OpEntry). o.key) here ∙ h.0,
      ap (λ (o : OpEntry). o.val) here ∙ h.1,
      ap (λ (o : OpEntry). o.size) here ∙ h.2,
      Entries-kept c buffer tail m m' (cnt + entry_size c) es size
          (λ q from to. same q (omega arith) to) h.3,
    )

-- The two logs do not share a place of the state.
pub log_of-set_log :
    (ol : OpLog) (id : ℕ) (log : NvLog)
    → (log_of (set_log ol (get_another_oplog id) log) (get_another_oplog id) ≡ log)
      × (log_of (set_log ol (get_another_oplog id) log) id ≡ log_of ol id)
unfolding get_another_oplog
log_of-set_log ol id log = elim (Bool-cases (id == 0)) [
  | inl zero_id ↦ simp zero_id (refl, refl)
  | inr other_id ↦ simp other_id (refl, refl)
]

abbrev swapped : OpLog → OpLog
swapped ol = record ol {
  working_oplog = get_another_oplog ol.working_oplog;
  reclaimed_oplog = ol.working_oplog;
  reclaim_thread = some (spawned ol.working_oplog);
}

swap_and_put-ok :
    (io : IoUring) (c : Config) (key val : ℕ) (s : Site) (p : ℕ) (log : NvLog) (m : Memory)
    → put_ol_entry c (log_of s.oplog (get_another_oplog s.oplog.working_oplog)) key val s.memory
      ≡ ok (some (p, log, m))
    → swap_and_put io c key val s
      ≡ ok (
        some p,
        record s {
          oplog = set_log (swapped s.oplog) (get_another_oplog s.oplog.working_oplog) log;
          memory = m;
        },
      )
unfolding swap_and_put
swap_and_put-ok io c key val s p log m run = rw run refl

enq-full :
    (io : IoUring) (c : Config) (draws : List ℕ) (key val : ℕ) (s : Site)
    → put_ol_entry c (log_of s.oplog s.oplog.working_oplog) key val s.memory ≡ ok none
    → s.oplog.reclaim_lock ≡ false
    → enq io c draws key val s ≡ swap_and_put io c key val s
unfolding enq
enq-full io c draws key val s full idle = rw full (simp idle)

-- What `enq` leaves of a full log: the entry is alone in the other log, which is the working one, the
-- counters of the full log are as they were, for the thread that was created to reclaim it, and of
-- memory the first place of the other log changes alone.
pub record Swapped (c : Config) (key val : ℕ) (s s' : Site) : Type 0 where
  pub working : s'.oplog.working_oplog ≡ get_another_oplog s.oplog.working_oplog
  pub thread : s'.oplog.reclaim_thread ≡ some (spawned s.oplog.working_oplog)
  pub queue : IsQueue c (log_of s'.oplog s'.oplog.working_oplog) s'.memory ((key, val) ∷ [])
  pub full_log : log_of s'.oplog s.oplog.working_oplog ≡ log_of s.oplog s.oplog.working_oplog
  pub same_storages : s'.storages ≡ s.storages
  pub same_at : s'.memory.at ≡ s.memory.at
  pub same_dc : s'.memory.dc ≡ s.memory.dc
  pub op_else :
      (q : ℕ)
      → q ≢ (log_of s.oplog (get_another_oplog s.oplog.working_oplog)).buffer
      → s'.memory.op q ≡ s.memory.op q

pub working-set_log :
    (ol : OpLog) (id : ℕ) (log : NvLog)
    → ((set_log ol id log).working_oplog ≡ ol.working_oplog)
      × ((set_log ol id log).reclaim_thread ≡ ol.reclaim_thread)
working-set_log ol id log = elim (Bool-cases (id == 0)) [
  | inl e ↦ simp e (refl, refl)
  | inr e ↦ simp e (refl, refl)
]

-- The other log, when it is empty, takes an entry.
pub swap_and_put-Swapped :
    (io : IoUring) (c : Config) (key val : ℕ) (s : Site)
    → 0 < c.kv_size
    → c.kv_size + 126 < 2 ^ 32
    → entry_size c ≤ c.oplog_high_mark
    → IsQueue c (log_of s.oplog (get_another_oplog s.oplog.working_oplog)) s.memory []
    → (log_of s.oplog (get_another_oplog s.oplog.working_oplog)).head_cnt ≡ 0
    → (p : ℕ) × (s' : Site) × (swap_and_put io c key val s ≡ ok (some p, s'))
      × Swapped c key val s s'
swap_and_put-Swapped io c key val s h1 h2 room q other_front =
    let id = s.oplog.working_oplog in
    let other = get_another_oplog id in
    let v2 : IsValid c (log_of s.oplog other) = q.valid in
    let fits : (log_of s.oplog other).tail_cnt + entry_size c ≤ (log_of s.oplog other).log_size =
      omega (arith, v2.sized, q.entries, other_front) in
    let (p, log, m, run, q', else_same, at_kept, dc_kept) =
      took c (log_of s.oplog other) s.memory key val [] fits
        (put_ol_entry-Put c (log_of s.oplog other) key val s.memory [] h1 h2 q other_front) in
    let first : p ≡ (log_of s.oplog other).buffer =
      ap place_of (
        sym run
        ∙ put_ol_entry-fits c (log_of s.oplog other) v2 other_front key val s.memory h1 h2 fits)
      ∙ omega (arith, q.entries, other_front) in
    let ol' = set_log (swapped s.oplog) other log in
    let (w, t) = working-set_log (swapped s.oplog) other log in
    let (there, kept) = log_of-set_log (swapped s.oplog) id log in
    (
      p,
      record s { oplog = ol'; memory = m },
      swap_and_put-ok io c key val s p log m run,
      record {
        working = w;
        thread = t;
        queue = subst (λ l. IsQueue c l m ((key, val) ∷ [])) (sym (ap (log_of ol') w ∙ there)) q';
        full_log = kept;
        same_storages = refl;
        same_at = at_kept;
        same_dc = dc_kept;
        op_else = λ x ne. else_same x (λ e. ne (e ∙ first));
      },
    )

-- Where the working log, which holds the entries `es`, has no room, no reclaiming thread has taken the
-- lock, and the other log is empty, takes an entry and lies apart from those, `enq` returns a place:
-- the entry is alone in the other log, which is the working one then, and the full log has its
-- counters and the same entries in memory, for the thread that was created to reclaim it. Of memory
-- the first place of the other log changes alone.
pub enq-Swapped :
    (io : IoUring) (c : Config) (draws : List ℕ) (key val : ℕ) (s : Site) (es : List (ℕ × ℕ))
    → 0 < c.kv_size
    → c.kv_size + 126 < 2 ^ 32
    → entry_size c ≤ c.oplog_high_mark
    → IsQueue c (log_of s.oplog s.oplog.working_oplog) s.memory es
    → (log_of s.oplog s.oplog.working_oplog).head_cnt ≡ 0
    → c.oplog_high_mark < (log_of s.oplog s.oplog.working_oplog).tail_cnt + entry_size c
    → IsQueue c (log_of s.oplog (get_another_oplog s.oplog.working_oplog)) s.memory []
    → (log_of s.oplog (get_another_oplog s.oplog.working_oplog)).head_cnt ≡ 0
    → ((log_of s.oplog s.oplog.working_oplog).buffer
          + (log_of s.oplog s.oplog.working_oplog).tail_cnt
        ≤ (log_of s.oplog (get_another_oplog s.oplog.working_oplog)).buffer)
      ⊎ ((log_of s.oplog (get_another_oplog s.oplog.working_oplog)).buffer
          < (log_of s.oplog s.oplog.working_oplog).buffer)
    → s.oplog.reclaim_lock ≡ false
    → (p : ℕ) × (s' : Site) × (enq io c draws key val s ≡ ok (some p, s'))
      × Swapped c key val s s'
      × IsQueue c (log_of s'.oplog s.oplog.working_oplog) s'.memory es
enq-Swapped io c draws key val s es h1 h2 room full_queue front full q other_front apart idle =
    let log = log_of s.oplog s.oplog.working_oplog in
    let v = full_queue.valid in
    let (p, s', run, h) = swap_and_put-Swapped io c key val s h1 h2 room q other_front in
    let no_room =
      put_ol_entry-full c log v front key val s.memory (entry_size-small c h2)
        (omega (arith, v.sized)) in
    let kept =
      Entries-kept c log.buffer log.tail_cnt s.memory s'.memory log.head_cnt es
        (entry_size-bounds c h1 (omega arith)).0
        (λ x from to. h.op_else x (λ e. outside x from to e)) full_queue.entries in
    (
      p,
      s',
      enq-full io c draws key val s no_room idle ∙ run,
      h,
      subst (λ l. IsQueue c l s'.memory es) (sym h.full_log) (record { valid = v; entries = kept }),
    )
  where
    outside :
        (x : ℕ)
        → (log_of s.oplog s.oplog.working_oplog).buffer
            + (log_of s.oplog s.oplog.working_oplog).head_cnt
          ≤ x
        → x
          < (log_of s.oplog s.oplog.working_oplog).buffer
            + (log_of s.oplog s.oplog.working_oplog).tail_cnt
        → x ≢ (log_of s.oplog (get_another_oplog s.oplog.working_oplog)).buffer
    outside x from to e = elim apart [
      | inl before ↦ omega (arith, before, e, from, to)
      | inr behind ↦ omega (arith, behind, e, from, to)
    ]
