-- ===== src/Mts/Reads.antt =====
-- Reading in PRISM/src/MTS.cpp, PRISM/src/AIO.cpp and PRISM/src/ValueStorage.cpp: lookup and scan,
-- and the batches of reads that they submit.
use hkv.Base.{
  ℕ, zero, suc, ◌+◌, ◌*◌, ◌/◌, ◌%◌, true, false, List, [], ◌∷◌, ◌++◌, magnitude, is_neg, ◌==◌,
  if◌then◌else◌, Run, ok, stop, spinning, ◌>>=◌, length, update, get_or, is_nil,
}
use hkv.Config.{Config}
use hkv.Memory.{Memory, load_at, load_op, load_dc, get_untagged_ptr}
use hkv.ValueStorage.{VsEntry, blank}
use hkv.ValueStorage.Buffer.{IoUring}
use hkv.Mts.{KeyIndex, World, dcache, oplog, valuestorage, get_val_pos}

-- A value that is in memory: the one of the cache, or of the log. Where the entry does not point
-- back, the call retries until another thread has mended it.
unfoldable pub read_dcache : ℕ → Memory → Run ℕ
unfolding load_at load_dc get_untagged_ptr
read_dcache at_entry m = do
  e ← load_at at_entry m
  let p = get_untagged_ptr e.val_addr
  if p == 0
      then stop spinning
      else (do d ← load_dc p m; if d.at_entry == at_entry then ok d.val else stop spinning)

unfoldable pub read_oplog : ℕ → Memory → Run ℕ
unfolding load_at load_op get_untagged_ptr
read_oplog at_entry m = do
  e ← load_at at_entry m
  o ← load_op (get_untagged_ptr e.val_addr) m
  if o.opa == at_entry then ok o.val else stop spinning

-- The leader's loop over the requests from its own on, `n` of them at most: what it appends to the
-- batch, and the requests that the next leader begins with.
unfoldable pub combine : ℕ → List ℕ → List ℕ → List ℕ × List ℕ
combine zero queue batch = (batch, queue)
combine (suc n) [] batch = (batch, [])
combine (suc n) (a ∷ queue) batch = combine n queue (batch ++ a ∷ [])

module _ (io : IoUring) (c : Config) {k : KeyIndex} where
  -- get_val_ccsync and get_val_scan: one read for each pointer whose value is in the storage, as
  -- many as the ring has slots (`n`).
  unfoldable pub prep_reads : ℕ → ℕ → List ℕ → World k → List VsEntry
  prep_reads zero vs_id ats w = []
  prep_reads (suc n) vs_id [] w = []
  prep_reads (suc n) vs_id (a ∷ ats) w =
      let offset = magnitude (w.memory.at a).vs_offset in
      let place =
        offset / c.entries_per_chunk * c.entries_per_chunk + offset % c.entries_per_chunk in
      let entry = get_or (io.read (w.storages vs_id).disk place c.read_io_entries) 0 blank in
      let skipped = prep_reads (suc n) vs_id ats w in
      let more = prep_reads n vs_id ats w in
      if is_neg (w.memory.at a).vs_offset then skipped else entry ∷ more

  unfoldable pub submit_reads : ℕ → ℕ → List ℕ → World k → World k
  unfolding prep_reads
  submit_reads vs_id ring ats w = elim (prep_reads c.r_qd vs_id ats w) [
    | [] ↦ w
    | e ∷ es ↦ record w {
      pending = update w.pending vs_id (update (w.pending vs_id) ring (e ∷ es));
    }
  ]

  -- apply_ops for the leader of `queue`, which is its own request and those that other threads have
  -- put behind it: it waits for the reads before and submits the batch. A call that follows returns
  -- when a leader has taken its request.
  unfoldable pub lead : ℕ → ℕ → List ℕ → World k → Run (List ℕ × World k)
  unfolding combine submit_reads
  lead vs_id ring queue w =
      let (batch, rest) = combine c.r_qd queue (w.waiting vs_id ring) in
      let w' = record w { waiting = update w.waiting vs_id (update (w.waiting vs_id) ring []) } in
      if is_nil (w.pending vs_id ring)
      then ok (rest, submit_reads vs_id ring batch w')
      else stop spinning

  -- apply_ops where no other thread has a request.
  unfoldable pub apply_ops : ℕ → ℕ → ℕ → World k → Run (World k)
  unfolding lead
  apply_ops at_entry vs_id ring w = do (rest, w') ← lead vs_id ring (at_entry ∷ []) w; ok w'

  -- A value in storage comes later, through the cache: the call itself returns 0.
  unfoldable pub lookup : ℕ → World k → Run (ℕ × World k)
  unfolding get_val_pos read_dcache read_oplog apply_ops
  lookup key w =
      let a = k.lookup key w.index in
      if a == 0 then ok (0, w) else (do
        where_it_is ← get_val_pos a w.memory
        elim where_it_is [
          | dcache ↦ do v ← read_dcache a w.memory; ok (v, w)
          | oplog ↦ do v ← read_oplog a w.memory; ok (v, w)
          | valuestorage vs_id ↦ do w' ← apply_ops a vs_id 0 w; ok (0, w')
        ])

  -- The loop of scan: the values in memory, and for each storage the pointers to read.
  unfoldable pub scan_results :
      List ℕ → World k → List ℕ → (ℕ → List ℕ) → Run (List ℕ × (ℕ → List ℕ))
  unfolding get_val_pos read_dcache read_oplog
  scan_results [] w values stored = ok (values, stored)
  scan_results (a ∷ ats) w values stored = do
    where_it_is ← get_val_pos a w.memory
    elim where_it_is [
      | dcache ↦ do v ← read_dcache a w.memory; scan_results ats w (values ++ v ∷ []) stored
      | oplog ↦ do v ← read_oplog a w.memory; scan_results ats w (values ++ v ∷ []) stored
      | valuestorage vs_id ↦
          scan_results ats w values (update stored vs_id (stored vs_id ++ a ∷ []))
    ]

  -- The loop over the storages from `vs_id` on, `n` of them: their number of pointers is added up.
  unfoldable pub scan_storages : ℕ → ℕ → ℕ → (ℕ → List ℕ) → World k → Run (ℕ × World k)
  unfolding submit_reads
  scan_storages zero vs_id ring stored w = ok (0, w)
  scan_storages (suc n) vs_id ring stored w = elim (is_nil (stored vs_id)) [
    | true ↦ scan_storages n (vs_id + 1) ring stored w
    | false ↦ elim (is_nil (w.pending vs_id ring)) [
      | false ↦ stop spinning
      | true ↦ do
        (batched, w') ←
            scan_storages n (vs_id + 1) ring stored (submit_reads vs_id ring (stored vs_id) w)
        ok (length (stored vs_id) + batched, w')
    ]
  ]

  -- The number of values found, and those of them that are in memory.
  unfoldable pub scan : ℕ → ℕ → ℕ → World k → Run (ℕ × List ℕ × World k)
  unfolding scan_results scan_storages
  scan thread start range w = do
    (values, stored) ← scan_results (k.scan start range w.index) w [] (λ _. [])
    (batched, w') ← scan_storages c.vs_num 0 thread stored w
    ok (length values + batched, values, w')
