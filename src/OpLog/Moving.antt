-- ===== src/OpLog/Moving.antt =====
-- One round of `OpLog::reclaim` of PRISM/src/OpLog.cpp: the entry at the head moves on, or stays behind.
use hkv.Base.{
  ℕ, ◌+◌, ◌≤◌, ◌≡◌, refl, sym, ap, subst, ◌∙◌, ◌≢◌, inl, inr, true, false, List, [], ◌∷◌, ◌++◌,
  arith, ok, length, All, Bool-cases, update, update_same,
}
use mathlib.Core.List.{append-nil}
use hkv.Config.{Config}
use hkv.Memory.{Memory, load_at, load_op}
use hkv.ValueStorage.{VsEntry, ValueStorage}
use hkv.ValueStorage.Buffer.{IoUring}
use hkv.ValueStorage.Started.{Ready, SameFile, put_vs_entry-Begun}
use hkv.OpLog.Live.{is_current, moved, mark_all}
use hkv.OpLog.Reclaim.{Site, move_entry}

-- The site with another storage and memory.
abbrev pub with_vs : Site → ℕ → ValueStorage → Memory → Site
with_vs s vs_id vs m = record s { storages = update s.storages vs_id vs; memory = m }

module _ (io : IoUring) (c : Config) (vs_id : ℕ) where
  -- A buffer that took what was moved.
  pub record Took (s : Site) (p : ℕ) (es tail : List VsEntry) : Type 0 where
    pub vs : ValueStorage
    pub left : List VsEntry
    pub run :
        move_entry io c vs_id p s ≡ ok (with_vs s vs_id vs (mark_all (moved s.memory p) s.memory))
    pub ready : Ready c vs s.oplog.g_oplog_id (es ++ moved s.memory p) left
    pub same : SameFile (s.storages vs_id) vs
    pub unused : All (λ e. e.at_entry ≡ 0) left
    pub room : length left + length (moved s.memory p) ≡ length tail

  move_entry-stale :
      (s : Site) (p : ℕ) (es tail : List VsEntry)
      → p ≢ 0
      → (s.memory.op p).opa ≢ 0
      → is_current s.memory p ≡ false
      → Ready c (s.storages vs_id) s.oplog.g_oplog_id es tail
      → All (λ e. e.at_entry ≡ 0) tail
      → Took s p es tail
  unfolding move_entry load_op load_at
  move_entry-stale s p es tail np na stale ready unused =
      let nothing : moved s.memory p ≡ [] = rw stale refl in
      record {
        vs = s.storages vs_id;
        left = tail;
        run = rw nothing (ground (arith, np, na, stale, update_same s.storages vs_id));
        ready =
            subst (λ l. Ready c (s.storages vs_id) s.oplog.g_oplog_id l tail)
              (sym (ap (λ l. es ++ l) nothing ∙ append-nil es)) ready;
        same = record { bitmap = refl; disk = refl; id = refl };
        unused = unused;
        room = omega (arith, ap length nothing);
      }

  move_entry-current :
      (s : Site) (p : ℕ) (es tail : List VsEntry) (x : VsEntry)
      → p ≢ 0
      → (s.memory.op p).opa ≢ 0
      → is_current s.memory p ≡ true
      → Ready c (s.storages vs_id) s.oplog.g_oplog_id es (x ∷ tail)
      → All (λ e. e.at_entry ≡ 0) tail
      → Took s p es (x ∷ tail)
  unfolding move_entry load_op load_at
  move_entry-current s p es tail x np na now ready unused =
      let e = s.memory.op p in
      let (vs', run, b, same) =
        put_vs_entry-Begun io c s.oplog.g_oplog_id e.key e.val e.opa (s.storages vs_id) s.memory es
          tail x na ready in
      let all : moved s.memory p ≡ record { at_entry = e.opa; key = e.key; val = e.val } ∷ [] =
        rw now refl in
      record {
        vs = vs';
        left = tail;
        run = rw all (ground (arith, np, na, now, run));
        ready = rw all (inr b);
        same = same;
        unused = unused;
        room = omega (arith, ap length all);
      }

  -- An entry that is current goes to the buffer if there is room, and one that is not is passed over.
  pub move_entry-Took :
      (s : Site) (p : ℕ) (es tail : List VsEntry)
      → p ≢ 0
      → (s.memory.op p).opa ≢ 0
      → Ready c (s.storages vs_id) s.oplog.g_oplog_id es tail
      → All (λ e. e.at_entry ≡ 0) tail
      → length (moved s.memory p) ≤ length tail
      → Took s p es tail
  move_entry-Took s p es [] np na ready unused room = elim (Bool-cases (is_current s.memory p)) [
    | inl now ↦ absurd (omega (arith, rw now at room))
    | inr stale ↦ move_entry-stale s p es [] np na stale ready unused
  ]
  move_entry-Took s p es (x ∷ tail) np na ready unused room =
      elim (Bool-cases (is_current s.memory p)) [
        | inl now ↦ move_entry-current s p es tail x np na now ready unused.1
        | inr stale ↦ move_entry-stale s p es (x ∷ tail) np na stale ready unused
      ]
