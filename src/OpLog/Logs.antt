-- ===== src/OpLog/Logs.antt =====
-- The two logs of PRISM/src/OpLog.cpp as parts of its state.
use hkv.Base.{ℕ, ◌≡◌, refl, inl, inr, ◌==◌, Bool-cases}
use hkv.OpLog.{NvLog, OpLog, log_of, set_log}

pub log_of-set_log_self : (ol : OpLog) (id : ℕ) (log : NvLog) → log_of (set_log ol id log) id ≡ log
log_of-set_log_self ol id log = elim (Bool-cases (id == 0)) [
  | inl e ↦ simp e refl
  | inr e ↦ simp e refl
]

pub set_log-set_log :
    (ol : OpLog) (id : ℕ) (log log' : NvLog)
    → set_log (set_log ol id log) id log' ≡ set_log ol id log'
set_log-set_log ol id log log' = elim (Bool-cases (id == 0)) [
  | inl e ↦ simp e refl
  | inr e ↦ simp e refl
]

pub g_oplog_id-set_log :
    (ol : OpLog) (id : ℕ) (log : NvLog) → (set_log ol id log).g_oplog_id ≡ ol.g_oplog_id
g_oplog_id-set_log ol id log = elim (Bool-cases (id == 0)) [
  | inl e ↦ simp e refl
  | inr e ↦ simp e refl
]
