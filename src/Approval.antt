-- ===== src/Approval.antt =====
-- The approval gate of the agents (engine/agent_runtime/approval_gate.py): the tasks that wait for a
-- person, the ones that are settled, and the audit trail. The clock is an argument, in seconds. The
-- callbacks and the texts of the log are left out.
pub mod Audit
pub mod Laws
use prodinamik_engine.Prelude.{
  ℕ, zero, ◌+◌, ◌-◌, String, Bool, true, false, Option, none, some, List, [], ◌∷◌, ◌++◌, ltb, ◌==◌,
  if◌then◌else◌, length,
}
use prodinamik_engine.Dict
use prodinamik_engine.Dict.{Dict, values}

pub data PauseReason : Type 0 where
  human_review budget_exceeded error_threshold manual security : PauseReason

pub data ApprovalStatus : Type 0 where
  pending approved rejected timeout_auto cancelled : ApprovalStatus

abbrev pub is_pending : ApprovalStatus → Bool
is_pending ApprovalStatus.pending = true
is_pending _ = false

pub record PausedTask : Type 0 where
  pub task_id : String
  pub reason : PauseReason
  pub paused_at : ℕ
  pub resumed_at : Option ℕ
  pub approval_status : ApprovalStatus
  pub approved_by : String
  pub rejected_by : String
  pub feedback : String
  pub goal : String
  pub error : String
  pub auto_approve_timeout : Option ℕ

-- `x or y` on two timeouts: 0 counts as none.
abbrev pub timeout_or : Option ℕ → Option ℕ → Option ℕ
timeout_or none y = y
timeout_or (some x) y = if x == 0 then y else some x

abbrev pub is_over : ℕ → Option ℕ → Bool
is_over age none = false
is_over age (some t) = if t == 0 then false else ltb t age

unfoldable pub is_stale : ℕ → PausedTask → Bool
is_stale now p = is_over (now - p.paused_at) p.auto_approve_timeout

pub data AuditAction : Type 0 where
  pause approve reject : AuditAction

pub record ActionLog : Type 0 where
  pub action : AuditAction
  pub task_id : String
  pub user : String
  pub timestamp : ℕ

pub record ApprovalGate : Type 0 where
  pub auto_approve_timeout : Option ℕ
  pub paused : Dict PausedTask
  pub resolved : List PausedTask
  pub audit_log : List ActionLog

abbrev pub new_gate : Option ℕ → ApprovalGate
new_gate timeout = record {
  auto_approve_timeout = timeout;
  paused = [];
  resolved = [];
  audit_log = [];
}

abbrev pub logged : List ActionLog → AuditAction → String → String → ℕ → List ActionLog
logged log a task_id user now =
    log ++ record { action = a; task_id = task_id; user = user; timestamp = now } ∷ []

-- The arguments of `pause_task` after the name of the task.
pub record PauseArgs : Type 0 where
  pub reason : PauseReason
  pub feedback : String
  pub goal : String
  pub error : String
  pub auto_approve_timeout : Option ℕ

abbrev pub new_paused : Option ℕ → ℕ → String → PauseArgs → PausedTask
new_paused timeout now task_id args = record {
  task_id = task_id;
  reason = args.reason;
  paused_at = now;
  resumed_at = none;
  approval_status = ApprovalStatus.pending;
  approved_by = "";
  rejected_by = "";
  feedback = args.feedback;
  goal = args.goal;
  error = args.error;
  auto_approve_timeout = timeout_or args.auto_approve_timeout timeout;
}

unfoldable pub pause_task : ApprovalGate → ℕ → String → PauseArgs → ApprovalGate
pause_task g now task_id args = record {
  auto_approve_timeout = g.auto_approve_timeout;
  paused = Dict.put g.paused task_id (new_paused g.auto_approve_timeout now task_id args);
  resolved = g.resolved;
  audit_log = logged g.audit_log AuditAction.pause task_id "system" now;
}

abbrev pub as_approved : PausedTask → String → String → ℕ → PausedTask
as_approved p user feedback now = record {
  task_id = p.task_id;
  reason = p.reason;
  paused_at = p.paused_at;
  resumed_at = some now;
  approval_status = ApprovalStatus.approved;
  approved_by = user;
  rejected_by = p.rejected_by;
  feedback = feedback;
  goal = p.goal;
  error = p.error;
  auto_approve_timeout = p.auto_approve_timeout;
}

abbrev pub as_rejected : PausedTask → String → String → ℕ → PausedTask
as_rejected p user feedback now = record {
  task_id = p.task_id;
  reason = p.reason;
  paused_at = p.paused_at;
  resumed_at = some now;
  approval_status = ApprovalStatus.rejected;
  approved_by = p.approved_by;
  rejected_by = user;
  feedback = feedback;
  goal = p.goal;
  error = p.error;
  auto_approve_timeout = p.auto_approve_timeout;
}

abbrev pub as_timed_out : PausedTask → ℕ → PausedTask
as_timed_out p now = record {
  task_id = p.task_id;
  reason = p.reason;
  paused_at = p.paused_at;
  resumed_at = some now;
  approval_status = ApprovalStatus.timeout_auto;
  approved_by = p.approved_by;
  rejected_by = p.rejected_by;
  feedback = p.feedback;
  goal = p.goal;
  error = p.error;
  auto_approve_timeout = p.auto_approve_timeout;
}

-- Take a task out of the waiting ones and keep it as settled.
abbrev pub settle : ApprovalGate → String → PausedTask → List ActionLog → ApprovalGate
settle g task_id p log = record {
  auto_approve_timeout = g.auto_approve_timeout;
  paused = Dict.remove g.paused task_id;
  resolved = g.resolved ++ p ∷ [];
  audit_log = log;
}

unfoldable pub approve_task : ApprovalGate → ℕ → String → String → String → Bool × ApprovalGate
approve_task g now task_id user feedback = elim (Dict.get g.paused task_id) [
  | none ↦ (false, g)
  | some p ↦ (
    true,
    settle g task_id (as_approved p user feedback now)
        (logged g.audit_log AuditAction.approve task_id user now),
  )
]

unfoldable pub reject_task : ApprovalGate → ℕ → String → String → String → Bool × ApprovalGate
reject_task g now task_id user feedback = elim (Dict.get g.paused task_id) [
  | none ↦ (false, g)
  | some p ↦ (
    true,
    settle g task_id (as_rejected p user feedback now)
        (logged g.audit_log AuditAction.reject task_id user now),
  )
]

abbrev pub pending_of : List PausedTask → List PausedTask
pending_of [] = []
pending_of (p ∷ ps) =
    let rest = pending_of ps in if is_pending p.approval_status then p ∷ rest else rest

abbrev pub get_paused : ApprovalGate → List PausedTask
get_paused g = pending_of (values g.paused)

abbrev pub pending_count : ApprovalGate → ℕ
pending_count g = length (get_paused g)

-- The loop of `auto_approve_stale`, over a copy of the waiting tasks.
unfoldable pub approve_loop : ℕ → Dict PausedTask → ApprovalGate → List String × ApprovalGate
approve_loop now [] g = ([], g)
approve_loop now ((k, p) ∷ items) g =
    let late = approve_loop now items (settle g k (as_timed_out p now) g.audit_log) in
    let rest = approve_loop now items g in if is_stale now p then (k ∷ late.0, late.1) else rest

unfoldable pub auto_approve_stale : ApprovalGate → ℕ → List String × ApprovalGate
auto_approve_stale g now = approve_loop now g.paused g
