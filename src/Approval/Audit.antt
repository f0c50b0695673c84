-- ===== src/Approval/Audit.antt =====
-- The audit trail of the approval gate (engine/agent_runtime/approval_gate.py), and the settled tasks that it
-- accounts for.
use prodinamik_engine.Prelude.{
  ℕ, ◌≡◌, refl, String, Bool, true, false, List, [], ◌∷◌, ◌++◌, arith, str_eq, eq_refl, ◌&&◌, ◌||◌,
  is_some, get_or,
}
use prodinamik_engine.Approval.{
  PausedTask, ActionLog, ApprovalStatus, is_stale, AuditAction, logged,
}

abbrev pub action_eq : AuditAction → AuditAction → Bool
action_eq AuditAction.pause AuditAction.pause = true
action_eq AuditAction.approve AuditAction.approve = true
action_eq AuditAction.reject AuditAction.reject = true
action_eq _ _ = false

-- The audit trail has that action of that user on that task.
abbrev pub has_entry : AuditAction → String → String → List ActionLog → Bool
has_entry a task_id user [] = false
has_entry a task_id user (x ∷ log) =
    (action_eq a x.action && (str_eq task_id x.task_id && str_eq user x.user))
    || has_entry a task_id user log

-- The way a task was settled: by a person, as the audit trail says, or by its timeout.
abbrev pub settled_as : ApprovalStatus → List ActionLog → PausedTask → Bool
settled_as ApprovalStatus.pending log p = false
settled_as ApprovalStatus.approved log p = has_entry AuditAction.approve p.task_id p.approved_by log
settled_as ApprovalStatus.rejected log p = has_entry AuditAction.reject p.task_id p.rejected_by log
settled_as ApprovalStatus.timeout_auto log p = is_stale (get_or p.resumed_at 0) p
settled_as ApprovalStatus.cancelled log p = false

abbrev pub IsSettled : List ActionLog → PausedTask → Type 0
IsSettled log p = (settled_as p.approval_status log p ≡ true) × (is_some p.resumed_at ≡ true)

abbrev pub AllSettled : List ActionLog → List PausedTask → Type 0
AllSettled log [] = Unit
AllSettled log (p ∷ ps) = IsSettled log p × AllSettled log ps

has_entry-append :
    (a : AuditAction) (k user : String) (log more : List ActionLog)
    → has_entry a k user log ≡ true
    → has_entry a k user (log ++ more) ≡ true
has_entry-append a k user [] more h = ground arith
has_entry-append a k user (x ∷ log) more h = ground (arith, has_entry-append a k user log more)

action_eq_same : (a : AuditAction) → action_eq a a ≡ true
action_eq_same AuditAction.pause = refl
action_eq_same AuditAction.approve = refl
action_eq_same AuditAction.reject = refl

pub has_entry-logged :
    (a : AuditAction) (k user : String) (now : ℕ) (log : List ActionLog)
    → has_entry a k user (logged log a k user now) ≡ true
has_entry-logged a k user now [] = simp (action_eq_same, eq_refl)
has_entry-logged a k user now (x ∷ log) = ground (arith, has_entry-logged a k user now log)

settled_as-append :
    (s : ApprovalStatus) (log more : List ActionLog) (p : PausedTask)
    → settled_as s log p ≡ true
    → settled_as s (log ++ more) p ≡ true
settled_as-append ApprovalStatus.pending log more p h = h
settled_as-append ApprovalStatus.approved log more p h =
    has_entry-append AuditAction.approve p.task_id p.approved_by log more h
settled_as-append ApprovalStatus.rejected log more p h =
    has_entry-append AuditAction.reject p.task_id p.rejected_by log more h
settled_as-append ApprovalStatus.timeout_auto log more p h = h
settled_as-append ApprovalStatus.cancelled log more p h = h

pub AllSettled-more :
    (log more : List ActionLog) (ps : List PausedTask)
    → AllSettled log ps
    → AllSettled (log ++ more) ps
AllSettled-more log more [] h = tt
AllSettled-more log more (p ∷ ps) h =
    ((settled_as-append p.approval_status log more p h.0.0, h.0.1), AllSettled-more log more ps h.1)

pub AllSettled-append :
    (log : List ActionLog) (ps : List PausedTask) (p : PausedTask)
    → AllSettled log ps
    → IsSettled log p
    → AllSettled log (ps ++ p ∷ [])
AllSettled-append log [] p h h' = (h', tt)
AllSettled-append log (q ∷ ps) p h h' = (h.0, AllSettled-append log ps p h.1 h')
