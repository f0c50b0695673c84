-- ===== src/Approval/Laws.antt =====
-- The approval gate of engine/agent_runtime/approval_gate.py: runs of its calls, and the sweep for
-- stale tasks.
use prodinamik_engine.Prelude.{
  ℕ, ◌≡◌, refl, sym, ap, ◌∙◌, Bool-cases, Option-cases, inl, inr, String, Bool, true, false, Option,
  none, some, List, [], ◌∷◌, arith, str_eq, eq_iff, get_or, if◌then◌else◌,
}
use prodinamik_engine.Dict.{
  Dict, get, get-put, get-remove, IsDistinct, IsDistinct-put, IsDistinct-remove,
}
use prodinamik_engine.Approval.{
  PausedTask, PauseArgs, ActionLog, ApprovalGate, ApprovalStatus, is_stale, new_gate, new_paused,
  pause_task, approve_task, reject_task, approve_loop, auto_approve_stale, settle, as_timed_out,
  AuditAction,
}
use prodinamik_engine.Approval.Audit.{
  IsSettled, AllSettled, has_entry-logged, AllSettled-more, AllSettled-append,
}

abbrev pub IsWaiting : String → PausedTask → Type 0
IsWaiting k p =
    (p.task_id ≡ k) × (p.approval_status ≡ ApprovalStatus.pending) × (p.resumed_at ≡ none)

pub record IsSound (g : ApprovalGate) : Type 0 where
  pub distinct : IsDistinct g.paused
  pub waiting : (k : String) (p : PausedTask) → get g.paused k ≡ some p → IsWaiting k p
  pub settled : AllSettled g.audit_log g.resolved

settle-IsSound :
    (g : ApprovalGate) (k : String) (p : PausedTask) (log : List ActionLog)
    → IsSound g
    → AllSettled log g.resolved
    → IsSettled log p
    → IsSound (settle g k p log)
settle-IsSound g k p log h old h' = record {
  distinct = IsDistinct-remove g.paused k h.distinct;
  waiting = λ j q e. ground (arith, get-remove g.paused k j, h.waiting j q);
  settled = AllSettled-append log g.resolved p old h';
}

waiting_new :
    (k j : String) (p q : PausedTask)
    → p.task_id ≡ k
    → p.approval_status ≡ ApprovalStatus.pending
    → p.resumed_at ≡ none
    → k ≡ j
    → some p ≡ some q
    → IsWaiting j q
waiting_new k j p q h h' h'' e e' =
    let same = ap (λ o. get_or o p) e' in
    (
      sym (ap (λ x. x.task_id) same) ∙ h ∙ e,
      sym (ap (λ x. x.approval_status) same) ∙ h',
      sym (ap (λ x. x.resumed_at) same) ∙ h'',
    )

pause_task-IsSound :
    (g : ApprovalGate) (now : ℕ) (k : String) (args : PauseArgs)
    → IsSound g
    → IsSound (pause_task g now k args)
unfolding pause_task
pause_task-IsSound g now k args h = record {
  distinct = IsDistinct-put g.paused k _ h.distinct;
  waiting = λ j q e. elim (Bool-cases (str_eq k j)) [
    | inl same ↦
        waiting_new k j (new_paused g.auto_approve_timeout now k args) q refl refl refl
          ((eq_iff k j).0 same)
          (ground (arith, get-put g.paused k (new_paused g.auto_approve_timeout now k args) j))
    | inr other ↦
        h.waiting j q
          (ground (arith, get-put g.paused k (new_paused g.auto_approve_timeout now k args) j))
  ];
  settled = AllSettled-more g.audit_log _ g.resolved h.settled;
}

approve_task-IsSound :
    (g : ApprovalGate) (now : ℕ) (k user feedback : String)
    → IsSound g
    → IsSound (approve_task g now k user feedback).1
unfolding approve_task
approve_task-IsSound g now k user feedback h = elim (Option-cases (get g.paused k)) [
  | inl e ↦ rw (e, approve_task) h
  | inr (p, e) ↦
      let same = (h.waiting k p e).0 in
      rw (e, approve_task)
        (settle-IsSound g k _ _ h (AllSettled-more g.audit_log _ g.resolved h.settled)
          (rw same (has_entry-logged AuditAction.approve k user now g.audit_log), refl))
]

reject_task-IsSound :
    (g : ApprovalGate) (now : ℕ) (k user feedback : String)
    → IsSound g
    → IsSound (reject_task g now k user feedback).1
unfolding reject_task
reject_task-IsSound g now k user feedback h = elim (Option-cases (get g.paused k)) [
  | inl e ↦ rw (e, reject_task) h
  | inr (p, e) ↦
      let same = (h.waiting k p e).0 in
      rw (e, reject_task)
        (settle-IsSound g k _ _ h (AllSettled-more g.audit_log _ g.resolved h.settled)
          (rw same (has_entry-logged AuditAction.reject k user now g.audit_log), refl))
]

as_timed_out-IsSettled :
    (now : ℕ) (p : PausedTask) (log : List ActionLog)
    → is_stale now p ≡ true
    → IsSettled log (as_timed_out p now)
unfolding is_stale
as_timed_out-IsSettled now p log h = (h, refl)

approve_loop-IsSound :
    (now : ℕ) (items : Dict PausedTask) (g : ApprovalGate)
    → IsSound g
    → IsSound (approve_loop now items g).1
unfolding approve_loop
approve_loop-IsSound now [] g h = h
approve_loop-IsSound now ((k, p) ∷ items) g h = elim (Bool-cases (is_stale now p)) [
  | inl e ↦ rw e (
      approve_loop-IsSound now items _
        (settle-IsSound g k _ g.audit_log h h.settled (as_timed_out-IsSettled now p g.audit_log e)))
  | inr e ↦ rw e (approve_loop-IsSound now items g h)
]

pub data Call : Type 0 where
  pause : ℕ → String → PauseArgs → Call
  approve : ℕ → String → String → String → Call
  reject : ℕ → String → String → String → Call
  sweep : ℕ → Call

unfoldable pub run : ApprovalGate → Call → ApprovalGate
run g (Call.pause now k args) = pause_task g now k args
run g (Call.approve now k user feedback) = (approve_task g now k user feedback).1
run g (Call.reject now k user feedback) = (reject_task g now k user feedback).1
run g (Call.sweep now) = (auto_approve_stale g now).1

unfoldable pub run_all : ApprovalGate → List Call → ApprovalGate
run_all g [] = g
run_all g (c ∷ calls) = run_all (run g c) calls

run-IsSound : (g : ApprovalGate) (c : Call) → IsSound g → IsSound (run g c)
unfolding run auto_approve_stale
run-IsSound g (Call.pause now k args) h = pause_task-IsSound g now k args h
run-IsSound g (Call.approve now k user feedback) h = approve_task-IsSound g now k user feedback h
run-IsSound g (Call.reject now k user feedback) h = reject_task-IsSound g now k user feedback h
run-IsSound g (Call.sweep now) h = approve_loop-IsSound now g.paused g h

run_all-IsSound : (g : ApprovalGate) (calls : List Call) → IsSound g → IsSound (run_all g calls)
unfolding run_all
run_all-IsSound g [] h = h
run_all-IsSound g (c ∷ calls) h = run_all-IsSound (run g c) calls (run-IsSound g c h)

new_gate-IsSound : (timeout : Option ℕ) → IsSound (new_gate timeout)
unfolding get
new_gate-IsSound timeout = record { distinct = tt; waiting = λ k p e. ground arith; settled = tt }

-- Whatever calls a new gate answers, a waiting task is stored under its own name, once, still pending
-- and not resumed; and every settled task has the time it was resumed, and is approved or rejected with an
-- entry of the audit trail for that task by the person it names, or is marked as timed out and was
-- past its timeout at that time.
pub gates-IsSound :
    (timeout : Option ℕ) (calls : List Call) → IsSound (run_all (new_gate timeout) calls)
gates-IsSound timeout calls = run_all-IsSound (new_gate timeout) calls (new_gate-IsSound timeout)

-- A late task of that name is among the items of the loop.
abbrev listed_late : ℕ → Dict PausedTask → String → Bool
listed_late now [] k = false
listed_late now ((j, p) ∷ items) k =
    let rest = listed_late now items k in
    if is_stale now p then if str_eq j k then true else rest else rest

abbrev pub unless_stale : ℕ → Option PausedTask → Option PausedTask
unless_stale now none = none
unless_stale now (some p) = if is_stale now p then none else some p

get-approve_loop :
    (now : ℕ) (items : Dict PausedTask) (g : ApprovalGate) (k : String)
    → get (approve_loop now items g).1.paused k
      ≡ (if listed_late now items k then none else get g.paused k)
unfolding approve_loop
get-approve_loop now [] g k = refl
get-approve_loop now ((j, p) ∷ items) g k = elim (Bool-cases (is_stale now p)) [
  | inl e ↦ rw e (
      ground (
        arith,
        get-approve_loop now items (settle g j (as_timed_out p now) g.audit_log) k,
        get-remove g.paused j k,
      ))
  | inr e ↦ rw e (get-approve_loop now items g k)
]

listed_late-none :
    (now : ℕ) (items : Dict PausedTask) (k : String)
    → get items k ≡ none
    → listed_late now items k ≡ false
unfolding get
listed_late-none now [] k h = refl
listed_late-none now ((j, p) ∷ items) k h = ground (arith, listed_late-none now items k)

listed_late-get :
    (now : ℕ) (items : Dict PausedTask) (k : String)
    → IsDistinct items
    → (if listed_late now items k then none else get items k) ≡ unless_stale now (get items k)
unfolding get
listed_late-get now [] k h = refl
listed_late-get now ((j, p) ∷ items) k h = elim (Bool-cases (str_eq j k)) [
  | inl e ↦ rw e (
      ground (
        arith,
        listed_late-none now items k (ap (λ x. get items x) (sym ((eq_iff j k).0 e)) ∙ h.0),
      ))
  | inr e ↦ rw e (ground (arith, listed_late-get now items k h.1))
]

-- Whatever calls a new gate has answered, the sweep for stale tasks takes out exactly the waiting
-- tasks that are past their timeout at that moment.
pub auto_approve_stale_lem :
    (timeout : Option ℕ) (calls : List Call) (now : ℕ) (k : String)
    → let g = run_all (new_gate timeout) calls in
      get (auto_approve_stale g now).1.paused k ≡ unless_stale now (get g.paused k)
unfolding auto_approve_stale
auto_approve_stale_lem timeout calls now k =
    let g = run_all (new_gate timeout) calls in
    get-approve_loop now g.paused g k
    ∙ listed_late-get now g.paused k (gates-IsSound timeout calls).distinct
