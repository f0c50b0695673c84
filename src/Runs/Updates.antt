-- ===== src/Runs/Updates.antt =====
-- `update_state` of engine/run_manager.py on every branch.
use prodinamik_engine.Prelude.{
  ℕ, ◌+◌, ◌≡◌, refl, ap, String, Option, none, some, arith, if◌then◌else◌, str_eq, Bool-cases, inl,
  inr,
}
use prodinamik_engine.Dict
use prodinamik_engine.Dict.{Dict, get-put}
use prodinamik_engine.StateMachine.Types.{StateMachineConfig, RuntimeState}
use prodinamik_engine.StateMachine.Transition.{Evaluated, allowed, can_transition, Answer}
use prodinamik_engine.Runs.{
  RunMeta, RunManager, RunError, Result, ok, raised, update_snapshot, append_wal,
}
use prodinamik_engine.Runs.Transitions.{
  counted, runtime_of, refused, moved, next_version, checked, transitioned, update_run,
  update_state, log_transition,
}

not_refused : (a : Answer) → refused a ≡ none → a ≡ allowed
not_refused allowed h = refl
not_refused _ h = absurd (ground (arith, h))

module _ (evaluate_condition : Option String → RuntimeState → Evaluated)
    (evaluate_ltl_rules : Option (String → RuntimeState → Evaluated)) where
  -- The state machine allows the transition, where there is one.
  abbrev pub IsAllowed :
      Option StateMachineConfig → (RuntimeState → RuntimeState) → String → RunMeta → Type 0
  IsAllowed none overrides to_state meta = Unit
  IsAllowed (some c) overrides to_state meta =
      (can_transition evaluate_condition evaluate_ltl_rules c meta.state to_state
        (overrides (runtime_of meta))).0
      ≡ allowed

  checked_lem :
      (c : Option StateMachineConfig) (overrides : RuntimeState → RuntimeState) (to_state : String)
      (meta : RunMeta)
      → checked evaluate_condition evaluate_ltl_rules c overrides to_state meta ≡ none
      → IsAllowed c overrides to_state meta
  checked_lem none overrides to_state meta h = tt
  checked_lem (some c) overrides to_state meta h =
      not_refused
        (can_transition evaluate_condition evaluate_ltl_rules c meta.state to_state
          (overrides (runtime_of meta))).0
        h

  abbrev pub IsUpdate :
      String
      → String
      → Option StateMachineConfig
      → (RuntimeState → RuntimeState)
      → RunManager
      → Result RunMeta × RunManager
      → Type 0
  IsUpdate slug to_state c overrides m (raised e, m') = m' ≡ m
  IsUpdate slug to_state c overrides m (ok meta, m') =
      (old : RunMeta) × (Dict.get m.active_runs slug ≡ some (some old))
      × IsAllowed c overrides to_state (counted old)
      × (meta.state ≡ to_state)
      × (meta.version ≡ old.version + 1)
      × (meta.iteration_count
          ≡ old.iteration_count + (if str_eq old.state "iteration" then 1 else 0))
      × ((k : String)
          → Dict.get m'.active_runs k
            ≡ (if str_eq slug k then some (some meta) else Dict.get m.active_runs k))

  counted-version : (old : RunMeta) → (counted old).version ≡ old.version
  counted-version old = elim (Bool-cases (str_eq old.state "iteration")) [
    | inl t ↦ rw t refl
    | inr t ↦ rw t refl
  ]

  counted_iterations :
      (old : RunMeta)
      → (counted old).iteration_count
        ≡ old.iteration_count + (if str_eq old.state "iteration" then 1 else 0)
  counted_iterations old = elim (Bool-cases (str_eq old.state "iteration")) [
    | inl t ↦ rw t refl
    | inr t ↦ rw t (omega arith)
  ]

  transitioned_lem :
      (now : ℕ) (slug to_state : String) (c : Option StateMachineConfig)
      (overrides : RuntimeState → RuntimeState) (old : RunMeta) (m : RunManager)
      (e : Option RunError)
      → checked evaluate_condition evaluate_ltl_rules c overrides to_state (counted old) ≡ e
      → Dict.get m.active_runs slug ≡ some (some old)
      → IsUpdate slug to_state c overrides m
          (transitioned evaluate_condition evaluate_ltl_rules now slug to_state (counted old) e m)
  unfolding update_snapshot log_transition append_wal
  transitioned_lem now slug to_state c overrides old m (some e) h o = refl
  transitioned_lem now slug to_state c overrides old m none h o = (
    old,
    o,
    checked_lem c overrides to_state (counted old) h,
    refl,
    ap (λ n. n + 1) (counted-version old),
    counted_iterations old,
    λ k. get-put m.active_runs slug (some (moved now to_state (next_version (counted old)))) k,
  )

  update_run_lem :
      (now : ℕ) (slug to_state : String) (c : Option StateMachineConfig)
      (overrides : RuntimeState → RuntimeState) (m : RunManager) (o : Option (Option RunMeta))
      → Dict.get m.active_runs slug ≡ o
      → IsUpdate slug to_state c overrides m
          (update_run evaluate_condition evaluate_ltl_rules now slug to_state c overrides o m)
  update_run_lem now slug to_state c overrides m none o = refl
  update_run_lem now slug to_state c overrides m (some none) o = refl
  update_run_lem now slug to_state c overrides m (some (some old)) o =
      transitioned_lem now slug to_state c overrides old m
        (checked evaluate_condition evaluate_ltl_rules c overrides to_state (counted old)) refl o

  -- `update_state` either raises and leaves everything as it was, or there were metadata of an active run
  -- whose transition the state machine, where one is given, allowed; they then have the new state, the
  -- next version, and one more iteration exactly where the run leaves `iteration`; no other run's change.
  pub update_state_lem :
      (now : ℕ) (slug to_state : String) (c : Option StateMachineConfig)
      (overrides : RuntimeState → RuntimeState) (m : RunManager)
      → IsUpdate slug to_state c overrides m
          (update_state evaluate_condition evaluate_ltl_rules now slug to_state c overrides m)
  unfolding update_state
  update_state_lem now slug to_state c overrides m =
      update_run_lem now slug to_state c overrides m (Dict.get m.active_runs slug) refl
