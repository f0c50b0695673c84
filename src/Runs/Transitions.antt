-- ===== src/Runs/Transitions.antt =====
-- `update_state` of engine/run_manager.py.
use prodinamik_engine.Prelude.{ℕ, ◌+◌, String, false, Option, none, some, if◌then◌else◌, str_eq}
use prodinamik_engine.Dict
use prodinamik_engine.Dict.{Dict}
use prodinamik_engine.StateMachine.Types.{StateMachineConfig, RuntimeState}
use prodinamik_engine.StateMachine.Transition.{Answer, allowed, can_transition, Evaluated}
use prodinamik_engine.Runs.{
  active, RunMeta, SnapshotEntry, transition, WalEntry, RunManager, RunError, run_not_found,
  no_metadata, rejected, Result, ok, raised, update_snapshot, append_wal,
}

-- The count of iterations, one more when a run leaves the state `iteration`.
abbrev pub counted : RunMeta → RunMeta
counted meta =
    if str_eq meta.state "iteration"
    then record meta { iteration_count = meta.iteration_count + 1 }
    else meta

-- The runtime that the state machine is asked about, before the overrides.
abbrev pub runtime_of : RunMeta → RuntimeState
runtime_of meta = record {
  current_state = meta.state;
  reentry_count = 0;
  iteration_count = meta.iteration_count;
  drift_count = 0;
  human_approved = false;
  consecutive_failures = 0;
  total_iterations = 0;
  changes_requested = false;
  manual_unblock = false;
  project_abandoned = false;
}

abbrev pub refused : Answer → Option RunError
refused allowed = none
refused answer = some (rejected answer)

-- The log entry of a transition, and its fields in the snapshot; the metadata has its new version.
abbrev pub transition_entry : ℕ → String → String → RunMeta → WalEntry
transition_entry now slug to_state meta = record {
  slug = slug;
  action = transition meta.state to_state meta.version;
  timestamp = now;
}

abbrev pub transition_fields : ℕ → String → RunMeta → SnapshotEntry
transition_fields now to_state meta = record {
  state = some to_state;
  profile = none;
  status = some active;
  updated_at = some now;
  version = some meta.version;
}

abbrev pub next_version : RunMeta → RunMeta
next_version meta = record meta { version = meta.version + 1 }

abbrev pub moved : ℕ → String → RunMeta → RunMeta
moved now to_state meta = record meta { state = to_state; updated_at = now }

-- The write-ahead log is written first.
unfoldable pub log_transition : ℕ → String → String → RunMeta → RunManager → RunManager
log_transition now slug to_state meta m = append_wal (transition_entry now slug to_state meta) m

abbrev pub store_transition : ℕ → String → String → RunMeta → RunManager → RunMeta × RunManager
store_transition now slug to_state meta m =
    let logged = log_transition now slug to_state meta m in
    let saved = update_snapshot slug (transition_fields now to_state meta) logged in
    (
      moved now to_state meta,
      record saved {
        active_runs = Dict.put saved.active_runs slug (some (moved now to_state meta));
      },
    )

module _ (evaluate_condition : Option String → RuntimeState → Evaluated)
    (evaluate_ltl_rules : Option (String → RuntimeState → Evaluated)) where
  abbrev pub checked :
      Option StateMachineConfig → (RuntimeState → RuntimeState) → String → RunMeta → Option RunError
  checked none overrides to_state meta = none
  checked (some c) overrides to_state meta =
      refused
        (can_transition evaluate_condition evaluate_ltl_rules c meta.state to_state
          (overrides (runtime_of meta))).0

  abbrev pub transitioned :
      ℕ → String → String → RunMeta → Option RunError → RunManager → Result RunMeta × RunManager
  transitioned now slug to_state meta (some e) m = (raised e, m)
  transitioned now slug to_state meta none m =
      let r = store_transition now slug to_state (next_version meta) m in (ok r.0, r.1)

  abbrev pub update_run :
      ℕ
      → String
      → String
      → Option StateMachineConfig
      → (RuntimeState → RuntimeState)
      → Option (Option RunMeta)
      → RunManager
      → Result RunMeta × RunManager
  update_run now slug to_state c overrides none m = (raised run_not_found, m)
  update_run now slug to_state c overrides (some none) m = (raised no_metadata, m)
  update_run now slug to_state c overrides (some (some meta)) m =
      transitioned now slug to_state (counted meta) (checked c overrides to_state (counted meta)) m

  -- `update_state`; the machine is that of the profile, where one is given.
  unfoldable pub update_state :
      ℕ
      → String
      → String
      → Option StateMachineConfig
      → (RuntimeState → RuntimeState)
      → RunManager
      → Result RunMeta × RunManager
  update_state now slug to_state c overrides m =
      update_run now slug to_state c overrides (Dict.get m.active_runs slug) m
