-- ===== src/Runs/Recovery/Operations.antt =====
-- The operations of engine/run_manager.py in sequence, and that they keep the log and the snapshot in step.
use prodinamik_engine.Prelude.{
  ℕ, ◌+◌, ◌≤◌, ◌≡◌, refl, inl, String, Option, none, some, List, [], ◌∷◌,
}
use prodinamik_engine.Dict
use prodinamik_engine.Dict.{Dict, get-put, get-put_self}
use prodinamik_engine.StateMachine.Types.{
  StateMachineConfig, StateDefinition, RuntimeState, names_of, is_initial,
}
use prodinamik_engine.StateMachine.Transition.{Evaluated}
use prodinamik_engine.Runs.{
  RunMeta, RunManager, new_manager, ProductProfile, RunError, create_in, create_with, create_free,
  archive_found, create_run, archive_run, read_meta,
}
use prodinamik_engine.Runs.Transitions.{
  counted, next_version, checked, transitioned, update_run, update_state,
}
use prodinamik_engine.Runs.Recovery.{IsBefore-until}
use prodinamik_engine.Runs.Recovery.Reached.{
  IsInStep, IsInStep-later, created-IsInStep, moved-IsInStep, archived-IsInStep,
}

pub data Operation : Type 0 where
  create_op : ℕ → String → ProductProfile → String → Operation
  update_op :
      ℕ → String → String → Option StateMachineConfig → (RuntimeState → RuntimeState) → Operation
  archive_op : ℕ → String → Operation

abbrev pub time_of : Operation → ℕ
time_of (create_op now title p slug) = now
time_of (update_op now slug to_state c overrides) = now
time_of (archive_op now slug) = now

-- Each operation is later than the one before it; the first is at `t` or later.
abbrev pub AreInOrder : ℕ → List Operation → Type 0
AreInOrder t [] = Unit
AreInOrder t (o ∷ os) = (t ≤ time_of o) × AreInOrder (time_of o + 1) os

-- A time after all operations.
abbrev pub time_after : ℕ → List Operation → ℕ
time_after t [] = t
time_after t (o ∷ os) = time_after (time_of o + 1) os

module _ (evaluate_condition : Option String → RuntimeState → Evaluated)
    (evaluate_ltl_rules : Option (String → RuntimeState → Evaluated)) where
  abbrev pub operate : Operation → RunManager → RunManager
  operate (create_op now title p slug) m = (create_run now title p slug m).1
  operate (update_op now slug to_state c overrides) m =
      (update_state evaluate_condition evaluate_ltl_rules now slug to_state c overrides m).1
  operate (archive_op now slug) m = (archive_run now slug m).1

  -- The manager that operations reach, the failing ones included.
  unfoldable pub reached : List Operation → RunManager → RunManager
  reached [] m = m
  reached (o ∷ os) m = reached os (operate o m)

  create_in-IsInStep :
      (now : ℕ) (title name slug : String) (ds : List StateDefinition) (m : RunManager)
      → IsInStep now m
      → IsInStep (now + 1) (create_in now title name slug ds m).1
  create_in-IsInStep now title name slug [] m h = IsInStep-later now m h
  create_in-IsInStep now title name slug (d ∷ ds) m h =
      created-IsInStep now title name slug d.name m h

  create_with-IsInStep :
      (now : ℕ) (title name slug : String) (c : Option StateMachineConfig) (m : RunManager)
      → IsInStep now m
      → IsInStep (now + 1) (create_with now title name slug c m).1
  create_with-IsInStep now title name slug none m h = IsInStep-later now m h
  create_with-IsInStep now title name slug (some c) m h =
      create_free-IsInStep (read_meta (Dict.get m.active_runs slug))
    where
      create_free-IsInStep :
          (o : Option RunMeta)
          → IsInStep
              (now + 1)
              (create_free now title name slug (names_of is_initial c.states) o m).1
      create_free-IsInStep (some meta) = IsInStep-later now m h
      create_free-IsInStep none =
          create_in-IsInStep now title name slug (names_of is_initial c.states) m h

  transitioned-IsInStep :
      (now : ℕ) (slug to_state : String) (old : RunMeta) (e : Option RunError) (m : RunManager)
      → Dict.get m.active_runs slug ≡ some (some old)
      → IsInStep now m
      → IsInStep
          (now + 1)
          (transitioned evaluate_condition evaluate_ltl_rules now slug to_state (counted old) e m).1
  transitioned-IsInStep now slug to_state old (some e) m o h = IsInStep-later now m h
  transitioned-IsInStep now slug to_state old none m o h =
      moved-IsInStep now slug to_state (next_version (counted old)) old m o h

  update_run-IsInStep :
      (now : ℕ) (slug to_state : String) (c : Option StateMachineConfig)
      (overrides : RuntimeState → RuntimeState) (o : Option (Option RunMeta)) (m : RunManager)
      → Dict.get m.active_runs slug ≡ o
      → IsInStep now m
      → IsInStep
          (now + 1)
          (update_run evaluate_condition evaluate_ltl_rules now slug to_state c overrides o m).1
  update_run-IsInStep now slug to_state c overrides none m o h = IsInStep-later now m h
  update_run-IsInStep now slug to_state c overrides (some none) m o h = IsInStep-later now m h
  update_run-IsInStep now slug to_state c overrides (some (some meta)) m o h =
      transitioned-IsInStep now slug to_state meta
        (checked evaluate_condition evaluate_ltl_rules c overrides to_state (counted meta)) m o h

  archive_found-IsInStep :
      (now : ℕ) (slug : String) (o : Option (Option RunMeta)) (m : RunManager)
      → Dict.get m.active_runs slug ≡ o
      → IsInStep now m
      → IsInStep (now + 1) (archive_found now slug o m).1
  archive_found-IsInStep now slug none m o h = IsInStep-later now m h
  archive_found-IsInStep now slug (some meta) m o h = archived-IsInStep now slug meta m o h

  operate-IsInStep :
      (o : Operation) (m : RunManager)
      → IsInStep (time_of o) m
      → IsInStep (time_of o + 1) (operate o m)
  unfolding create_run update_state archive_run
  operate-IsInStep (create_op now title p slug) m h =
      create_with-IsInStep now title p.name slug p.state_machine m h
  operate-IsInStep (update_op now slug to_state c overrides) m h =
      update_run-IsInStep now slug to_state c overrides (Dict.get m.active_runs slug) m refl h
  operate-IsInStep (archive_op now slug) m h =
      archive_found-IsInStep now slug (Dict.get m.active_runs slug) m refl h

  IsInStep-until : (t t' : ℕ) (m : RunManager) → t ≤ t' → IsInStep t m → IsInStep t' m
  IsInStep-until t t' m l h = record {
    synced = h.synced;
    before = IsBefore-until t t' m.wal l h.before;
  }

  reached-IsInStep :
      (os : List Operation) (t : ℕ) (m : RunManager)
      → AreInOrder t os
      → IsInStep t m
      → IsInStep (time_after t os) (reached os m)
  unfolding reached
  reached-IsInStep [] t m order h = h
  reached-IsInStep (o ∷ os) t m order h =
      reached-IsInStep os (time_of o + 1) (operate o m) order.1
        (operate-IsInStep o m (IsInStep-until t (time_of o) m order.0 h))

  -- After any operations from an empty directory.
  pub all-IsInStep :
      (os : List Operation) → AreInOrder 0 os → IsInStep (time_after 0 os) (reached os new_manager)
  unfolding Dict.get
  all-IsInStep os order =
      reached-IsInStep os 0 new_manager order
        (record { synced = λ k. inl (λ v. refl, refl, refl); before = tt })
