-- ===== src/Runs/Recovery/Durable.antt =====
-- Recovery (engine/run_manager.py) after any operations, and after a crash in the middle of one.
use prodinamik_engine.Prelude.{
  ℕ, ◌≤◌, ◌≡◌, ap, sym, ◌∙◌, inl, inr, String, false, Option, some, List, str_eq, get_or,
}
use mathlib.Core.Path.{subst}
use prodinamik_engine.Dict
use prodinamik_engine.Dict.{Dict, get-put, get-put_self}
use prodinamik_engine.StateMachine.Types.{RuntimeState}
use prodinamik_engine.StateMachine.Transition.{Evaluated}
use prodinamik_engine.Runs.{
  active, RunMeta, RunManager, new_manager, no_entry, updated, archive_fields, move_run, append_wal,
  update_snapshot,
}
use prodinamik_engine.Runs.Transitions.{
  transition_fields, counted, next_version, store_transition, log_transition, transition_entry,
}
use prodinamik_engine.Runs.Replay.{recover}
use prodinamik_engine.Runs.Recovery.{
  view, replay_view, replay_lem, IsMatched, IsSynced, IsLogged-run, file_of, IsBefore-until,
  insert_file-end,
}
use prodinamik_engine.Runs.Recovery.Operations.{
  Operation, reached, AreInOrder, time_after, all-IsInStep,
}
use prodinamik_engine.Runs.Recovery.Reached.{IsSyncedAt, moved_own}

-- Replay leaves what a synced snapshot says.
recovered_view :
    (year : ℕ → ℕ) (m : RunManager) (k : String)
    → str_eq k "" ≡ false
    → IsSyncedAt k m
    → view (Dict.get (recover year m).0 k) ≡ view (Dict.get m.snapshot k)
unfolding recover
recovered_view year m k n (inl h) =
    replay_lem k m.wal m.snapshot n ∙ h.0 (view (Dict.get m.snapshot k))
recovered_view year m k n (inr h) =
    replay_lem k m.wal m.snapshot n ∙ h.0 (view (Dict.get m.snapshot k))

view-IsMatched :
    (k : String) (m : RunManager)
    → IsSyncedAt k m
    → IsMatched (Dict.get m.active_runs k) (view (Dict.get m.snapshot k))
view-IsMatched k m (inl h) = subst (λ o. IsMatched o (view (Dict.get m.snapshot k))) (sym h.2) tt
view-IsMatched k m (inr h) = h.1

module _ (evaluate_condition : Option String → RuntimeState → Evaluated)
    (evaluate_ltl_rules : Option (String → RuntimeState → Evaluated)) where
  -- After any creations, transitions and archivings, each at a later time than the one before it,
  -- failed ones included, of runs of any profiles, and for whatever the conditions and rules evaluate
  -- to, recovery finds for every slug but the empty one
  -- the state, profile and status of the snapshot, and where a run is active under the slug, its
  -- metadata are there, the recovered state is theirs, and the recovered status is active.
  pub recover_lem :
      (year : ℕ → ℕ) (os : List Operation) (k : String)
      → AreInOrder 0 os
      → str_eq k "" ≡ false
      → let m = reached evaluate_condition evaluate_ltl_rules os new_manager in
        let found = view (Dict.get (recover year m).0 k) in
        (found ≡ view (Dict.get m.snapshot k)) × IsMatched (Dict.get m.active_runs k) found
  recover_lem year os k order n =
      let m = reached evaluate_condition evaluate_ltl_rules os new_manager in
      let step = all-IsInStep evaluate_condition evaluate_ltl_rules os order in
      let synced = step.synced k in
      let same = recovered_view year m k n synced in
      (same, subst (IsMatched (Dict.get m.active_runs k)) (sym same) (view-IsMatched k m synced))

  -- After a crash of `update_state` between the write to the log and that of the snapshot, in any
  -- manager that operations at increasing earlier times reach and for an active run, recovery from the log finds the state,
  -- profile and status that the finished transition has in the snapshot; of the version and of the
  -- metadata it says nothing.
  pub crash_keeps_transition :
      (year : ℕ → ℕ) (os : List Operation) (now : ℕ) (k to_state : String) (old : RunMeta)
      → AreInOrder 0 os
      → time_after 0 os ≤ now
      → str_eq k "" ≡ false
      → Dict.get (reached evaluate_condition evaluate_ltl_rules os new_manager).active_runs k
        ≡ some (some old)
      → let m = reached evaluate_condition evaluate_ltl_rules os new_manager in
        view (
          Dict.get
            (recover year (log_transition now k to_state (next_version (counted old)) m)).0
            k)
        ≡ view
            (Dict.get (store_transition now k to_state (next_version (counted old)) m).1.snapshot k)
  unfolding recover log_transition append_wal update_snapshot
  crash_keeps_transition year os now k to_state old order late n o =
      let m = reached evaluate_condition evaluate_ltl_rules os new_manager in
      let step = all-IsInStep evaluate_condition evaluate_ltl_rules os order in
      let synced = step.synced k in
      let l =
        moved_own k m.wal now to_state (next_version (counted old)) old (Dict.get m.snapshot k)
          (subst (IsSynced k m.wal (Dict.get m.snapshot k)) o synced) in
      replay_lem k (append_wal (transition_entry now k to_state (next_version (counted old))) m).wal
        m.snapshot n
      ∙ ap (λ fs. replay_view k fs (view (Dict.get m.snapshot k)))
          (insert_file-end (file_of (transition_entry now k to_state (next_version (counted old))))
            m.wal (IsBefore-until (time_after 0 os) now m.wal late step.before))
      ∙ l.0 (view (Dict.get m.snapshot k))
      ∙ ap view (
          sym (
            get-put_self m.snapshot k (
              updated (transition_fields now to_state (next_version (counted old)))
                (get_or (Dict.get m.snapshot k) no_entry))))

  -- A crash of `archive_run` before its write to the log undoes the archiving: in any manager that
  -- operations at increasing times reach, and for an active run, recovery then finds that the run is active.
  pub crash_revives_archived :
      (year : ℕ → ℕ) (os : List Operation) (now : ℕ) (k : String) (old : RunMeta)
      → AreInOrder 0 os
      → str_eq k "" ≡ false
      → Dict.get (reached evaluate_condition evaluate_ltl_rules os new_manager).active_runs k
        ≡ some (some old)
      → let m = reached evaluate_condition evaluate_ltl_rules os new_manager in
        (view (Dict.get (recover year (move_run now k (some old) m)).0 k)).status ≡ some active
  unfolding recover move_run update_snapshot
  crash_revives_archived year os now k old order n o =
      let m = reached evaluate_condition evaluate_ltl_rules os new_manager in
      let step = all-IsInStep evaluate_condition evaluate_ltl_rules os order in
      let synced = step.synced k in
      let l =
        IsLogged-run k m.wal (Dict.get m.snapshot k) (some old)
          (subst (IsSynced k m.wal (Dict.get m.snapshot k)) o synced) in
      let moved =
        Dict.put m.snapshot k
          (updated (archive_fields now) (get_or (Dict.get m.snapshot k) no_entry)) in
      ap (λ v. v.status) (replay_lem k m.wal moved n ∙ l.0 (view (Dict.get moved k))) ∙ l.1.1
