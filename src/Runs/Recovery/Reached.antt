-- ===== src/Runs/Recovery/Reached.antt =====
-- Every manager that the operations of engine/run_manager.py reach has its snapshot, its log and its
-- metadata in step.
use prodinamik_engine.Prelude.{
  ℕ, ◌+◌, arith, ◌≡◌, refl, ap, sym, ◌∙◌, inr, String, Option, none, some, List, [], ◌∷◌, ◌++◌,
  eq_refl, get_or,
}
use mathlib.Core.Path.{subst}
use prodinamik_engine.Dict
use prodinamik_engine.Dict.{Dict, at_key, get-put, get-put_self, get-remove}
use prodinamik_engine.Runs.{
  active, RunMeta, RunManager, SnapshotEntry, no_entry, create, transition, archive, WalEntry,
  WalFile, insert_file, updated, create_fields, archive_fields, create_entry, archive_entry,
  new_meta, created, move_run, append_wal, update_snapshot,
}
use prodinamik_engine.Runs.Transitions.{
  transition_fields, transition_entry, moved, store_transition, log_transition,
}
use prodinamik_engine.Runs.Recovery.{
  view, seen, IsLogged, IsSynced, IsLogged-run, after_other, replay_own, file_of, IsBefore,
  IsBefore-until, IsBefore-insert_file, insert_file-end,
}

abbrev pub IsSyncedAt : String → RunManager → Type 0
IsSyncedAt k m = IsSynced k m.wal (Dict.get m.snapshot k) (Dict.get m.active_runs k)

-- All runs are in step, and every file of the log is named after an earlier time.
pub record IsInStep (t : ℕ) (m : RunManager) : Type 0 where
  pub synced : (k : String) → IsSyncedAt k m
  pub before : IsBefore t m.wal

pub IsInStep-later : (t : ℕ) (m : RunManager) → IsInStep t m → IsInStep (t + 1) m
IsInStep-later t m h = record {
  synced = h.synced;
  before = IsBefore-until t (t + 1) m.wal (omega arith) h.before;
}

created_own :
    (k : String) (fs : List WalFile) (now : ℕ) (title name initial_state : String)
    (snap : Option SnapshotEntry)
    → IsSynced k
        (fs ++ file_of (create_entry now name k initial_state) ∷ [])
        (some (updated (create_fields now name initial_state) (get_or snap no_entry)))
        (some (some (new_meta now title name k initial_state)))
created_own k fs now title name initial_state snap =
    inr (λ v. replay_own k fs (create name initial_state) now v, (refl, refl))

-- What a transition makes of a run that is active.
pub transitioned_view :
    (now version : ℕ) (from_state to_state : String) (meta : RunMeta) (snap : Option SnapshotEntry)
    → (view snap).status ≡ some active
    → seen (transition from_state to_state version) (view snap)
      ≡ view (some (updated (transition_fields now to_state meta) (get_or snap no_entry)))
transitioned_view now version from_state to_state meta none h =
    ap (λ s. record { state = some to_state; profile = none; status = s }) h
transitioned_view now version from_state to_state meta (some e) h =
    ap (λ s. record { state = some to_state; profile = e.profile; status = s }) h

pub moved_own :
    (k : String) (fs : List WalFile) (now : ℕ) (to_state : String) (meta old : RunMeta)
    (snap : Option SnapshotEntry)
    → IsSynced k fs snap (some (some old))
    → IsLogged k
        (fs ++ file_of (transition_entry now k to_state meta) ∷ [])
        (some (updated (transition_fields now to_state meta) (get_or snap no_entry)))
        (some (some (moved now to_state meta)))
moved_own k fs now to_state meta old snap h =
    let l = IsLogged-run k fs snap (some old) h in
    let a = transition meta.state to_state meta.version in
    (
      λ v.
          replay_own k fs a now v
          ∙ ap (seen a) (l.0 v)
          ∙ transitioned_view now meta.version meta.state to_state meta snap l.1.1,
      (refl, refl),
    )

pub archived_view :
    (now : ℕ) (snap : Option SnapshotEntry)
    → seen archive (view snap) ≡ view (some (updated (archive_fields now) (get_or snap no_entry)))
archived_view now none = refl
archived_view now (some e) = refl

archived_own :
    (k : String) (fs : List WalFile) (now : ℕ) (snap : Option SnapshotEntry) (run : Option RunMeta)
    → IsSynced k fs snap (some run)
    → IsSynced k
        (fs ++ file_of (archive_entry now k) ∷ [])
        (some (updated (archive_fields now) (get_or snap no_entry)))
        none
archived_own k fs now snap run h =
    let l = IsLogged-run k fs snap run h in
    inr
      (λ v. replay_own k fs archive now v ∙ ap (seen archive) (l.0 v) ∙ archived_view now snap, tt)

-- The newest file is put at the end.
put_last :
    (k : String) (e : WalEntry) (fs : List WalFile) (snap : Option SnapshotEntry)
    (run : Option (Option RunMeta))
    → IsBefore e.timestamp fs
    → IsSynced k (fs ++ file_of e ∷ []) snap run
    → IsSynced k (insert_file (file_of e) fs) snap run
put_last k e fs snap run h synced =
    subst (λ gs. IsSynced k gs snap run) (sym (insert_file-end (file_of e) fs h)) synced

created-IsSyncedAt :
    (now : ℕ) (title name slug initial_state : String) (m : RunManager) (k : String)
    → IsInStep now m
    → IsSyncedAt k (created now title name slug initial_state m).1
unfolding update_snapshot append_wal
created-IsSyncedAt now title name slug initial_state m k h =
    at_key (λ k. IsSyncedAt k (created now title name slug initial_state m).1) slug k
      (rw (get-put_self, get-put_self)
        (put_last slug (create_entry now name slug initial_state) m.wal _ _ h.before
          (created_own slug m.wal now title name initial_state (Dict.get m.snapshot slug))))
      (λ n.
        rw (get-put, get-put, n)
          (put_last k (create_entry now name slug initial_state) m.wal _ _ h.before (
            after_other k m.wal (create_entry now name slug initial_state) (Dict.get m.snapshot k)
              (Dict.get m.active_runs k) n (h.synced k))))

moved-IsSyncedAt :
    (now : ℕ) (slug to_state : String) (meta old : RunMeta) (m : RunManager) (k : String)
    → Dict.get m.active_runs slug ≡ some (some old)
    → IsInStep now m
    → IsSyncedAt k (store_transition now slug to_state meta m).1
unfolding update_snapshot append_wal log_transition
moved-IsSyncedAt now slug to_state meta old m k o h =
    at_key (λ k. IsSyncedAt k (store_transition now slug to_state meta m).1) slug k
      (rw (get-put_self, get-put_self)
        (put_last slug (transition_entry now slug to_state meta) m.wal _ _ h.before (
          inr (
            moved_own slug m.wal now to_state meta old (Dict.get m.snapshot slug)
              (subst (IsSynced slug m.wal (Dict.get m.snapshot slug)) o (h.synced slug))))))
      (λ n.
        rw (get-put, get-put, n)
          (put_last k (transition_entry now slug to_state meta) m.wal _ _ h.before (
            after_other k m.wal (transition_entry now slug to_state meta) (Dict.get m.snapshot k)
              (Dict.get m.active_runs k) n (h.synced k))))

archived-IsSyncedAt :
    (now : ℕ) (slug : String) (run : Option RunMeta) (m : RunManager) (k : String)
    → Dict.get m.active_runs slug ≡ some run
    → IsInStep now m
    → IsSyncedAt k (append_wal (archive_entry now slug) (move_run now slug run m))
unfolding update_snapshot append_wal move_run
archived-IsSyncedAt now slug run m k o h =
    at_key (λ k. IsSyncedAt k (append_wal (archive_entry now slug) (move_run now slug run m))) slug
      k
      (rw (get-put_self, get-remove, eq_refl slug)
        (put_last slug (archive_entry now slug) m.wal _ _ h.before (
          archived_own slug m.wal now (Dict.get m.snapshot slug) run
            (subst (IsSynced slug m.wal (Dict.get m.snapshot slug)) o (h.synced slug)))))
      (λ n.
        rw (get-put, get-remove, n)
          (put_last k (archive_entry now slug) m.wal _ _ h.before (
            after_other k m.wal (archive_entry now slug) (Dict.get m.snapshot k)
              (Dict.get m.active_runs k) n (h.synced k))))

pub created-IsInStep :
    (now : ℕ) (title name slug initial_state : String) (m : RunManager)
    → IsInStep now m
    → IsInStep (now + 1) (created now title name slug initial_state m).1
unfolding update_snapshot append_wal
created-IsInStep now title name slug initial_state m h = record {
  synced = λ k. created-IsSyncedAt now title name slug initial_state m k h;
  before =
      IsBefore-insert_file (now + 1) (file_of (create_entry now name slug initial_state)) m.wal
        (omega arith) (IsBefore-until now (now + 1) m.wal (omega arith) h.before);
}

pub moved-IsInStep :
    (now : ℕ) (slug to_state : String) (meta old : RunMeta) (m : RunManager)
    → Dict.get m.active_runs slug ≡ some (some old)
    → IsInStep now m
    → IsInStep (now + 1) (store_transition now slug to_state meta m).1
unfolding update_snapshot append_wal log_transition
moved-IsInStep now slug to_state meta old m o h = record {
  synced = λ k. moved-IsSyncedAt now slug to_state meta old m k o h;
  before =
      IsBefore-insert_file (now + 1) (file_of (transition_entry now slug to_state meta)) m.wal
        (omega arith) (IsBefore-until now (now + 1) m.wal (omega arith) h.before);
}

pub archived-IsInStep :
    (now : ℕ) (slug : String) (run : Option RunMeta) (m : RunManager)
    → Dict.get m.active_runs slug ≡ some run
    → IsInStep now m
    → IsInStep (now + 1) (append_wal (archive_entry now slug) (move_run now slug run m))
unfolding update_snapshot append_wal move_run
archived-IsInStep now slug run m o h = record {
  synced = λ k. archived-IsSyncedAt now slug run m k o h;
  before =
      IsBefore-insert_file (now + 1) (file_of (archive_entry now slug)) m.wal (omega arith)
        (IsBefore-until now (now + 1) m.wal (omega arith) h.before);
}
