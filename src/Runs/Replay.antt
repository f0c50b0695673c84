-- ===== src/Runs/Replay.antt =====
-- `recover` and `_compact_wal` of engine/run_manager.py.
use prodinamik_engine.Prelude.{
  ℕ, max, Option, none, some, List, [], ◌∷◌, ltb, if◌then◌else◌, str_eq, get_or,
}
use prodinamik_engine.Dict
use prodinamik_engine.Dict.{Dict}
use prodinamik_engine.Runs.{
  archived, SnapshotEntry, no_entry, Action, create, transition, archive, WalEntry, WalFile,
  RunManager, updated, create_fields,
}

-- What an entry of the log says of its run.
abbrev pub replayed : Action → ℕ → SnapshotEntry
replayed (create name initial_state) t = create_fields t name initial_state
replayed (transition from_state to_state version) t = record no_entry {
  state = some to_state;
  updated_at = some t;
}
replayed archive t = record no_entry { status = some archived; updated_at = some t }

abbrev pub replay_entry : WalEntry → Dict SnapshotEntry → Dict SnapshotEntry
replay_entry e d =
    let old = get_or (Dict.get d e.slug) no_entry in
    if str_eq e.slug "" then d else Dict.put d e.slug (updated (replayed e.action e.timestamp) old)

abbrev pub replay_file : Option WalEntry → Dict SnapshotEntry → Dict SnapshotEntry
replay_file none d = d
replay_file (some e) d = replay_entry e d

-- The loop of `recover`.
unfoldable pub replay : List WalFile → Dict SnapshotEntry → Dict SnapshotEntry
replay [] d = d
replay (f ∷ fs) d = replay fs (replay_file f.entry d)

abbrev pub latest : List SnapshotEntry → ℕ
latest [] = 0
latest (s ∷ ss) = max (get_or s.updated_at 0) (latest ss)

-- `_compact_wal` compares the digits `20260501` of a file's name with those of `2026-05-01`, so that a
-- file counts as older only if its year is.
unfoldable pub kept_wal : (ℕ → ℕ) → ℕ → List WalFile → List WalFile
kept_wal year t [] = []
kept_wal year t (f ∷ fs) =
    let rest = kept_wal year t fs in if ltb (year f.written) (year t) then rest else f ∷ rest

abbrev pub compact_wal : (ℕ → ℕ) → List SnapshotEntry → List WalFile → List WalFile
compact_wal year [] fs = fs
compact_wal year (s ∷ ss) fs = kept_wal year (latest (s ∷ ss)) fs

-- The recovered snapshot, which is not written, and the manager with its log compacted.
unfoldable pub recover : (ℕ → ℕ) → RunManager → Dict SnapshotEntry × RunManager
recover year m =
    let snapshot = replay m.wal m.snapshot in
    (snapshot, record m { wal = compact_wal year (Dict.values snapshot) m.wal })
