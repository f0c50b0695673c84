-- ===== src/Runs.antt =====
-- The run manager (engine/run_manager.py). A directory of a run is an entry of `active_runs` or
-- `archived_runs` under its slug, `none` where it has no content-object.md, whose fields are stored as
-- they are. The snapshot is what is loaded from its file, nothing where there is none. The files of the
-- write-ahead log are a list in the order of their names, which hold the local time at which they were
-- written; it is taken to be the time of the entry. A file has the entry `none` where it cannot be read or its
-- checksum is wrong. A slug is the name of one directory; the one that is made from a title is the
-- caller's. Times are whole ticks, and the clock is an argument, as is the year of a time.
pub mod Transitions
pub mod Replay
pub mod Updates
pub mod Recovery
use prodinamik_engine.Prelude.{
  ℕ, ◌+◌, max, String, Bool, true, false, Option, none, some, List, [], ◌∷◌, ◌++◌, ltb,
  if◌then◌else◌, str_eq, get_or,
}
use prodinamik_engine.Dict
use prodinamik_engine.Dict.{Dict}
use prodinamik_engine.StateMachine.Types.{
  StateMachineConfig, StateDefinition, RuntimeState, names_of, is_initial,
}
use prodinamik_engine.StateMachine.Transition.{Answer, allowed, can_transition, Evaluated}

pub data RunStatus : Type 0 where
  active archived error : RunStatus

pub record RunMeta : Type 0 where
  pub slug : String
  pub profile : String
  pub title : String
  pub created_at : ℕ
  pub updated_at : ℕ
  pub status : RunStatus
  pub state : String
  pub version : ℕ
  pub iteration_count : ℕ

pub record ProductProfile : Type 0 where
  pub name : String
  pub state_machine : Option StateMachineConfig

-- The fields of a run in the snapshot, `none` for one that is missing.
pub record SnapshotEntry : Type 0 where
  pub state : Option String
  pub profile : Option String
  pub status : Option RunStatus
  pub updated_at : Option ℕ
  pub version : Option ℕ

abbrev pub no_entry : SnapshotEntry
no_entry = record { state = none; profile = none; status = none; updated_at = none; version = none }

pub data Action : Type 0 where
  create : String → String → Action
  transition : String → String → ℕ → Action
  archive : Action

pub record WalEntry : Type 0 where
  pub slug : String
  pub action : Action
  pub timestamp : ℕ

-- A file of the log: the time in its name, and its entry.
pub record WalFile : Type 0 where
  pub written : ℕ
  pub entry : Option WalEntry

pub record RunManager : Type 0 where
  pub active_runs : Dict (Option RunMeta)
  pub archived_runs : Dict (Option RunMeta)
  pub snapshot : Dict SnapshotEntry
  pub wal : List WalFile

abbrev pub new_manager : RunManager
new_manager = record { active_runs = []; archived_runs = []; snapshot = []; wal = [] }

pub data RunError : Type 0 where
  no_state_machine already_exists no_initial_state run_not_found no_metadata : RunError
  rejected : Answer → RunError

pub data Result {ℓ} (A : Type ℓ) : Type ℓ where
  ok : A → Result A
  raised : RunError → Result A

-- `dict.update` on one field.
abbrev pub newer {ℓ} : {A : Type ℓ} → Option A → Option A → Option A
newer (some a) old = some a
newer none old = old

abbrev pub updated : SnapshotEntry → SnapshotEntry → SnapshotEntry
updated fields old = record {
  state = newer fields.state old.state;
  profile = newer fields.profile old.profile;
  status = newer fields.status old.status;
  updated_at = newer fields.updated_at old.updated_at;
  version = newer fields.version old.version;
}

-- `_update_snapshot`: where the slug is missing, the given fields alone.
unfoldable pub update_snapshot : String → SnapshotEntry → RunManager → RunManager
update_snapshot slug fields m =
    let old = get_or (Dict.get m.snapshot slug) no_entry in
    record m { snapshot = Dict.put m.snapshot slug (updated fields old) }

-- The files of the log in the order of their names; one of the same name is overwritten.
unfoldable pub insert_file : WalFile → List WalFile → List WalFile
insert_file f [] = f ∷ []
insert_file f (g ∷ fs) =
    let rest = insert_file f fs in
    if ltb g.written f.written
    then g ∷ rest
    else (if ltb f.written g.written then f ∷ g ∷ fs else f ∷ fs)

unfoldable pub append_wal : WalEntry → RunManager → RunManager
append_wal e m = record m {
  wal = insert_file (record { written = e.timestamp; entry = some e }) m.wal;
}

abbrev pub write_meta : RunMeta → RunManager → RunManager
write_meta meta m = record m { active_runs = Dict.put m.active_runs meta.slug (some meta) }

abbrev pub read_meta : Option (Option RunMeta) → Option RunMeta
read_meta none = none
read_meta (some meta) = meta

abbrev pub new_meta : ℕ → String → String → String → String → RunMeta
new_meta now title name slug initial_state = record {
  slug = slug;
  profile = name;
  title = title;
  created_at = now;
  updated_at = now;
  status = active;
  state = initial_state;
  version = 0;
  iteration_count = 0;
}

abbrev pub create_entry : ℕ → String → String → String → WalEntry
create_entry now name slug initial_state = record {
  slug = slug;
  action = create name initial_state;
  timestamp = now;
}

abbrev pub create_fields : ℕ → String → String → SnapshotEntry
create_fields now name initial_state = record {
  state = some initial_state;
  profile = some name;
  status = some active;
  updated_at = some now;
  version = none;
}

abbrev pub created : ℕ → String → String → String → String → RunManager → RunMeta × RunManager
created now title name slug initial_state m =
    let meta = new_meta now title name slug initial_state in
    (
      meta,
      update_snapshot slug (create_fields now name initial_state)
          (append_wal (create_entry now name slug initial_state) (write_meta meta m)),
    )

abbrev pub create_in :
    ℕ → String → String → String → List StateDefinition → RunManager → Result RunMeta × RunManager
create_in now title name slug [] m = (raised no_initial_state, m)
create_in now title name slug (d ∷ ds) m =
    let r = created now title name slug d.name m in (ok r.0, r.1)

abbrev pub create_free :
    ℕ
    → String
    → String
    → String
    → List StateDefinition
    → Option RunMeta
    → RunManager
    → Result RunMeta × RunManager
create_free now title name slug ds (some meta) m = (raised already_exists, m)
create_free now title name slug ds none m = create_in now title name slug ds m

abbrev pub create_with :
    ℕ
    → String
    → String
    → String
    → Option StateMachineConfig
    → RunManager
    → Result RunMeta × RunManager
create_with now title name slug none m = (raised no_state_machine, m)
create_with now title name slug (some c) m =
    create_free now title name slug (names_of is_initial c.states)
      (read_meta (Dict.get m.active_runs slug)) m

unfoldable pub create_run :
    ℕ → String → ProductProfile → String → RunManager → Result RunMeta × RunManager
create_run now title p slug m = create_with now title p.name slug p.state_machine m

-- The metadata that `get_run` reads, from the archive where no run is active under the slug.
unfoldable pub get_run : String → RunManager → Option RunMeta
get_run slug m = elim (Dict.get m.active_runs slug) [
  | none ↦ read_meta (Dict.get m.archived_runs slug)
  | some meta ↦ meta
]

abbrev pub archive_entry : ℕ → String → WalEntry
archive_entry now slug = record { slug = slug; action = archive; timestamp = now }

abbrev pub archive_fields : ℕ → SnapshotEntry
archive_fields now = record no_entry { status = some archived; updated_at = some now }

-- The run is moved, and the snapshot says so; the log entry comes last.
unfoldable pub move_run : ℕ → String → Option RunMeta → RunManager → RunManager
move_run now slug meta m = update_snapshot slug (archive_fields now) (record m {
  active_runs = Dict.remove m.active_runs slug;
  archived_runs = Dict.put m.archived_runs slug meta;
})

abbrev pub archive_found :
    ℕ → String → Option (Option RunMeta) → RunManager → Result Bool × RunManager
archive_found now slug none m = (raised run_not_found, m)
archive_found now slug (some meta) m =
    (ok true, append_wal (archive_entry now slug) (move_run now slug meta m))

unfoldable pub archive_run : ℕ → String → RunManager → Result Bool × RunManager
archive_run now slug m = archive_found now slug (Dict.get m.active_runs slug) m
