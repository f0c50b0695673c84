-- ===== src/Runs/Recovery.antt =====
-- What recovery (engine/run_manager.py, `recover`) makes of the write-ahead log, one slug at a time, for a
-- run's state, profile and status.
pub mod Reached
pub mod Operations
pub mod Durable
use prodinamik_engine.Prelude.{
  ℕ, ◌+◌, ◌<◌, ◌≤◌, ltb, lt→ltb, ◌≡◌, refl, ap, sym, ◌∙◌, ◌⊎◌, inl, inr, String, Bool, true, false,
  Option, none, some, List, [], ◌∷◌, ◌++◌, arith, if◌then◌else◌, str_eq, eq_iff, eq_refl, get_or,
  Bool-cases,
}
use mathlib.Core.Path.{subst}
use prodinamik_engine.Dict
use prodinamik_engine.Dict.{Dict, get-put, get-put_self}
use prodinamik_engine.Runs.{
  RunStatus, active, archived, RunMeta, SnapshotEntry, no_entry, Action, create, transition,
  archive, WalEntry, WalFile, insert_file, updated, create_fields, archive_fields, newer,
}
use prodinamik_engine.Runs.Transitions.{transition_fields}
use prodinamik_engine.Runs.Replay.{replayed, replay_entry, replay_file, replay}

pub record View : Type 0 where
  pub state : Option String
  pub profile : Option String
  pub status : Option RunStatus

abbrev pub view : Option SnapshotEntry → View
view none = record { state = none; profile = none; status = none }
view (some s) = record { state = s.state; profile = s.profile; status = s.status }

abbrev pub seen : Action → View → View
seen (create name initial_state) v = record {
  state = some initial_state;
  profile = some name;
  status = some active;
}
seen (transition from_state to_state version) v = record v { state = some to_state }
seen archive v = record v { status = some archived }

abbrev pub see : String → Option WalEntry → View → View
see k none v = v
see k (some e) v = if str_eq e.slug k then seen e.action v else v

abbrev pub replay_view : String → List WalFile → View → View
replay_view k [] v = v
replay_view k (f ∷ fs) v = replay_view k fs (see k f.entry v)

pub replay_view-append :
    (k : String) (fs : List WalFile) (f : WalFile) (v : View)
    → replay_view k (fs ++ f ∷ []) v ≡ see k f.entry (replay_view k fs v)
replay_view-append k [] f v = refl
replay_view-append k (g ∷ fs) f v = replay_view-append k fs f (see k g.entry v)

view-updated :
    (a : Action) (t : ℕ) (o : Option SnapshotEntry)
    → view (some (updated (replayed a t) (get_or o no_entry))) ≡ seen a (view o)
view-updated (create name initial_state) t o = refl
view-updated (transition from_state to_state version) t none = refl
view-updated (transition from_state to_state version) t (some s) = refl
view-updated archive t none = refl
view-updated archive t (some s) = refl

replay_entry_own :
    (k : String) (a : Action) (t : ℕ) (d : Dict SnapshotEntry)
    → str_eq k "" ≡ false
    → view (Dict.get (replay_entry (record { slug = k; action = a; timestamp = t }) d) k)
      ≡ seen a (view (Dict.get d k))
replay_entry_own k a t d n = rw (n, get-put_self) (view-updated a t (Dict.get d k))

replay_file_lem :
    (k : String) (e : Option WalEntry) (d : Dict SnapshotEntry)
    → str_eq k "" ≡ false
    → view (Dict.get (replay_file e d) k) ≡ see k e (view (Dict.get d k))
replay_file_lem k none d n = refl
replay_file_lem k (some e) d n = elim (Bool-cases (str_eq e.slug k)) [
  | inl t ↦ rw t (
      subst
        (λ j.
          view (Dict.get (replay_entry (record e { slug = j }) d) k)
          ≡ seen e.action (view (Dict.get d k)))
        (sym ((eq_iff e.slug k).0 t)) (replay_entry_own k e.action e.timestamp d n))
  | inr t ↦ elim (Bool-cases (str_eq e.slug "")) [
    | inl u ↦ rw (u, t) refl
    | inr u ↦ rw (u, get-put, t) refl
  ]
]

-- Each run is recovered by the entries of its slug.
pub replay_lem :
    (k : String) (fs : List WalFile) (d : Dict SnapshotEntry)
    → str_eq k "" ≡ false
    → view (Dict.get (replay fs d) k) ≡ replay_view k fs (view (Dict.get d k))
unfolding replay
replay_lem k [] d n = refl
replay_lem k (f ∷ fs) d n =
    replay_lem k fs (replay_file f.entry d) n
    ∙ ap (replay_view k fs) (replay_file_lem k f.entry d n)

abbrev pub IsMatched : Option (Option RunMeta) → View → Type 0
IsMatched none v = Unit
IsMatched (some none) v = ⊥
IsMatched (some (some meta)) v = (v.state ≡ some meta.state) × (v.status ≡ some active)

abbrev pub IsFresh : String → List WalFile → Option SnapshotEntry → Option (Option RunMeta) → Type 0
IsFresh k fs snap run = ((v : View) → replay_view k fs v ≡ v) × (snap ≡ none) × (run ≡ none)

-- Replay of the log ends, from any snapshot, in what the snapshot says, and so do the metadata.
abbrev pub IsLogged :
    String → List WalFile → Option SnapshotEntry → Option (Option RunMeta) → Type 0
IsLogged k fs snap run = ((v : View) → replay_view k fs v ≡ view snap) × IsMatched run (view snap)

abbrev pub IsSynced :
    String → List WalFile → Option SnapshotEntry → Option (Option RunMeta) → Type 0
IsSynced k fs snap run = IsFresh k fs snap run ⊎ IsLogged k fs snap run

abbrev pub file_of : WalEntry → WalFile
file_of e = record { written = e.timestamp; entry = some e }

-- All files are named after earlier times.
abbrev pub IsBefore : ℕ → List WalFile → Type 0
IsBefore t [] = Unit
IsBefore t (f ∷ fs) = (f.written < t) × IsBefore t fs

pub IsBefore-until : (t t' : ℕ) (fs : List WalFile) → t ≤ t' → IsBefore t fs → IsBefore t' fs
IsBefore-until t t' [] l h = tt
IsBefore-until t t' (f ∷ fs) l h = (omega (arith, l, h.0), IsBefore-until t t' fs l h.1)

pub IsBefore-insert_file :
    (t : ℕ) (f : WalFile) (fs : List WalFile)
    → f.written < t
    → IsBefore t fs
    → IsBefore t (insert_file f fs)
unfolding insert_file
IsBefore-insert_file t f [] l h = (l, tt)
IsBefore-insert_file t f (g ∷ fs) l h = elim (Bool-cases (ltb g.written f.written)) [
  | inl e ↦ rw e (h.0, IsBefore-insert_file t f fs l h.1)
  | inr e ↦ elim (Bool-cases (ltb f.written g.written)) [
    | inl e' ↦ rw (e, e') (l, h)
    | inr e' ↦ rw (e, e') (l, h.1)
  ]
]

-- A file with a later name than all others is put at the end.
pub insert_file-end :
    (f : WalFile) (fs : List WalFile) → IsBefore f.written fs → insert_file f fs ≡ fs ++ f ∷ []
unfolding insert_file
insert_file-end f [] h = refl
insert_file-end f (g ∷ fs) h =
    rw (lt→ltb g.written f.written h.0) (ap (λ gs. g ∷ gs) (insert_file-end f fs h.1))

-- A run that is on disk has been logged.
pub IsLogged-run :
    (k : String) (fs : List WalFile) (snap : Option SnapshotEntry) (run : Option RunMeta)
    → IsSynced k fs snap (some run)
    → IsLogged k fs snap (some run)
IsLogged-run k fs snap run (inl h) = absurd (some≢none h.2)
  where
    some≢none : {A : Type 0} {a : A} → some a ≡ none → ⊥
    some≢none h = ground (arith, h)
IsLogged-run k fs snap run (inr h) = h

pub after_other :
    (k : String) (fs : List WalFile) (e : WalEntry) (snap : Option SnapshotEntry)
    (run : Option (Option RunMeta))
    → str_eq e.slug k ≡ false
    → IsSynced k fs snap run
    → IsSynced k (fs ++ file_of e ∷ []) snap run
after_other k fs e snap run n (inl h) =
    inl (λ v. replay_view-append k fs (file_of e) v ∙ rw n (h.0 v), h.1, h.2)
after_other k fs e snap run n (inr h) =
    inr (λ v. replay_view-append k fs (file_of e) v ∙ rw n (h.0 v), h.1)

-- The replay of an entry for the slug itself.
pub replay_own :
    (k : String) (fs : List WalFile) (a : Action) (t : ℕ) (v : View)
    → replay_view k (fs ++ file_of (record { slug = k; action = a; timestamp = t }) ∷ []) v
      ≡ seen a (replay_view k fs v)
replay_own k fs a t v =
    replay_view-append k fs (file_of (record { slug = k; action = a; timestamp = t })) v
    ∙ rw (eq_refl k) refl
