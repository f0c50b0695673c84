-- ===== src/Events.antt =====
-- The event store (engine/event_store.py). A file of an event is a value of `files` under its number,
-- `none` where its text cannot be parsed; the name of a file is its number, so the index is the list of
-- its numbers. Times are whole ticks; where an event's time is not one that `fromisoformat` reads,
-- `is_iso` is false and `timestamp` is only its place in the order of texts (times with a zone are left
-- out). The clock is an argument. Of an event's `data` the model has
-- what the store reads, the name of the validator and the result, and the counts that a summary
-- holds; the rest, and the size of files, is left out.
pub mod Retention
pub mod Log
pub mod Refines
use prodinamik_engine.Prelude.{
  ℕ, zero, suc, ◌+◌, ◌-◌, ◌*◌, min, max, String, Bool, true, false, Option, none, some, List, [],
  ◌∷◌, ◌++◌, ltb, leb, ◌==◌, str_eq, if◌then◌else◌, get_or, length, not, ◌&&◌, ◌||◌,
}
use prodinamik_engine.NatDict
use prodinamik_engine.NatDict.{NatDict, has, include, exclude}

pub data EventType : Type 0 where
  state_transition validation validation_detail adapter_call adapter_response : EventType
  error user_action weekly_summary degradation_change invariant_violation : EventType

-- The field `event_type` of an event is a text, which may be of no type.
pub data EventName : Type 0 where
  known : EventType → EventName
  unknown : String → EventName

abbrev pub is_known : EventName → Bool
is_known (known t) = true
is_known (unknown name) = false

abbrev pub is_detail : EventName → Bool
is_detail (known validation_detail) = true
is_detail _ = false

-- `data["passed"]`: the result of a validator, or the number that passed, in a summary.
pub data Passed : Type 0 where
  flag : Bool → Passed
  tally : ℕ → Passed

-- What the store makes of the events that it compacts.
pub record Summary : Type 0 where
  pub compacted_events : ℕ
  pub period_start : ℕ
  pub period_end : ℕ
  pub total_cost : ℕ
  pub passed : ℕ
  pub failed : ℕ

pub record Event : Type 0 where
  pub sequence : ℕ
  pub run_slug : String
  pub timestamp : ℕ
  pub is_iso : Bool
  pub event_type : EventName
  pub validator : Option String
  pub passed : Option Passed
  pub summary : Option Summary
  pub cost_usd : ℕ

-- The table `RETENTION` in days, `none` for `timedelta.max`.
unfoldable pub retention_days : EventType → Option ℕ
retention_days state_transition = none
retention_days validation = some 90
retention_days validation_detail = some 30
retention_days adapter_call = some 30
retention_days adapter_response = some 7
retention_days error = some 365
retention_days user_action = some 365
retention_days weekly_summary = none
retention_days degradation_change = some 180
retention_days invariant_violation = some 365

-- A policy: the ticks of a day, and the days kept for each type.
pub record EventRetentionPolicy : Type 0 where
  pub day : ℕ
  pub days : EventType → Option ℕ

abbrev pub default_policy : ℕ → EventRetentionPolicy
default_policy day = record { day = day; days = retention_days }

abbrev pub is_older : ℕ → ℕ → Option ℕ → Bool
is_older age day none = false
is_older age day (some days) = ltb (days * day) age

pub data Fault : Type 0 where
  attribute_error key_error value_error : Fault

pub data Outcome {ℓ} (A : Type ℓ) : Type ℓ where
  ok : A → Outcome A
  raised : Fault → Outcome A

-- After the type is known: a type that is kept for good does not read the time.
abbrev pub purge_known : ℕ → EventRetentionPolicy → Event → Option ℕ → Outcome Bool
purge_known now p e none = ok false
purge_known now p e (some days) =
    if e.is_iso then ok (is_older (now - e.timestamp) p.day (some days)) else raised value_error

abbrev pub purge_named : ℕ → EventRetentionPolicy → Event → EventName → Outcome Bool
purge_named now p e (known t) = purge_known now p e (p.days t)
purge_named now p e (unknown name) = raised value_error

unfoldable pub should_purge : EventRetentionPolicy → ℕ → Event → Outcome Bool
should_purge p now e = purge_named now p e e.event_type

pub record EventStore : Type 0 where
  pub retention : EventRetentionPolicy
  pub files : NatDict (Option Event)
  pub index : List ℕ
  pub last_sequence : ℕ
  pub saved_index : List ℕ

-- `EventStore` on an empty directory.
abbrev pub new_store : EventRetentionPolicy → EventStore
new_store p = record { retention = p; files = []; index = []; last_sequence = 0; saved_index = [] }

-- `_save_index`
abbrev pub save_index : EventStore → EventStore
save_index s = record s { saved_index = s.index }

-- The event is written under the next number, without the index being saved.
abbrev pub write_event : Event → EventStore → EventStore
write_event e s =
    let seq = s.last_sequence + 1 in
    record s {
      files = NatDict.put s.files seq (some (record e { sequence = seq }));
      index = include seq s.index;
      last_sequence = seq;
    }

unfoldable pub append : Event → EventStore → ℕ × EventStore
append e s = (s.last_sequence + 1, save_index (write_event e s))

-- The loop of `append_many`: the numbers, and the store before the index is saved.
unfoldable pub append_loop : List Event → EventStore → List ℕ × EventStore
append_loop [] s = ([], s)
append_loop (e ∷ es) s =
    let rest = append_loop es (write_event e s) in ((s.last_sequence + 1) ∷ rest.0, rest.1)

unfoldable pub append_many : List Event → EventStore → List ℕ × EventStore
append_many [] s = ([], s)
append_many (e ∷ es) s = let r = append_loop (e ∷ es) s in (r.0, save_index r.1)

-- The greatest number of a file, as `_load_last_sequence` finds it.
abbrev pub greatest : NatDict (Option Event) → ℕ
greatest [] = 0
greatest ((seq, content) ∷ files) = max seq (greatest files)

abbrev pub greatest_of : List ℕ → ℕ
greatest_of [] = 0
greatest_of (seq ∷ seqs) = max seq (greatest_of seqs)

unfoldable pub load_last_sequence : NatDict (Option Event) → List ℕ → ℕ
load_last_sequence files archived = max (greatest files) (greatest_of archived)

-- A store that is opened on the files and the saved index of another one, whose file can be read, with
-- the numbers of the files that are in the archive.
unfoldable pub open_store : List ℕ → EventStore → EventStore
open_store archived s = record s {
  last_sequence = load_last_sequence s.files archived;
  index = s.saved_index;
}

-- The parsed content of a file that is there.
abbrev pub parsed : Option (Option Event) → Option Event
parsed none = none
parsed (some content) = content

unfoldable pub get : ℕ → EventStore → Option Event
get seq s = if has s.index seq then parsed (NatDict.get s.files seq) else none

-- The loop of `get_range`, over `n` numbers from `seq` on.
unfoldable pub range_loop : ℕ → ℕ → ℕ → EventStore → List Event
range_loop zero seq limit s = []
range_loop (suc n) seq limit s =
    let absent = range_loop n (seq + 1) limit s in
    let rest = range_loop n (seq + 1) (limit - 1) s in
    if limit == 0 then [] else elim (get seq s) [ none ↦ absent | some e ↦ e ∷ rest ]

unfoldable pub get_range : ℕ → ℕ → EventStore → List Event
get_range start limit s = range_loop (s.last_sequence + 1 - start) start limit s

unfoldable pub get_all : EventStore → List Event
get_all s = get_range 1 (s.last_sequence + 1) s

-- The tests of `query`; a least cost of 0 and a time 0 test nothing.
pub record Filter : Type 0 where
  pub event_type : Option (EventName → Bool)
  pub validator : Option String
  pub passed : Option Bool
  pub min_cost : ℕ
  pub since : ℕ

abbrev pub type_fits : Option (EventName → Bool) → EventName → Bool
type_fits none t = true
type_fits (some p) t = p t

abbrev pub name_is : String → Option String → Bool
name_is v none = false
name_is v (some w) = str_eq w v

abbrev pub validator_fits : Option String → Option String → Bool
validator_fits none o = true
validator_fits (some v) o = if str_eq v "" then true else name_is v o

-- `data.get("passed") != passed`: a number equals `True` if it is 1 and `False` if it is 0.
abbrev pub flag_is : Bool → Option Passed → Bool
flag_is b none = false
flag_is true (some (flag c)) = c
flag_is false (some (flag c)) = not c
flag_is true (some (tally n)) = n == 1
flag_is false (some (tally n)) = n == 0

abbrev pub passed_fits : Option Bool → Option Passed → Bool
passed_fits none o = true
passed_fits (some b) o = flag_is b o

unfoldable pub fits : Filter → Event → Bool
fits f e =
    type_fits f.event_type e.event_type
    && (validator_fits f.validator e.validator
        && (passed_fits f.passed e.passed
            && (leb f.min_cost e.cost_usd && leb f.since e.timestamp)))

-- The loop of `query`, from number `n` down to 1.
unfoldable pub query_loop : ℕ → Filter → ℕ → EventStore → List Event
query_loop zero f limit s = []
query_loop (suc n) f limit s =
    let absent = query_loop n f limit s in
    let rest = query_loop n f (limit - 1) s in
    if limit == 0
    then []
    else elim (get (suc n) s) [ none ↦ absent | some e ↦ if fits f e then e ∷ rest else absent ]

unfoldable pub query : Filter → ℕ → EventStore → List Event
query f limit s = query_loop s.last_sequence f limit s
