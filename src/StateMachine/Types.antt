-- ===== src/StateMachine/Types.antt =====
-- The data of engine/sm_types.py that the machine reads. Hooks, validators, reminders and questions
-- for the user are left out.
use prodinamik_engine.Prelude.{ℕ, String, Bool, true, false, Option, List, [], ◌∷◌, if◌then◌else◌}
use prodinamik_engine.Dict.{Dict}

pub data TransitionType : Type 0 where
  reversible compensable irreversible : TransitionType

pub data StateType : Type 0 where
  initial intermediate terminal error pause : StateType

abbrev pub is_initial : StateType → Bool
is_initial StateType.initial = true
is_initial _ = false

abbrev pub is_intermediate : StateType → Bool
is_intermediate StateType.intermediate = true
is_intermediate _ = false

abbrev pub is_terminal : StateType → Bool
is_terminal StateType.terminal = true
is_terminal _ = false

abbrev pub is_error : StateType → Bool
is_error StateType.error = true
is_error _ = false

pub record StateDefinition : Type 0 where
  pub name : String
  pub state_type : StateType
  pub max_reentries : Option ℕ
  pub timeout_seconds : Option ℕ
  pub temporal_on_timeout : Option String

pub record TransitionDefinition : Type 0 where
  pub from_state : String
  pub to_state : String
  pub transition_type : TransitionType
  pub condition : Option String
  pub requires_human : Bool

pub record LtlRule : Type 0 where
  pub expression : String

pub record StateMachineConfig : Type 0 where
  pub states : Dict StateDefinition
  pub transitions : List TransitionDefinition
  pub ltl_rules : List LtlRule

-- The fields of `RuntimeState` that the machine reads or writes.
pub record RuntimeState : Type 0 where
  pub current_state : String
  pub reentry_count : ℕ
  pub iteration_count : ℕ
  pub drift_count : ℕ
  pub human_approved : Bool
  pub consecutive_failures : ℕ
  pub total_iterations : ℕ
  pub changes_requested : Bool
  pub manual_unblock : Bool
  pub project_abandoned : Bool

-- The names of the states that pass a test, in the order of the table.
abbrev pub names_of : (StateType → Bool) → Dict StateDefinition → List StateDefinition
names_of p [] = []
names_of p ((k, s) ∷ states) =
    let rest = names_of p states in if p s.state_type then s ∷ rest else rest
