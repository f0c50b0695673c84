-- ===== src/Raft/Types.antt =====
-- The data of engine/raft_types.py. A command is a JSON object; the code reads four of its keys,
-- each of which may be missing. Timestamps and checksums of entries are never read by the protocol.
use prodinamik_engine.Prelude.{
  ℕ, String, Bool, true, false, Option, none, some, str_eq, if◌then◌else◌,
}

pub data NodeRole : Type 0 where
  follower candidate leader offline reconnecting : NodeRole

abbrev pub is_leader : NodeRole → Bool
is_leader leader = true
is_leader _ = false

pub record Command : Type 0 where
  pub slug : Option String
  pub type : Option String
  pub to_state : Option String
  pub initial_state : Option String

pub record LogEntry : Type 0 where
  pub term : ℕ
  pub index : ℕ
  pub command : Command

pub record NodeState : Type 0 where
  pub current_state : String
  pub version : ℕ

-- `NodeState()`
abbrev pub blank : NodeState
blank = record { current_state = ""; version = 0 }

pub record PendingOperation : Type 0 where
  pub command : Command
  pub local_version : ℕ
  pub applied : Bool

-- A text that Python's `if` takes for true: there, and not empty.
abbrev pub truthy : Option String → Option String
truthy none = none
truthy (some s) = if str_eq s "" then none else some s

-- `command.get("type") == t`
abbrev pub is_type : Command → String → Bool
is_type c t = has_text c.type
  where
    has_text : Option String → Bool
    has_text none = false
    has_text (some s) = str_eq s t

-- What a method returns, or the exception that leaves it.
pub data Fault : Type 0 where
  index_error key_error : Fault

pub data Result {ℓ} (A : Type ℓ) : Type ℓ where
  ok : A → Result A
  raised : Fault → Result A
