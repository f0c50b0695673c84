-- ===== src/Degradation.antt =====
-- The degradation manager (engine/degradation.py): the health checks, the rule that moves between
-- the three levels, the features a level switches off, and the history of the moves. The texts that
-- only describe a check or a move, and the times, are left out. The use of the disk is what
-- `shutil.disk_usage` answers, `none` for an `OSError`; its percentage is compared without
-- division, as `used * 100` against `95 * total`.
pub mod Laws
use prodinamik_engine.Prelude.{
  ℕ, zero, suc, ◌+◌, ◌*◌, String, Bool, true, false, Option, none, some, List, [], ◌∷◌, ◌++◌, ltb,
  leb, str_eq, if◌then◌else◌, contains,
}

pub data DegradationLevel : Type 0 where
  full degraded survival : DegradationLevel

abbrev pub level_eq : DegradationLevel → DegradationLevel → Bool
level_eq full full = true
level_eq degraded degraded = true
level_eq survival survival = true
level_eq _ _ = false

abbrev pub level_in : DegradationLevel → List DegradationLevel → Bool
level_in l [] = false
level_in l (m ∷ ms) = if level_eq l m then true else level_in l ms

pub record HealthCheckResult : Type 0 where
  pub name : String
  pub passed : Bool
  pub metric : ℕ
  pub threshold : ℕ

pub record DegradationEvent : Type 0 where
  pub from_level : DegradationLevel
  pub to_level : DegradationLevel
  pub checks : List (String × Bool)

pub record DegradationManager : Type 0 where
  pub current_level : DegradationLevel
  pub previous_level : DegradationLevel
  pub disabled_features : List String
  pub degradation_history : List DegradationEvent
  pub check_count : ℕ

abbrev pub new_manager : DegradationManager
new_manager = record {
  current_level = full;
  previous_level = full;
  disabled_features = [];
  degradation_history = [];
  check_count = 0;
}

-- The keys of `engine_state` that the checks read, with the defaults of a missing key.
pub record EngineState : Type 0 where
  pub consecutive_llm_failures : ℕ
  pub consecutive_adapter_failures : ℕ
  pub budget_hard_limit_reached : Bool

pub record DiskUsage : Type 0 where
  pub used : ℕ
  pub total : ℕ

abbrev pub check_disk_usage : Option DiskUsage → HealthCheckResult
check_disk_usage none = record { name = "disk_usage"; passed = true; metric = 0; threshold = 0 }
check_disk_usage (some u) = record {
  name = "disk_usage";
  passed = ltb (u.used * 100) (95 * u.total);
  metric = u.used * 100;
  threshold = 95 * u.total;
}

abbrev pub check_llm_api : EngineState → HealthCheckResult
check_llm_api s = record {
  name = "llm_api";
  passed = ltb s.consecutive_llm_failures 3;
  metric = s.consecutive_llm_failures;
  threshold = 3;
}

abbrev pub check_remote_adapters : EngineState → HealthCheckResult
check_remote_adapters s = record {
  name = "remote_adapters";
  passed = ltb s.consecutive_adapter_failures 3;
  metric = s.consecutive_adapter_failures;
  threshold = 3;
}

abbrev pub check_budget : EngineState → HealthCheckResult
check_budget s = record {
  name = "budget";
  passed = if s.budget_hard_limit_reached then false else true;
  metric = 0;
  threshold = 0;
}

abbrev pub check_memory : HealthCheckResult
check_memory = record { name = "memory"; passed = true; metric = 0; threshold = 0 }

-- `check_health`: the five results; the counter moves in `evaluate`.
abbrev pub check_health : Option DiskUsage → EngineState → List HealthCheckResult
check_health u s =
    check_disk_usage u
    ∷ check_llm_api s
    ∷ check_remote_adapters s
    ∷ check_budget s
    ∷ check_memory
    ∷ []

abbrev pub failed_of : List HealthCheckResult → List HealthCheckResult
failed_of [] = []
failed_of (c ∷ cs) = let rest = failed_of cs in if c.passed then rest else c ∷ rest

abbrev pub any_named : List String → List HealthCheckResult → Bool
any_named names [] = false
any_named names (c ∷ cs) = if contains names c.name then true else any_named names cs

abbrev pub any_critical : List HealthCheckResult → Bool
any_critical [] = false
any_critical (c ∷ cs) = if leb c.threshold c.metric then true else any_critical cs

abbrev pub is_none_failed : List HealthCheckResult → Bool
is_none_failed [] = true
is_none_failed (c ∷ cs) = false

-- The branches of `evaluate` on the current level.
unfoldable pub next_level : DegradationLevel → List HealthCheckResult → DegradationLevel
next_level full failed =
    if any_named ("llm_api" ∷ "remote_adapters" ∷ []) failed
    then degraded
    else if any_critical failed
    then degraded
    else full
next_level degraded failed =
    if any_named ("disk_usage" ∷ []) failed
    then survival
    else if any_named ("budget" ∷ []) failed
    then survival
    else if is_none_failed failed
    then full
    else degraded
next_level survival failed = survival

abbrev pub features_off : DegradationLevel → List String
features_off full = []
features_off degraded = "t2_validators" ∷ "t3_validators" ∷ "remote_adapters" ∷ []
features_off survival =
    "t1_validators" ∷ "t2_validators" ∷ "t3_validators" ∷ "all_adapters" ∷ "event_store_write" ∷ []

abbrev pub checks_of : List HealthCheckResult → List (String × Bool)
checks_of [] = []
checks_of (c ∷ cs) = (c.name, c.passed) ∷ checks_of cs

-- `_transition_to`
unfoldable pub transition_to :
    DegradationManager → DegradationLevel → List HealthCheckResult → DegradationManager
transition_to m l failed = record {
  current_level = l;
  previous_level = m.current_level;
  disabled_features = features_off l;
  degradation_history =
      m.degradation_history
      ++ record { from_level = m.current_level; to_level = l; checks = checks_of failed } ∷ [];
  check_count = m.check_count;
}

abbrev pub counted : DegradationManager → DegradationManager
counted m = record {
  current_level = m.current_level;
  previous_level = m.previous_level;
  disabled_features = m.disabled_features;
  degradation_history = m.degradation_history;
  check_count = m.check_count + 1;
}

-- `evaluate`, whose answer is the level of the manager it leaves.
unfoldable pub evaluate : DegradationManager → Option DiskUsage → EngineState → DegradationManager
evaluate m u s =
    let failed = failed_of (check_health u s) in
    let l = next_level m.current_level failed in
    if level_eq l m.current_level then counted m else transition_to (counted m) l failed

unfoldable pub manual_degrade : DegradationManager → DegradationLevel → DegradationManager
manual_degrade m l = transition_to m l []

unfoldable pub manual_recover : DegradationManager → DegradationManager
manual_recover m = transition_to m full []

-- The table `level_checks` of `is_enabled`, with its default.
unfoldable pub allowed_levels : String → List DegradationLevel
allowed_levels f =
    if str_eq f "t1_validators"
    then full ∷ degraded ∷ []
    else if str_eq f "t2_validators"
    then full ∷ []
    else if str_eq f "t3_validators"
    then full ∷ []
    else if str_eq f "remote_adapters"
    then full ∷ []
    else if str_eq f "local_adapters"
    then full ∷ degraded ∷ []
    else if str_eq f "state_tracking"
    then full ∷ degraded ∷ survival ∷ []
    else if str_eq f "event_writing"
    then full ∷ degraded ∷ []
    else if str_eq f "run_crud"
    then full ∷ degraded ∷ survival ∷ []
    else full ∷ []

unfoldable pub is_enabled : DegradationManager → String → Bool
is_enabled m f =
    if contains m.disabled_features f then false else level_in m.current_level (allowed_levels f)
