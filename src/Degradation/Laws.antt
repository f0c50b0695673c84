-- ===== src/Degradation/Laws.antt =====
-- The degradation manager of engine/degradation.py: runs of its operations, its level, its
-- features and its history.
use prodinamik_engine.Prelude.{
  ◌≡◌, refl, sym, ap, ◌∙◌, Bool-cases, inl, inr, String, Bool, true, false, Option, none, some,
  List, [], ◌∷◌, ◌++◌, arith, eq_iff, leb, if◌then◌else◌, contains, ◌||◌, ◌*◌,
}
use prodinamik_engine.Degradation.{
  DegradationLevel, full, degraded, survival, level_in, DegradationManager, DegradationEvent,
  new_manager, EngineState, DiskUsage, level_eq, next_level, transition_to, evaluate,
  manual_degrade, manual_recover, features_off, allowed_levels, is_enabled, counted, failed_of,
  check_health, HealthCheckResult,
}

-- The health the checks see: the disk is 95% full, and so on.
abbrev pub disk_full : Option DiskUsage → Bool
disk_full none = false
disk_full (some u) = leb (95 * u.total) (u.used * 100)

-- The level after an evaluation, on the measured values alone.
abbrev pub level_for : DegradationLevel → Bool → Bool → Bool → Bool → DegradationLevel
level_for full disk llm adapters budget =
    if disk || llm || adapters || budget then degraded else full
level_for degraded disk llm adapters budget =
    if disk || budget then survival else if llm || adapters then degraded else full
level_for survival disk llm adapters budget = survival

abbrev pub level_after : DegradationLevel → Option DiskUsage → EngineState → DegradationLevel
level_after l u s =
    level_for l (disk_full u) (leb 3 s.consecutive_llm_failures)
      (leb 3 s.consecutive_adapter_failures) s.budget_hard_limit_reached

-- The rule on the failed checks is the rule on the values: every check that fails is critical.
next_level_lem :
    (l : DegradationLevel) (u : Option DiskUsage) (s : EngineState)
    → next_level l (failed_of (check_health u s)) ≡ level_after l u s
unfolding next_level
next_level_lem full none s = ground arith
next_level_lem full (some u) s = ground arith
next_level_lem degraded none s = ground arith
next_level_lem degraded (some u) s = ground arith
next_level_lem survival u s = refl

level_eq→eq : (a b : DegradationLevel) → level_eq a b ≡ true → b ≡ a
level_eq→eq full full h = refl
level_eq→eq full degraded h = ground arith
level_eq→eq full survival h = ground arith
level_eq→eq degraded full h = ground arith
level_eq→eq degraded degraded h = refl
level_eq→eq degraded survival h = ground arith
level_eq→eq survival full h = ground arith
level_eq→eq survival degraded h = ground arith
level_eq→eq survival survival h = refl

moved_level :
    (m : DegradationManager) (l : DegradationLevel) (failed : List HealthCheckResult)
    → (if level_eq l m.current_level
        then counted m
        else transition_to (counted m) l failed).current_level
      ≡ l
unfolding transition_to
moved_level m l failed = elim (Bool-cases (level_eq l m.current_level)) [
  | inl e ↦ rw e (level_eq→eq l m.current_level e)
  | inr e ↦ rw e refl
]

-- An evaluation moves by one level at most, as the measured values say: from `full` to `degraded`
-- when any value is bad, from `degraded` to `survival` for the disk or the budget and back to `full`
-- when every value is good, and `survival` is left as it is.
pub evaluate_lem :
    (m : DegradationManager) (u : Option DiskUsage) (s : EngineState)
    → (evaluate m u s).current_level ≡ level_after m.current_level u s
unfolding evaluate
evaluate_lem m u s =
    moved_level m (next_level m.current_level (failed_of (check_health u s)))
      (failed_of (check_health u s))
    ∙ next_level_lem m.current_level u s

-- The moves from the first level to the last, each from where the one before it ended.
abbrev pub Chain : DegradationLevel → List DegradationEvent → DegradationLevel → Type 0
Chain a [] b = a ≡ b
Chain a (e ∷ es) b = (e.from_level ≡ a) × Chain e.to_level es b

pub record IsConsistent (m : DegradationManager) : Type 0 where
  pub features : m.disabled_features ≡ features_off m.current_level
  pub history : Chain full m.degradation_history m.current_level

pub data Action : Type 0 where
  evaluated : Option DiskUsage → EngineState → Action
  degraded_to : DegradationLevel → Action
  recovered : Action

abbrev pub act : DegradationManager → Action → DegradationManager
act m (Action.evaluated u s) = evaluate m u s
act m (Action.degraded_to l) = manual_degrade m l
act m Action.recovered = manual_recover m

abbrev pub act_all : DegradationManager → List Action → DegradationManager
act_all m [] = m
act_all m (a ∷ actions) = act_all (act m a) actions

Chain-append :
    (a : DegradationLevel) (es : List DegradationEvent) (b : DegradationLevel)
    (e : DegradationEvent)
    → Chain a es b
    → e.from_level ≡ b
    → Chain a (es ++ e ∷ []) e.to_level
Chain-append a [] b e h h' = (h' ∙ sym h, refl)
Chain-append a (x ∷ es) b e h h' = (h.0, Chain-append x.to_level es b e h.1 h')

transition_to-IsConsistent :
    (m : DegradationManager) (l : DegradationLevel) (failed : List HealthCheckResult)
    → IsConsistent m
    → IsConsistent (transition_to m l failed)
unfolding transition_to
transition_to-IsConsistent m l failed h = record {
  features = refl;
  history = Chain-append full m.degradation_history m.current_level _ h.history refl;
}

counted-IsConsistent : (m : DegradationManager) → IsConsistent m → IsConsistent (counted m)
counted-IsConsistent m h = record { features = h.features; history = h.history }

act-IsConsistent : (m : DegradationManager) (a : Action) → IsConsistent m → IsConsistent (act m a)
unfolding evaluate manual_degrade manual_recover
act-IsConsistent m (Action.evaluated u s) h =
    elim (Bool-cases
      (level_eq (next_level m.current_level (failed_of (check_health u s))) m.current_level)) [
        | inl e ↦ rw e (counted-IsConsistent m h)
        | inr e ↦ rw e (transition_to-IsConsistent (counted m) _ _ (counted-IsConsistent m h))
      ]
act-IsConsistent m (Action.degraded_to l) h = transition_to-IsConsistent m l [] h
act-IsConsistent m Action.recovered h = transition_to-IsConsistent m full [] h

act_all-IsConsistent :
    (m : DegradationManager) (actions : List Action)
    → IsConsistent m
    → IsConsistent (act_all m actions)
act_all-IsConsistent m [] h = h
act_all-IsConsistent m (a ∷ actions) h =
    act_all-IsConsistent (act m a) actions (act-IsConsistent m a h)

-- Whatever evaluations, manual moves and recoveries a new manager goes through, the features it has
-- switched off are those of its level, and its history is a chain of moves from `full` to that level.
pub runs-IsConsistent : (actions : List Action) → IsConsistent (act_all new_manager actions)
runs-IsConsistent actions =
    act_all-IsConsistent new_manager actions record { features = refl; history = refl }

abbrev none_allowed : DegradationLevel → List String → Bool
none_allowed l [] = true
none_allowed l (f ∷ fs) = if level_in l (allowed_levels f) then false else none_allowed l fs

contains-none_allowed :
    (l : DegradationLevel) (fs : List String) (f : String)
    → none_allowed l fs ≡ true
    → contains fs f ≡ true
    → level_in l (allowed_levels f) ≡ false
contains-none_allowed l [] f h h' = ground arith
contains-none_allowed l (x ∷ fs) f h h' = ground (arith, eq_iff x f, contains-none_allowed l fs f)

none_allowed-features_off : (l : DegradationLevel) → none_allowed l (features_off l) ≡ true
unfolding allowed_levels
none_allowed-features_off full = refl
none_allowed-features_off degraded = refl
none_allowed-features_off survival = refl

enabled_by_level :
    (m : DegradationManager) (f : String)
    → m.disabled_features ≡ features_off m.current_level
    → is_enabled m f ≡ level_in m.current_level (allowed_levels f)
unfolding is_enabled
enabled_by_level m f h = elim (Bool-cases (contains m.disabled_features f)) [
  | inl e ↦ rw e (
      sym (
        contains-none_allowed m.current_level (features_off m.current_level) f
          (none_allowed-features_off m.current_level) (ap (λ fs. contains fs f) (sym h) ∙ e)))
  | inr e ↦ rw e refl
]

-- Whatever a new manager goes through, a feature is on exactly if its level is one of those that
-- the table allows the feature: the set of features switched off adds nothing to the table.
pub is_enabled_lem :
    (actions : List Action) (f : String)
    → let m = act_all new_manager actions in
      is_enabled m f ≡ level_in m.current_level (allowed_levels f)
is_enabled_lem actions f =
    enabled_by_level (act_all new_manager actions) f (runs-IsConsistent actions).features
