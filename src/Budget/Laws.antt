-- ===== src/Budget/Laws.antt =====
-- The checks and the actions of engine/budget.py.
use prodinamik_engine.Prelude.{
  ℕ, ◌≤◌, ◌≡◌, ◌≢◌, ◌⊎◌, contains, refl, ap, ◌∙◌, Bool-cases, Option-cases, inl, inr, String, Bool,
  true, false, ◌||◌, none, some, List, [], ◌∷◌, arith, if◌then◌else◌, get_or, add,
}
use prodinamik_engine.Dict.{Dict, get, put, get-put}
use prodinamik_engine.Degradation.{
  DegradationManager, is_enabled, survival, manual_degrade, transition_to,
}
use prodinamik_engine.Budget.{
  BudgetAction, proceed, warn, slow, stop, BudgetLimit, soft_exceeded, hard_exceeded, CostTracker,
  BudgetEnforcer, BudgetConfig, configure, check, check_limits, slow_or_proceed, check_validator,
  halved, apply_action, update_from_tracker,
}

abbrev pub any_limit : (BudgetLimit → Bool) → Dict BudgetLimit → Bool
any_limit p [] = false
any_limit p ((name, l) ∷ limits) = p l || any_limit p limits

check_limits_lem :
    (limits : Dict BudgetLimit) (sent : List String)
    → ((check_limits limits sent).stopped ≡ any_limit hard_exceeded limits)
      × (any_limit hard_exceeded limits ≡ false
          → (check_limits limits sent).warned ≡ any_limit soft_exceeded limits)
unfolding check_limits check
check_limits_lem [] sent = (refl, λ h. refl)
check_limits_lem ((name, l) ∷ limits) sent =
    let rest = check_limits_lem limits in
    elim (Bool-cases (hard_exceeded l)) [
      | inl h ↦ rw h (refl, λ h'. ground arith)
      | inr h ↦ elim (Bool-cases (soft_exceeded l)) [
        | inl s ↦ rw (h, s) ((rest (add name sent)).0, λ h'. refl)
        | inr s ↦ rw (h, s) (rest sent)
      ]
    ]

-- The action for a validator on the limits alone: it stops if some limit has reached its hard bound;
-- otherwise it warns if some limit has reached its soft bound; otherwise the number of calls of the
-- model decides whether it slows down.
pub check_validator_lem :
    (cost : CostTracker) (tier : ℕ) (e : BudgetEnforcer)
    → (check_validator cost tier e).0 ≡ (
        if any_limit hard_exceeded e.limits
        then stop
        else if any_limit soft_exceeded e.limits
        then warn
        else slow_or_proceed cost e.limits tier)
unfolding check_validator
check_validator_lem cost tier e = elim (Bool-cases (any_limit hard_exceeded e.limits)) [
  | inl h ↦ rw (h, (check_limits_lem e.limits e.warnings_sent).0 ∙ h) refl
  | inr h ↦
      rw
        (
          h,
          (check_limits_lem e.limits e.warnings_sent).0 ∙ h,
          (check_limits_lem e.limits e.warnings_sent).1 h,
        )
        refl
]

-- After the limits are configured and the numbers of the tracker are read, no check answers `slow`:
-- more calls than the soft bound of the calls means that this limit warns already.
pub configured_never_slow :
    (usd tier : ℕ) (c : BudgetConfig) (cost : CostTracker) (e : BudgetEnforcer)
    → (check_validator cost tier (update_from_tracker cost (configure usd c e))).0 ≢ slow
unfolding check_validator update_from_tracker configure check_limits check get put
configured_never_slow usd tier c cost e = λ h. ground arith

abbrev pub AllRates : Dict ℕ → Type 0
AllRates rates = (name : String) (rate : ℕ) → get rates name ≡ some rate → (8 ≤ rate) × (rate ≤ 80)

abbrev pub apply_all : List (BudgetAction × String) → BudgetEnforcer → BudgetEnforcer
apply_all [] e = e
apply_all ((a, name) ∷ actions) e = apply_all actions (apply_action a name e)

halved_bounds : (rate : ℕ) → rate ≤ 80 → (8 ≤ halved rate) × (halved rate ≤ 80)
halved_bounds rate h = (omega arith, omega arith)

apply_action-AllRates :
    (a : BudgetAction) (name : String) (e : BudgetEnforcer)
    → AllRates e.validator_sampling
    → AllRates (apply_action a name e).validator_sampling
unfolding apply_action
apply_action-AllRates slow name e h = slowed (Option-cases (get e.validator_sampling name))
  where
    old : ℕ
    old = get_or (get e.validator_sampling name) 80

    old_le :
        (get e.validator_sampling name ≡ none)
          ⊎ ((r : ℕ) × (get e.validator_sampling name ≡ some r))
        → old ≤ 80
    old_le (inl p) = rw p (omega arith)
    old_le (inr (r, p)) = rw p ((h name r p).1)

    slowed :
        (get e.validator_sampling name ≡ none)
          ⊎ ((r : ℕ) × (get e.validator_sampling name ≡ some r))
        → AllRates (put e.validator_sampling name (halved old))
    slowed c j rate p =
        let bounds = halved_bounds old (old_le c) in
        ground (arith, get-put e.validator_sampling name (halved old) j, h j rate)
apply_action-AllRates stop name e h = h
apply_action-AllRates proceed name e h = h
apply_action-AllRates warn name e h = h

-- Whatever actions are applied to an enforcer that has no sampling rates yet, every rate it stores is
-- at least a tenth and at most one.
pub rates_bounded :
    (actions : List (BudgetAction × String)) (e : BudgetEnforcer)
    → e.validator_sampling ≡ []
    → AllRates (apply_all actions e).validator_sampling
unfolding get
rates_bounded actions e h = go actions e (λ name rate p. ground (arith, ap (λ d. get d name) h))
  where
    go :
        (actions : List (BudgetAction × String)) (e : BudgetEnforcer)
        → AllRates e.validator_sampling
        → AllRates (apply_all actions e).validator_sampling
    go [] e h = h
    go ((a, name) ∷ actions) e h =
        go actions (apply_action a name e) (apply_action-AllRates a name e h)

-- A stop, applied where a degradation manager is attached, leaves that manager in `survival`, with no
-- validator of any tier enabled.
pub stop_disables_validators :
    (m : DegradationManager) (name : String) (e : BudgetEnforcer) (tier : String)
    → e.degradation ≡ some m
    → contains ("t1_validators" ∷ "t2_validators" ∷ "t3_validators" ∷ []) tier ≡ true
    → (apply_action stop name e).degradation ≡ some (manual_degrade m survival)
      × (is_enabled (manual_degrade m survival) tier ≡ false)
unfolding apply_action manual_degrade transition_to is_enabled
stop_disables_validators m name e tier h h' = (rw h refl, ground arith)
