-- ===== src/StateMachine/Transition/Laws.antt =====
-- What an allowed transition means (engine/state_machine.py), for every evaluator of conditions and rules.
use prodinamik_engine.Prelude.{
  ℕ, zero, suc, ◌+◌, ◌≤◌, ◌≡◌, refl, sym, ap, ◌∙◌, Bool-cases, inl, inr, String, Bool, false,
  Option, none, some, List, [], ◌∷◌, arith, str_eq, eq_refl, if◌then◌else◌, leb, max, select, ◌&&◌,
}
use prodinamik_engine.Dict.{get}
use prodinamik_engine.StateMachine.Types.{
  StateDefinition, TransitionDefinition, StateMachineConfig, RuntimeState, is_terminal,
}
use prodinamik_engine.StateMachine.Graph.{build_transition_map, outgoing, leaves, outgoing-build}
use prodinamik_engine.StateMachine.Transition.{
  Evaluated, holds, fails, raises, allowed, matching, reentered, is_exhausted, is_nonempty, ltl_of,
  ask_condition, ask_ltl, with_runtime, take_first, between, can_transition,
}

abbrev pub runs_between : String → String → TransitionDefinition → Bool
runs_between a b t = leaves a t && str_eq t.to_state b

matching-select :
    (a b : String) (ts : List TransitionDefinition)
    → matching b (select (leaves a) ts) ≡ select (runs_between a b) ts
unfolding matching select
matching-select a b [] = refl
matching-select a b (t ∷ ts) = ground (arith, matching-select a b ts)

abbrev pub after : String → String → RuntimeState → RuntimeState
after a b r = if str_eq a b then reentered r else r

-- What an allowed transition from `a` to `b` finds: a source that is there and not terminal, a target
-- that is there, a first transition between them that no person has to approve, rules and, where
-- the transition names one, a condition that hold, and, for a transition of a state to itself, a
-- re-entry that is left.
pub record IsAllowed (condition : Option String → RuntimeState → Evaluated)
    (rules : Option (String → RuntimeState → Evaluated)) (c : StateMachineConfig) (a b : String)
    (r : RuntimeState) : Type 0 where
  pub source : StateDefinition
  pub target : StateDefinition
  pub move : TransitionDefinition
  pub others : List TransitionDefinition
  pub source_found : get c.states a ≡ some source
  pub target_found : get c.states b ≡ some target
  pub not_final : is_terminal source.state_type ≡ false
  pub first : select (runs_between a b) c.transitions ≡ move ∷ others
  pub no_human : move.requires_human ≡ false
  pub not_exhausted : (str_eq a b && is_exhausted target.max_reentries r.reentry_count) ≡ false
  pub rules_hold : ltl_of condition rules a r ≡ holds
  pub condition_holds :
      (if is_nonempty move.condition then condition move.condition r else holds) ≡ holds

module _ (condition : Option String → RuntimeState → Evaluated)
    (rules : Option (String → RuntimeState → Evaluated)) where
  ask_condition-after :
      (v : Evaluated) (a b : String) (r : RuntimeState)
      → (ask_condition condition rules v a b r).0 ≡ allowed
      → (v ≡ holds) × ((ask_condition condition rules v a b r).1 ≡ after a b r)
  ask_condition-after holds a b r h = elim (Bool-cases (str_eq a b)) [
    | inl e ↦ rw e (refl, refl)
    | inr e ↦ rw e (refl, refl)
  ]
  ask_condition-after fails a b r h = ground arith
  ask_condition-after raises a b r h = ground arith

  ask_ltl-after :
      (v : Evaluated) (t : TransitionDefinition) (a b : String) (r : RuntimeState)
      → (ask_ltl condition rules v t.condition a b r).0 ≡ allowed
      → (v ≡ holds)
        × ((if is_nonempty t.condition then condition t.condition r else holds) ≡ holds)
        × ((ask_ltl condition rules v t.condition a b r).1 ≡ after a b r)
  ask_ltl-after holds t a b r = elim (Bool-cases (is_nonempty t.condition)) [
    | inl e ↦
        rw e
          (λ h. let w = ask_condition-after (condition t.condition r) a b r h in (refl, w.0, w.1))
    | inr e ↦ rw e (λ h. (refl, refl, (ask_condition-after holds a b r h).1))
  ]
  ask_ltl-after fails t a b r = λ h. ground arith
  ask_ltl-after raises t a b r = λ h. ground arith

  with_runtime-after :
      (t : TransitionDefinition) (d : StateDefinition) (a b : String) (r : RuntimeState)
      → (with_runtime condition rules t d a b r).0 ≡ allowed
      → ((str_eq a b && is_exhausted d.max_reentries r.reentry_count) ≡ false)
        × (ltl_of condition rules a r ≡ holds)
        × ((if is_nonempty t.condition then condition t.condition r else holds) ≡ holds)
        × ((with_runtime condition rules t d a b r).1 ≡ after a b r)
  with_runtime-after t d a b r =
      elim (Bool-cases (str_eq a b && is_exhausted d.max_reentries r.reentry_count)) [
        | inl e ↦ rw e (λ h. ground arith)
        | inr e ↦ rw e (λ h.
            let w = ask_ltl-after (ltl_of condition rules a r) t a b r h in (refl, w.0, w.1, w.2))
      ]

  take_first_allowed :
      (c : StateMachineConfig) (s d : StateDefinition) (a b : String) (r : RuntimeState)
      → get c.states a ≡ some s
      → get c.states b ≡ some d
      → is_terminal s.state_type ≡ false
      → (ts : List TransitionDefinition) → select (runs_between a b) c.transitions ≡ ts
      → (take_first condition rules ts d a b r).0 ≡ allowed
      → IsAllowed condition rules c a b r
        × ((take_first condition rules ts d a b r).1 ≡ after a b r)
  take_first_allowed c s d a b r hs hd hf [] e = λ h. ground arith
  take_first_allowed c s d a b r hs hd hf (t ∷ ts) e = elim (Bool-cases t.requires_human) [
    | inl human ↦ rw human (λ h. ground arith)
    | inr free ↦ rw free (λ h.
        let w = with_runtime-after t d a b r h in
        (
          record {
            source = s;
            target = d;
            move = t;
            others = ts;
            source_found = hs;
            target_found = hd;
            not_final = hf;
            first = e;
            no_human = free;
            not_exhausted = w.0;
            rules_hold = w.1;
            condition_holds = w.2;
          },
          w.3,
        ))
  ]

  between_allowed :
      (c : StateMachineConfig) (a b : String) (r : RuntimeState) (s d : Option StateDefinition)
      → get c.states a ≡ s
      → get c.states b ≡ d
      → (between condition rules c s d a b r).0 ≡ allowed
      → IsAllowed condition rules c a b r × ((between condition rules c s d a b r).1 ≡ after a b r)
  between_allowed c a b r none d hs hd = λ h. ground arith
  between_allowed c a b r (some s) none hs hd = λ h. ground arith
  between_allowed c a b r (some s) (some d) hs hd = elim (Bool-cases (is_terminal s.state_type)) [
    | inl e ↦ rw e (λ h. ground arith)
    | inr e ↦ rw e (
        take_first_allowed c s d a b r hs hd e (matching b (outgoing (build_transition_map c) a))
          (sym (ap (λ ts. matching b ts) (outgoing-build c a) ∙ matching-select a b c.transitions)))
  ]

  -- A transition that is allowed, with a runtime, goes from a state that is there and not terminal to
  -- a state that is there; the first transition between the two needs no person; the rules of the
  -- source hold, where rules are given, and so does the condition of that transition, where it names
  -- one; for a transition of a state to itself the bound on re-entries is not reached; and the call
  -- adds one re-entry to the runtime exactly for such a transition, and changes nothing else of it.
  pub can_transition_allowed :
      (c : StateMachineConfig) (a b : String) (r : RuntimeState)
      → (can_transition condition rules c a b r).0 ≡ allowed
      → IsAllowed condition rules c a b r
        × ((can_transition condition rules c a b r).1 ≡ after a b r)
  unfolding can_transition
  can_transition_allowed c a b r =
      between_allowed c a b r (get c.states a) (get c.states b) refl refl

  -- The runtime after a number of attempts at one transition.
  unfoldable pub attempts : ℕ → StateMachineConfig → String → String → RuntimeState → RuntimeState
  attempts zero c a b r = r
  attempts (suc n) c a b r = attempts n c a b (can_transition condition rules c a b r).1

  ask_condition_count :
      (v : Evaluated) (s : String) (r : RuntimeState)
      → (ask_condition condition rules v s s r).1.reentry_count ≤ r.reentry_count + 1
  ask_condition_count holds s r = rw (eq_refl s) (omega arith)
  ask_condition_count fails s r = omega arith
  ask_condition_count raises s r = omega arith

  ask_ltl_count :
      (v : Evaluated) (o : Option String) (s : String) (r : RuntimeState)
      → (ask_ltl condition rules v o s s r).1.reentry_count ≤ r.reentry_count + 1
  ask_ltl_count holds o s r = elim (Bool-cases (is_nonempty o)) [
    | inl e ↦ rw e (ask_condition_count (condition o r) s r)
    | inr e ↦ rw e (ask_condition_count holds s r)
  ]
  ask_ltl_count fails o s r = omega arith
  ask_ltl_count raises o s r = omega arith

  -- A self-loop that may be taken `m` times: the bound on the count after one attempt.
  take_first_count :
      (ts : List TransitionDefinition) (d : StateDefinition) (s : String) (r : RuntimeState) (m : ℕ)
      → d.max_reentries ≡ some m
      → (take_first condition rules ts d s s r).1.reentry_count ≤ max m r.reentry_count
  take_first_count [] d s r m h = omega arith
  take_first_count (t ∷ ts) d s r m h = elim (Bool-cases t.requires_human) [
    | inl e ↦ rw e (omega arith)
    | inr e ↦ elim (Bool-cases (leb m r.reentry_count)) [
      | inl full ↦ rw (e, eq_refl s, h, full) (omega arith)
      | inr free ↦
          rw (e, eq_refl s, h, free)
            (ground (arith, ask_ltl_count (ltl_of condition rules s r) t.condition s r))
    ]
  ]

  between_count :
      (c : StateMachineConfig) (s : Option StateDefinition) (d : StateDefinition) (a : String)
      (r : RuntimeState) (m : ℕ)
      → d.max_reentries ≡ some m
      → (between condition rules c s (some d) a a r).1.reentry_count ≤ max m r.reentry_count
  between_count c none d a r m h = omega arith
  between_count c (some s) d a r m h = elim (Bool-cases (is_terminal s.state_type)) [
    | inl e ↦ rw e (omega arith)
    | inr e ↦ rw e (take_first_count _ d a r m h)
  ]

  attempt_count :
      (c : StateMachineConfig) (s : String) (d : StateDefinition) (m : ℕ) (r : RuntimeState)
      → get c.states s ≡ some d
      → d.max_reentries ≡ some m
      → (can_transition condition rules c s s r).1.reentry_count ≤ max m r.reentry_count
  unfolding can_transition
  attempt_count c s d m r h h' =
      rw (ap (λ o. between condition rules c (get c.states s) o s s r) h)
        (between_count c (get c.states s) d s r m h')

  -- However often a transition of a state to itself is attempted, the count of re-entries stays within
  -- the bound of the state, or where it was if it was past the bound at the start.
  pub attempts_bounded :
      (n : ℕ) (c : StateMachineConfig) (s : String) (d : StateDefinition) (m : ℕ) (r : RuntimeState)
      → get c.states s ≡ some d
      → d.max_reentries ≡ some m
      → (attempts n c s s r).reentry_count ≤ max m r.reentry_count
  unfolding attempts
  attempts_bounded zero c s d m r h h' = omega arith
  attempts_bounded (suc n) c s d m r h h' =
      let step = attempt_count c s d m r h h' in
      let rest = attempts_bounded n c s d m (can_transition condition rules c s s r).1 h h' in
      omega (arith, step, rest)
