-- ===== src/Examples/Stores.antt =====
-- The theorems on engine/event_store.py and engine/run_manager.py applied to small inputs.
use prodinamik_engine.Prelude.{
  arith, ℕ, ◌≡◌, refl, String, true, length, Option, none, some, List, [], ◌∷◌,
}
use prodinamik_engine.Dict
use prodinamik_engine.Dict.{Dict}
use prodinamik_engine.Events.{
  EventType, Event, known, unknown, flag, raised, value_error, append_loop, should_purge,
  retention_days, default_policy, new_store, append_many,
}
use prodinamik_engine.NatDict
use prodinamik_engine.Events.Retention.{purge, purge_loop}
use prodinamik_engine.Events.Log.{
  Call, append_event, append_events, reopen, all_events, purge_events, compact_events, answers,
  log_answers, empty_log,
}
use prodinamik_engine.Events.Log.Append.{append_each, append_many_lem}
use prodinamik_engine.Events.Refines.{answers_lem}
use prodinamik_engine.StateMachine.Types.{StateType, StateDefinition, RuntimeState}
use prodinamik_engine.StateMachine.Transition.{Evaluated, holds}
use prodinamik_engine.Runs.{
  insert_file, RunMeta, ProductProfile, new_manager, new_meta, create_run, move_run, active,
  append_wal, update_snapshot,
}
use prodinamik_engine.Runs.Transitions.{
  counted, next_version, update_state, log_transition, store_transition,
}
use prodinamik_engine.Runs.Replay.{recover}
use prodinamik_engine.Runs.Updates.{IsUpdate, update_state_lem}
use prodinamik_engine.Runs.Recovery.{view, IsMatched}
use prodinamik_engine.Runs.Recovery.Operations.{
  Operation, create_op, update_op, archive_op, reached,
}
use prodinamik_engine.Runs.Recovery.Durable.{
  recover_lem, crash_keeps_transition, crash_revives_archived,
}

abbrev happened : EventType → ℕ → Event
happened type t = record {
  sequence = 0;
  run_slug = "run";
  timestamp = t;
  is_iso = true;
  event_type = known type;
  validator = some "scan";
  passed = some (flag true);
  summary = none;
  cost_usd = 3;
}

abbrev two_events : List Event
two_events = happened EventType.validation_detail 1 ∷ happened EventType.error 2 ∷ []

append_many_lem_example :
    append_many two_events (new_store (default_policy 10))
    ≡ append_each two_events (new_store (default_policy 10))
append_many_lem_example = append_many_lem two_events (new_store (default_policy 10))

abbrev some_calls : List Call
some_calls =
    append_event (happened EventType.adapter_response 1)
    ∷ append_events two_events
    ∷ purge_events 100
    ∷ compact_events 500 "run"
    ∷ reopen (7 ∷ [])
    ∷ append_event (happened EventType.error 501)
    ∷ all_events
    ∷ []

answers_lem_example :
    answers some_calls (new_store (default_policy 10))
    ≡ log_answers (default_policy 10) some_calls empty_log
answers_lem_example =
    answers_lem (default_policy 10) some_calls (
      (refl, refl),
      (((refl, refl), ((refl, refl), tt)), (tt, (tt, (tt, ((refl, refl), (tt, tt)))))),
    )

abbrev spec : StateDefinition
spec = record {
  name = "spec";
  state_type = StateType.initial;
  max_reentries = none;
  timeout_seconds = none;
  temporal_on_timeout = none;
}

abbrev profile : ProductProfile
profile = record {
  name = "web";
  state_machine = some (record { states = ("spec", spec) ∷ []; transitions = []; ltl_rules = [] });
}

abbrev evaluate : Option String → RuntimeState → Evaluated
evaluate c r = holds

abbrev keep : RuntimeState → RuntimeState
keep r = r

abbrev started : List Operation
started = create_op 1 "Shop" profile "shop" ∷ []

abbrev worked : List Operation
worked =
    create_op 1 "Shop" profile "shop"
    ∷ update_op 2 "shop" "draft" none keep
    ∷ archive_op 3 "shop"
    ∷ create_op 4 "Shop" profile "shop"
    ∷ []

recover_lem_example :
    (view (Dict.get (recover (λ t. t) (reached evaluate none worked new_manager)).0 "shop")
      ≡ view (Dict.get (reached evaluate none worked new_manager).snapshot "shop"))
    × IsMatched
        (Dict.get (reached evaluate none worked new_manager).active_runs "shop")
        (view (Dict.get (recover (λ t. t) (reached evaluate none worked new_manager)).0 "shop"))
recover_lem_example =
    recover_lem evaluate none (λ t. t) worked "shop"
      (omega arith, (omega arith, (omega arith, (omega arith, tt)))) refl

abbrev shop : RunMeta
shop = new_meta 1 "Shop" "web" "shop" "spec"

started_shop :
    Dict.get (reached evaluate none started new_manager).active_runs "shop" ≡ some (some shop)
unfolding reached create_run append_wal insert_file update_snapshot Dict.get Dict.put
started_shop = refl

crash_keeps_transition_example :
    view (
      Dict.get
        (recover
          (λ t. t)
          (log_transition 5 "shop" "draft"
            (next_version (counted shop))
            (reached evaluate none started new_manager))).0
        "shop")
    ≡ view (
        Dict.get
          (store_transition 5 "shop" "draft"
            (next_version (counted shop))
            (reached evaluate none started new_manager)).1.snapshot
          "shop")
crash_keeps_transition_example =
    crash_keeps_transition evaluate none (λ t. t) started 5 "shop" "draft" shop (omega arith, tt)
      (omega arith) refl started_shop

crash_revives_archived_example :
    (view (
      Dict.get
        (recover
          (λ t. t)
          (move_run 5 "shop" (some shop) (reached evaluate none started new_manager))).0
        "shop")).status
    ≡ some active
crash_revives_archived_example =
    crash_revives_archived evaluate none (λ t. t) started 5 "shop" shop (omega arith, tt) refl
      started_shop

update_state_lem_example :
    IsUpdate evaluate none "shop" "draft" none keep (reached evaluate none started new_manager) (
      update_state evaluate none 5 "shop" "draft" none keep
        (reached evaluate none started new_manager))
update_state_lem_example =
    update_state_lem evaluate none 5 "shop" "draft" none keep
      (reached evaluate none started new_manager)

-- An event of no type: the purge deletes the file of the one before it, and stops.
abbrev typeless : List Event
typeless =
    happened EventType.adapter_response 1
    ∷ record (happened EventType.error 2) { event_type = unknown "other" }
    ∷ []

purge_raises_test :
    let (r, s) = purge 100 (append_many typeless (new_store (default_policy 10))).1 in
    (r ≡ raised value_error) × (length s.files ≡ 1) × (length s.index ≡ 2)
unfolding purge purge_loop should_purge append_many append_loop retention_days NatDict.get
    NatDict.put NatDict.remove NatDict.include
purge_raises_test = (refl, refl, refl)
