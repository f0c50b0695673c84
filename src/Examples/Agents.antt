-- ===== src/Examples/Agents.antt =====
-- A registry with two workers, and the theorems on engine/agent_runtime/ applied to it.
use prodinamik_engine.Prelude.{
  ℕ, ◌≤◌, ◌≡◌, refl, String, true, false, none, some, List, [], ◌∷◌, arith, length,
}
use prodinamik_engine.Dict
use prodinamik_engine.Dict.{Dict}
use prodinamik_engine.Tasks.Data.{TaskStatus, Task}
use prodinamik_engine.Tasks.Queue.{empty, enqueue}
use prodinamik_engine.Agents.Registry.{
  NodeInfo, AgentRegistry, Registration, Beat, new_registry, new_info, beaten, register_node,
  heartbeat,
}
use prodinamik_engine.Agents.Registry.Queries.{
  CapabilityQuery, find_by_capability, find_best_node, query_of,
}
use prodinamik_engine.Agents.Registry.Index.{Call, run, run_all, IsIndex, registries-IsIndex}
use prodinamik_engine.Agents.Registry.Sort.{In, IsSorted}
use prodinamik_engine.Agents.Registry.Find.{IsCandidate, find_by_capability_lem}
use prodinamik_engine.Agents.Registry.Best.{IsBest, find_best_node_lem}
use prodinamik_engine.Agents.Scheduler.{Scheduler, schedule, try_assign}
use prodinamik_engine.Agents.Scheduler.Laws.{Scheduled, AllFitOr, schedule_lem, try_assign_lem}
use prodinamik_engine.Agents.Coordinator.{
  CoordinatorConfig, Submission, Introduction, watch_timeouts,
}
use prodinamik_engine.Agents.Coordinator.Safe.{Event, deliver_all, IsSafe}
use prodinamik_engine.Agents.Coordinator.Running.{
  new_coordinator, IsHealthy, coordinators-IsSafe, timeouts_never_fire,
}
use prodinamik_engine.Agents.Spending.{
  BudgetThreshold, CostEntry, BudgetController, new_controller, charge, exhausted,
}
use prodinamik_engine.Agents.Spending.Accounts.{
  IsAccounted, call_all, spend_all, accounts_agree, over_limit_stays_paused,
}
use prodinamik_engine.Agents.Spending.Accounts

abbrev worker : Registration
worker = record {
  hostname = "host";
  version = "1";
  capabilities = some ("gpu" ∷ "cpu" ∷ []);
  skills = none;
  labels = none;
  max_workers = 2;
}

abbrev alive : Beat
alive = record { active_workers = some 1; worker_slots_available = some 1 }

abbrev idle : Beat
idle = record { active_workers = some 0; worker_slots_available = some 2 }

abbrev workers : List Call
workers =
    Call.register "a" worker
    ∷ Call.register "b" worker
    ∷ Call.beat 5 "a" alive
    ∷ Call.beat 5 "b" idle
    ∷ []

abbrev pool : AgentRegistry
pool = run_all (new_registry 30) workers

registries-IsIndex_example : IsIndex pool
registries-IsIndex_example = registries-IsIndex 30 workers

abbrev node_a : NodeInfo
node_a = beaten 5 alive (new_info "a" worker)

a-IsCandidate : IsCandidate 9 pool "gpu" "a"
unfolding run_all run register_node heartbeat Dict.get Dict.put
a-IsCandidate = record { node = node_a; registered = refl; fit = refl; capable = refl }

find_by_capability_lem_example :
    ((q : CapabilityQuery)
      → In q (find_by_capability 9 pool "gpu")
      → (c : IsCandidate 9 pool "gpu" q.node_id) × (q ≡ query_of c.node))
    × ((id : String) (c : IsCandidate 9 pool "gpu" id)
        → In (query_of c.node) (find_by_capability 9 pool "gpu"))
    × IsSorted (find_by_capability 9 pool "gpu")
find_by_capability_lem_example = find_by_capability_lem 30 9 workers "gpu"

find_best_node_lem_example :
    (best : String) × (find_best_node 9 pool "" "gpu" ≡ some best) × IsBest 9 pool "gpu" best
find_best_node_lem_example = find_best_node_lem 30 9 workers "" "gpu" "a" refl a-IsCandidate

abbrev build : Task
build = record {
  task_id = "t1";
  goal = "build";
  priority = 5;
  affinity = "a";
  context = "{}";
  tools = "gpu" ∷ [];
  max_steps = 50;
  status = TaskStatus.queued;
  assigned_node = "";
  created_at = 0;
  assigned_at = none;
  completed_at = none;
  result = "";
  error = none;
  parent_task = "";
  subtasks = [];
  max_retries = 3;
  retry_count = 0;
}

abbrev waiting : Scheduler
waiting = record {
  registry = pool;
  queue = (enqueue "" 1 build empty).1;
  assignments = [];
  total_scheduled = 0;
  total_failed_assign = 0;
}

schedule_lem_example : Scheduled 9 build waiting (schedule 9 build waiting)
schedule_lem_example = schedule_lem 9 build waiting (registries-IsIndex 30 workers) refl

try_assign_lem_example :
    ((try_assign 9 waiting).1.registry ≡ waiting.registry)
    × ((try_assign 9 waiting).0 ≤ 50)
    × ((try_assign 9 waiting).0 ≤ length waiting.queue.queued_ids)
    × AllFitOr 9 waiting (try_assign 9 waiting).1
try_assign_lem_example = try_assign_lem 9 waiting (registries-IsIndex 30 workers)

abbrev config : CoordinatorConfig
config = record {
  heartbeat_ttl = 30;
  max_task_retries = 3;
  task_timeout = 300;
  escalation_threshold = 3;
  auto_reassign = true;
}

abbrev work : Submission
work = record {
  goal = "build";
  priority = 5;
  affinity = "";
  context = "{}";
  tools = [];
  max_steps = 50;
  parent_task = "";
}

abbrev joins : Introduction
joins = record { hostname = "host"; capabilities = "gpu" ∷ []; max_workers = 2 }

abbrev day : List Event
day =
    Event.beat 5 "a" alive joins
    ∷ Event.submit "t1" 6 work
    ∷ Event.poll 7 "a" 1
    ∷ Event.report 900 "t1" false "" "no"
    ∷ Event.watch 901 (λ n. "late")
    ∷ Event.clean 999
    ∷ []

coordinators-IsSafe_example : IsSafe IsHealthy (deliver_all (new_coordinator config) day)
coordinators-IsSafe_example = coordinators-IsSafe config day

timeouts_never_fire_example :
    watch_timeouts 5000 (λ n. "late") (deliver_all (new_coordinator config) day)
    ≡ deliver_all (new_coordinator config) day
timeouts_never_fire_example = timeouts_never_fire config day 5000 (λ n. "late")

abbrev limits : BudgetThreshold
limits = record {
  hourly_usd = 100;
  daily_usd = 500;
  weekly_usd = 2000;
  monthly_usd = 5000;
  per_task_usd = 20;
  soft_num = 4;
  soft_den = 5;
}

abbrev cost : String → ℕ → CostEntry
cost id n = record { task_id = id; cost = n; llm_call = true; tool_call = false; timestamp = 10 }

accounts_agree_example : IsAccounted (
    call_all
      (Accounts.Call.spend (cost "t1" 7) 10
        ∷ Accounts.Call.start_over
        ∷ Accounts.Call.spend (cost "t2" 5) 11
        ∷ [])
      (new_controller limits))
accounts_agree_example = accounts_agree limits (
    Accounts.Call.spend (cost "t1" 7) 10
    ∷ Accounts.Call.start_over
    ∷ Accounts.Call.spend (cost "t2" 5) 11
    ∷ [])

abbrev overspent : BudgetController
overspent = charge (cost "t1" 25) (new_controller limits)

over_limit_stays_paused_example :
    ((spend_all ((cost "t2" 1, 9000000) ∷ []) overspent).level ≡ exhausted)
    × ((spend_all ((cost "t2" 1, 9000000) ∷ []) overspent).paused ≡ true)
unfolding charge Dict.put Dict.get
over_limit_stays_paused_example =
    over_limit_stays_paused (cost "t2" 1, 9000000) [] overspent (omega arith)
