-- ===== src/Scheduler/Examples.antt =====
-- A graph of four tasks, a cycle, and what may start.
use aegis_forge.Prelude.{
  ◌+◌, ◌≤◌, String, ◌≡◌, ◌≢◌, refl, true, false, some, List, [], ◌∷◌, Memᴰ, one_of,
}
use aegis_forge.Prelude.Result.{ok, err}
use aegis_forge.Prelude.Table.{select, has_key}
use aegis_forge.Scheduler.Graph.{
  TaskNode, TaskGraph, dependency_cycle, out_of_fuel, invalid_node_id, self_dependency, check_node,
  is_name, all_names, has_duplicates, node_ids, has_unknown, check_nodes, dependencies_of, remove,
  visit_each, visit_node, visit, size, search_order, build, started_before_dependencies,
}
use aegis_forge.Scheduler.Plan
use aegis_forge.Scheduler.Build.{IsOrdered, build_ends}
use aegis_forge.Scheduler.Running.{running_now}
use aegis_forge.Scheduler.Bounds.{plan_bounds}
use aegis_forge.Scheduler.Judged.{IsJudged}
use aegis_forge.Scheduler.Verdicts.{plan_lem}

abbrev task : String → List String → TaskNode
task id deps = record {
  node_id = id;
  role = "analyst";
  dependencies = deps;
  max_attempts = 3;
  timeout_seconds = 300;
  resource_units = 2;
}

-- "report" is declared before what it needs.
abbrev tasks : List TaskNode
tasks =
    task "report" ("scan" ∷ "check" ∷ [])
    ∷ task "scan" ("fetch" ∷ [])
    ∷ task "check" ("fetch" ∷ [])
    ∷ task "fetch" []
    ∷ []

abbrev graph : TaskGraph
graph = record {
  nodes = tasks;
  max_parallelism = 4;
  max_resource_units = 3;
  order = "fetch" ∷ "scan" ∷ "check" ∷ "report" ∷ [];
}

built : build tasks 4 3 ≡ ok graph
unfolding build node_ids has_duplicates check_nodes has_unknown search_order visit visit_each
    visit_node size select has_key dependencies_of remove one_of
built = refl

cyclic : build (task "a" ("b" ∷ []) ∷ task "b" ("a" ∷ []) ∷ []) 4 4 ≡ err dependency_cycle
unfolding build node_ids has_duplicates check_nodes has_unknown search_order visit visit_each
    visit_node size select has_key dependencies_of remove one_of
cyclic = refl

unnamed : check_node (task "a b" []) ≡ err invalid_node_id
unfolding check_node is_name
unnamed = refl

selfish : check_node (task "a" ("a" ∷ [])) ≡ err self_dependency
unfolding check_node is_name all_names has_duplicates one_of
selfish = refl

abbrev given : List Plan.Given
given = record { node_id = "fetch"; status = "SUCCEEDED" } ∷ []

-- Of the two tasks whose needs are met, one fits the budget of three units.
abbrev the_plan : Plan.SchedulePlan
the_plan = record {
  ready = "scan" ∷ [];
  blocked = [];
  waiting = "check" ∷ "report" ∷ [];
  running_count = 0;
  running_resource_units = 0;
}

planned : Plan.plan graph given ≡ ok the_plan
unfolding Plan.plan Plan.has_unknown_id has_key Plan.normalize Plan.given_status select
    Plan.status_of Plan.of_value Plan.check_started Plan.started Plan.is_running Plan.is_succeeded
    Plan.all_succeeded Plan.length Plan.running_tasks Plan.total_units node_ids Plan.consider_all
    Plan.consider_id one_of Plan.admit Plan.any_failure Plan.any_in Plan.block Plan.consider
    Plan.fits Plan.is_failure Plan.is_pending Plan.normalized Plan.status_or_pending Plan.wait
planned = refl

build_ends_example :
    (build tasks 4 3 ≢ err out_of_fuel) × ((g : TaskGraph) → build tasks 4 3 ≡ ok g → IsOrdered g)
build_ends_example = build_ends tasks 4 3

plan_bounds_example :
    (chosen : List TaskNode) × (the_plan.ready ≡ node_ids chosen)
    × ((n : TaskNode) → Memᴰ n chosen → Memᴰ n tasks)
    × (Plan.length (running_now given tasks) + Plan.length chosen ≤ 4)
    × (Plan.total_units (running_now given tasks) + Plan.total_units chosen ≤ 3)
    × (the_plan.running_count ≡ Plan.length (running_now given tasks))
    × (the_plan.running_resource_units ≡ Plan.total_units (running_now given tasks))
plan_bounds_example = plan_bounds graph given the_plan planned

plan_lem_example :
    (es : List Plan.Entry) × (Plan.normalize given tasks ≡ ok es)
    × ((x : String) (e : Plan.Entry)
        → select Plan.entry_id x es ≡ some e
        → IsJudged es e the_plan.ready the_plan.blocked the_plan.waiting)
plan_lem_example = plan_lem tasks 4 3 graph given the_plan built planned

-- A failure blocks all that needs it, at once.
abbrev failed_scan : List Plan.Given
failed_scan =
    record { node_id = "fetch"; status = "SUCCEEDED" }
    ∷ record { node_id = "scan"; status = "FAILED" }
    ∷ []

abbrev plan_after_failure : Plan.SchedulePlan
plan_after_failure = record {
  ready = "check" ∷ [];
  blocked = "report" ∷ [];
  waiting = [];
  running_count = 0;
  running_resource_units = 0;
}

after_failure : Plan.plan graph failed_scan ≡ ok plan_after_failure
unfolding Plan.plan Plan.has_unknown_id has_key Plan.normalize Plan.given_status select
    Plan.status_of Plan.of_value Plan.check_started Plan.started Plan.is_running Plan.is_succeeded
    Plan.all_succeeded Plan.length Plan.running_tasks Plan.total_units node_ids Plan.consider_all
    Plan.consider_id one_of Plan.admit Plan.any_failure Plan.any_in Plan.block Plan.consider
    Plan.fits Plan.is_failure Plan.is_pending Plan.normalized Plan.status_or_pending Plan.wait
after_failure = refl

too_early :
    Plan.plan graph (record { node_id = "scan"; status = "RUNNING" } ∷ [])
    ≡ err (started_before_dependencies "scan")
unfolding Plan.plan Plan.has_unknown_id has_key Plan.normalize Plan.given_status select
    Plan.status_of Plan.of_value Plan.check_started Plan.started Plan.is_running Plan.is_succeeded
    Plan.all_succeeded Plan.length Plan.running_tasks Plan.total_units node_ids Plan.consider_all
    Plan.consider_id one_of Plan.admit Plan.any_failure Plan.any_in Plan.block Plan.consider
    Plan.fits Plan.is_failure Plan.is_pending Plan.normalized Plan.status_or_pending Plan.wait
too_early = refl

retries : Plan.retry_allowed graph "scan" 2 "TIMED_OUT" ≡ ok true
unfolding Plan.retry_allowed Plan.may_retry select Plan.status_of Plan.of_value Plan.is_retryable
retries = refl

no_more_retries : Plan.retry_allowed graph "scan" 3 "TIMED_OUT" ≡ ok false
unfolding Plan.retry_allowed Plan.may_retry select Plan.status_of Plan.of_value Plan.is_retryable
no_more_retries = refl
