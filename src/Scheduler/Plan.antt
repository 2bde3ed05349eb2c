-- ===== src/Scheduler/Plan.antt =====
-- orchestrator/task_graph.py: `plan` and `retry_allowed`. A status is given as its text; `None` is
-- the empty mapping.
use aegis_forge.Prelude.{
  ℕ, suc, ◌+◌, ◌-◌, String, Bool, true, false, not, ◌&&◌, ◌||◌, Option, none, some, List, [], ◌∷◌,
  ◌++◌, ◌==◌, ltb, leb, one_of, if◌then◌else◌,
}
use aegis_forge.Prelude.Result.{Result, ok, err}
use aegis_forge.Prelude.Checks.{◌>>=◌, ◌>>◌, raise_if, require}
use aegis_forge.Prelude.Table.{select, has_key}
use aegis_forge.Scheduler.Graph.{
  GraphError, unknown_task_ids, unknown_execution_status, started_before_dependencies,
  exceeds_max_parallelism, exceeds_max_resource_units, attempts_used_required, TaskNode, TaskGraph,
  node_ids,
}

pub data ExecutionStatus : Type 0 where
  pending running succeeded failed timed_out incomplete blocked : ExecutionStatus

-- `ExecutionStatus(text)`; `none` where it raises `ValueError`.
unfoldable pub of_value : String → Option ExecutionStatus
of_value s =
    if s == "PENDING"
    then some pending
    else if s == "RUNNING"
    then some running
    else if s == "SUCCEEDED"
    then some succeeded
    else if s == "FAILED"
    then some failed
    else if s == "TIMED_OUT"
    then some timed_out
    else if s == "INCOMPLETE"
    then some incomplete
    else if s == "BLOCKED"
    then some blocked
    else none

unfoldable pub is_pending : ExecutionStatus → Bool
is_pending pending = true
is_pending _ = false

unfoldable pub is_running : ExecutionStatus → Bool
is_running running = true
is_running _ = false

unfoldable pub is_succeeded : ExecutionStatus → Bool
is_succeeded succeeded = true
is_succeeded _ = false

-- `status in _TERMINAL_FAILURES`
unfoldable pub is_failure : ExecutionStatus → Bool
is_failure failed = true
is_failure timed_out = true
is_failure incomplete = true
is_failure blocked = true
is_failure _ = false

-- `status in {FAILED, TIMED_OUT, INCOMPLETE}`
unfoldable pub is_retryable : ExecutionStatus → Bool
is_retryable failed = true
is_retryable timed_out = true
is_retryable incomplete = true
is_retryable _ = false

-- An item of the mapping that `plan` is given, and of the one it normalizes.
pub record Given : Type 0 where
  pub node_id : String
  pub status : String

pub record Entry : Type 0 where
  pub node : TaskNode
  pub status : ExecutionStatus

abbrev pub entry_id : Entry → String
entry_id e = e.node.node_id

-- `_status`
unfoldable pub status_of : String → Result GraphError ExecutionStatus
status_of text = require (of_value text) unknown_execution_status

-- `statuses.get(node_id, PENDING)`, read as a status.
unfoldable pub given_status : Option Given → Result GraphError ExecutionStatus
given_status none = ok pending
given_status (some g) = status_of g.status

-- `set(statuses) - self._nodes.keys()` is not empty.
unfoldable pub has_unknown_id : List Given → List TaskNode → Bool
has_unknown_id [] nodes = false
has_unknown_id (g ∷ gs) nodes =
    not (has_key TaskNode.node_id g.node_id nodes) || has_unknown_id gs nodes

unfoldable pub normalize : List Given → List TaskNode → Result GraphError (List Entry)
normalize given [] = ok []
normalize given (n ∷ ns) = do
  s ← given_status (select Given.node_id n.node_id given)
  rest ← normalize given ns
  ok (record { node = n; status = s } ∷ rest)

unfoldable pub status_or_pending : Option Entry → ExecutionStatus
status_or_pending none = pending
status_or_pending (some e) = e.status

-- `normalized[node_id]`, for the id of a node
unfoldable pub normalized : List Entry → String → ExecutionStatus
normalized es id = status_or_pending (select entry_id id es)

-- `all(state is SUCCEEDED ...)`, over the dependencies
unfoldable pub all_succeeded : List Entry → List String → Bool
all_succeeded es [] = true
all_succeeded es (d ∷ ds) = is_succeeded (normalized es d) && all_succeeded es ds

unfoldable pub any_failure : List Entry → List String → Bool
any_failure es [] = false
any_failure es (d ∷ ds) = is_failure (normalized es d) || any_failure es ds

-- `any(dep in blocked_set ...)`
unfoldable pub any_in : List String → List String → Bool
any_in [] set = false
any_in (d ∷ ds) set = one_of d set || any_in ds set

unfoldable pub started : ExecutionStatus → Bool
started s = is_running s || is_succeeded s

-- The loop that refuses a task that started before its dependencies.
unfoldable pub check_started : List Entry → List Entry → Result GraphError (Unit {0})
check_started es [] = ok tt
check_started es (e ∷ rest) =
    let others = check_started es rest in
    if started e.status && not (all_succeeded es e.node.dependencies)
    then err (started_before_dependencies e.node.node_id)
    else others

unfoldable pub running_tasks : List Entry → List TaskNode
running_tasks [] = []
running_tasks (e ∷ es) =
    let rest = running_tasks es in if is_running e.status then e.node ∷ rest else rest

unfoldable pub length : List TaskNode → ℕ
length [] = 0
length (n ∷ ns) = suc (length ns)

-- `sum(node.resource_units for node in ...)`
unfoldable pub total_units : List TaskNode → ℕ
total_units [] = 0
total_units (n ∷ ns) = n.resource_units + total_units ns

-- What the loop over the order has so far; `blocked` is the source's `blocked_set` too. A task that
-- is ready is kept as its node.
pub record Slate : Type 0 where
  pub ready : List TaskNode
  pub blocked : List String
  pub waiting : List String
  pub free_slots : ℕ
  pub free_resources : ℕ

-- `free_slots > 0 and node.resource_units <= free_resources`
unfoldable pub fits : TaskNode → Slate → Bool
fits n s = ltb 0 s.free_slots && leb n.resource_units s.free_resources

unfoldable pub admit : TaskNode → Slate → Slate
admit n s = record s {
  ready = s.ready ++ n ∷ [];
  free_slots = s.free_slots - 1;
  free_resources = s.free_resources - n.resource_units;
}

unfoldable pub block : TaskNode → Slate → Slate
block n s = record s { blocked = s.blocked ++ n.node_id ∷ [] }

unfoldable pub wait : TaskNode → Slate → Slate
wait n s = record s { waiting = s.waiting ++ n.node_id ∷ [] }

-- The body of the loop.
unfoldable pub consider : List Entry → Entry → Slate → Slate
consider es e s =
    if not (is_pending e.status)
    then s
    else if any_failure es e.node.dependencies || any_in e.node.dependencies s.blocked
    then block e.node s
    else if not (all_succeeded es e.node.dependencies)
    then wait e.node s
    else if fits e.node s
    then admit e.node s
    else wait e.node s

unfoldable pub consider_id : List Entry → Option Entry → Slate → Slate
consider_id es none s = s
consider_id es (some e) s = consider es e s

unfoldable pub consider_all : List Entry → List String → Slate → Slate
consider_all es [] s = s
consider_all es (id ∷ ids) s = consider_all es ids (consider_id es (select entry_id id es) s)

pub record SchedulePlan : Type 0 where
  pub ready : List String
  pub blocked : List String
  pub waiting : List String
  pub running_count : ℕ
  pub running_resource_units : ℕ

abbrev pub blank_slate : ℕ → ℕ → Slate
blank_slate slots units = record {
  ready = [];
  blocked = [];
  waiting = [];
  free_slots = slots;
  free_resources = units;
}

abbrev pub plan_of : Slate → List TaskNode → SchedulePlan
plan_of s working = record {
  ready = node_ids s.ready;
  blocked = s.blocked;
  waiting = s.waiting;
  running_count = length working;
  running_resource_units = total_units working;
}

unfoldable pub plan : TaskGraph → List Given → Result GraphError SchedulePlan
plan g given = do
  raise_if (has_unknown_id given g.nodes) unknown_task_ids
  es ← normalize given g.nodes
  check_started es es
  let working = running_tasks es
  raise_if (ltb g.max_parallelism (length working)) exceeds_max_parallelism
  raise_if (ltb g.max_resource_units (total_units working)) exceeds_max_resource_units
  ok (
      plan_of
        (consider_all es g.order (
          blank_slate (g.max_parallelism - length working)
            (g.max_resource_units - total_units working)))
        working)

unfoldable pub may_retry : Option TaskNode → ℕ → String → Result GraphError Bool
may_retry none used text = err unknown_task_ids
may_retry (some n) used text = do
  raise_if (ltb used 1) attempts_used_required
  s ← status_of text
  ok (is_retryable s && ltb used n.max_attempts)

unfoldable pub retry_allowed : TaskGraph → String → ℕ → String → Result GraphError Bool
retry_allowed g id used text = may_retry (select TaskNode.node_id id g.nodes) used text
