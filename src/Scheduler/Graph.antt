-- ===== src/Scheduler/Graph.antt =====
-- orchestrator/task_graph.py: `TaskNode` and `TaskGraph`, with the depth-first search that finds the
-- order of the tasks or a cycle. The ids of a graph are unique, so the dict of its nodes is their
-- list. The search runs on fuel, one unit for a nested call of `visit`.
use Prim.Native.Char.{code}
use aegis_forge.Prelude.{
  ℕ, zero, suc, String, Bool, true, false, not, ◌&&◌, ◌||◌, Option, none, some, List, [], ◌∷◌, ◌++◌,
  ◌==◌, ltb, leb, eqb, one_of, if◌then◌else◌,
}
use aegis_forge.Prelude.Result.{Result, ok, err}
use aegis_forge.Prelude.Checks.{◌>>=◌, ◌>>◌, raise_if}
use aegis_forge.Prelude.Table.{select, has_key}

pub data GraphError : Type 0 where
  invalid_node_id invalid_role invalid_dependency : GraphError
  duplicate_dependencies self_dependency : GraphError
  max_attempts_required timeout_required resource_units_required : GraphError
  nodes_required max_parallelism_required max_resource_units_required : GraphError
  duplicate_node_ids : GraphError
  unknown_dependencies exceeds_resource_budget : String → GraphError
  dependency_cycle : GraphError
  unknown_task_ids unknown_execution_status : GraphError
  started_before_dependencies : String → GraphError
  exceeds_max_parallelism exceeds_max_resource_units : GraphError
  attempts_used_required : GraphError
  -- the model's own
  out_of_fuel : GraphError

pub record TaskNode : Type 0 where
  pub node_id : String
  pub role : String
  pub dependencies : List String
  pub max_attempts : ℕ
  pub timeout_seconds : ℕ
  pub resource_units : ℕ

-- [a-zA-Z0-9]
is_alphanumeric : ℕ → Bool
is_alphanumeric c = (leb 97 c && leb c 122) || (leb 65 c && leb c 90) || (leb 48 c && leb c 57)

-- [a-zA-Z0-9_.:-]
is_name_char : ℕ → Bool
unfolding is_alphanumeric
is_name_char c = is_alphanumeric c || eqb c 95 || eqb c 46 || eqb c 58 || eqb c 45

-- [a-zA-Z0-9_.:-]{0,n}
is_name_tail : ℕ → String → Bool
unfolding is_name_char
is_name_tail n String.[] = true
is_name_tail zero (String.◌∷◌ c s) = false
is_name_tail (suc n) (String.◌∷◌ c s) = is_name_char (code c) && is_name_tail n s

-- _NAME.fullmatch, which no blank text passes
unfoldable pub is_name : String → Bool
unfolding is_name_tail is_alphanumeric
is_name String.[] = false
is_name (String.◌∷◌ c s) = is_alphanumeric (code c) && is_name_tail 127 s

unfoldable pub all_names : List String → Bool
all_names [] = true
all_names (x ∷ xs) = is_name x && all_names xs

unfoldable pub has_duplicates : List String → Bool
has_duplicates [] = false
has_duplicates (x ∷ xs) = one_of x xs || has_duplicates xs

-- `TaskNode.__post_init__`
unfoldable pub check_node : TaskNode → Result GraphError (Unit {0})
check_node n = do
  raise_if (not (is_name n.node_id)) invalid_node_id
  raise_if (not (is_name n.role)) invalid_role
  raise_if (not (all_names n.dependencies)) invalid_dependency
  raise_if (has_duplicates n.dependencies) duplicate_dependencies
  raise_if (one_of n.node_id n.dependencies) self_dependency
  raise_if (ltb n.max_attempts 1) max_attempts_required
  raise_if (ltb n.timeout_seconds 1) timeout_required
  raise_if (ltb n.resource_units 1) resource_units_required

unfoldable pub node_ids : List TaskNode → List String
node_ids [] = []
node_ids (n ∷ ns) = n.node_id ∷ node_ids ns

-- `set(dependencies) - by_id.keys()` is not empty.
unfoldable pub has_unknown : List String → List TaskNode → Bool
has_unknown [] nodes = false
has_unknown (d ∷ ds) nodes = not (has_key TaskNode.node_id d nodes) || has_unknown ds nodes

-- The loop over the nodes in `__init__`.
unfoldable pub check_nodes : List TaskNode → List TaskNode → ℕ → Result GraphError (Unit {0})
check_nodes [] nodes budget = ok tt
check_nodes (n ∷ ns) nodes budget =
    let rest = check_nodes ns nodes budget in
    if has_unknown n.dependencies nodes
    then err (unknown_dependencies n.node_id)
    else if ltb budget n.resource_units
    then err (exceeds_resource_budget n.node_id)
    else rest

-- The three collections of `_validate_acyclic`.
pub record Search : Type 0 where
  pub visiting : List String
  pub visited : List String
  pub order : List String

unfoldable pub dependencies_of : Option TaskNode → List String
dependencies_of none = []
dependencies_of (some n) = n.dependencies

-- `set.remove`
unfoldable pub remove : String → List String → List String
remove x [] = []
remove x (y ∷ ys) = let rest = remove x ys in if y == x then rest else y ∷ rest

-- The state before the dependencies of a node, and after them.
abbrev pub enter : String → Search → Search
enter id s = record s { visiting = id ∷ s.visiting }

abbrev pub leave : String → Search → Search
leave id s = record {
  visiting = remove id s.visiting;
  visited = id ∷ s.visited;
  order = s.order ++ id ∷ [];
}

-- `for x in xs: visit(x)`
unfoldable pub visit_each :
    (String → Search → Result GraphError Search) → List String → Search → Result GraphError Search
visit_each f [] s = ok s
visit_each f (x ∷ xs) s = do s' ← f x s; visit_each f xs s'

-- The dependencies, and then the node itself.
unfoldable pub visit_node :
    List TaskNode
    → (String → Search → Result GraphError Search)
    → String
    → Search
    → Result GraphError Search
visit_node nodes f id s = do
  s' ← visit_each f (dependencies_of (select TaskNode.node_id id nodes)) (enter id s)
  ok (leave id s')

unfoldable pub visit : List TaskNode → ℕ → String → Search → Result GraphError Search
visit nodes zero id s = err out_of_fuel
visit nodes (suc fuel) id s =
    let deeper = visit_node nodes (visit nodes fuel) id s in
    if one_of id s.visiting
    then err dependency_cycle
    else if one_of id s.visited
    then ok s
    else deeper

unfoldable pub size : List TaskNode → ℕ
size [] = 0
size (n ∷ ns) = suc (size ns)

abbrev pub no_search : Search
no_search = record { visiting = []; visited = []; order = [] }

unfoldable pub search_order : List TaskNode → Result GraphError Search
search_order nodes = visit_each (visit nodes (suc (size nodes))) (node_ids nodes) no_search

pub record TaskGraph : Type 0 where
  pub nodes : List TaskNode
  pub max_parallelism : ℕ
  pub max_resource_units : ℕ
  pub order : List String

is_nil : List TaskNode → Bool
is_nil [] = true
is_nil (n ∷ ns) = false

-- `TaskGraph.__init__`, on nodes that were checked when they were made.
unfoldable pub build : List TaskNode → ℕ → ℕ → Result GraphError TaskGraph
unfolding is_nil
build nodes parallelism units = do
  raise_if (is_nil nodes) nodes_required
  raise_if (ltb parallelism 1) max_parallelism_required
  raise_if (ltb units 1) max_resource_units_required
  raise_if (has_duplicates (node_ids nodes)) duplicate_node_ids
  check_nodes nodes nodes units
  s ← search_order nodes
  ok (record {
    nodes = nodes;
    max_parallelism = parallelism;
    max_resource_units = units;
    order = s.order;
  })
