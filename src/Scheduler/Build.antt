-- ===== src/Scheduler/Build.antt =====
-- What `TaskGraph.__init__` gives back.
use aegis_forge.Prelude.{
  ℕ, String, ◌≡◌, ◌≢◌, refl, sym, ap, ◌∙◌, subst, inl, inr, Bool, true, false, List, [], ◌∷◌, arith,
  one_of, ltb, Bool-cases,
}
use aegis_forge.Prelude.Result.{ok_injective, err_injective, Result, ok, err}
use aegis_forge.Prelude.Checks.{◌>>=◌, ◌>>◌, raise_if}
use aegis_forge.Prelude.Table.{has_key}
use aegis_forge.Scheduler.Graph.{
  GraphError, dependency_cycle, out_of_fuel, nodes_required, max_parallelism_required,
  max_resource_units_required, duplicate_node_ids, TaskNode, node_ids, check_nodes, Search,
  search_order, has_duplicates, TaskGraph, build, no_search,
}
use aegis_forge.Scheduler.Search.{search_Settles, closed_needs, node_ids-has_key}
use aegis_forge.Scheduler.Order.{IsPlaced, IsSound, After, Settles}

-- The order of a graph: every task once, and after its dependencies.
pub record IsOrdered (g : TaskGraph) : Type 0 where
  pub complete : (x : String) → one_of x g.order ≡ has_key TaskNode.node_id x g.nodes
  pub once : has_duplicates g.order ≡ false
  pub placed : IsPlaced g.nodes [] g.order

abbrev graph_of : List TaskNode → ℕ → ℕ → Search → TaskGraph
graph_of nodes p u s = record {
  nodes = nodes;
  max_parallelism = p;
  max_resource_units = u;
  order = s.order;
}

searched :
    (nodes : List TaskNode) (p u : ℕ) (s : Search)
    → After nodes (node_ids nodes) no_search s
    → IsOrdered (graph_of nodes p u s)
searched nodes p u s a = record {
  complete = λ x. elim (Bool-cases (has_key TaskNode.node_id x nodes)) [
    | inl e ↦ sym (IsSound.same a.sound x) ∙ a.reached x (node_ids-has_key x nodes ∙ e) ∙ sym e
    | inr e ↦ elim (Bool-cases (one_of x s.order)) [
      | inl m ↦ absurd (ground (arith, e, IsSound.known a.sound x m))
      | inr m ↦ m ∙ sym e
    ]
  ];
  once = IsSound.once a.sound;
  placed = IsSound.placed a.sound;
}

check_nodes-fuel : (ns nodes : List TaskNode) (u : ℕ) → check_nodes ns nodes u ≢ err out_of_fuel
unfolding check_nodes
check_nodes-fuel [] nodes u h = absurd (cc)
check_nodes-fuel (n ∷ ns) nodes u h = ground (arith, check_nodes-fuel ns nodes u, h)

-- What the construction says of its result.
abbrev Told : Result GraphError TaskGraph → Type 0
Told r = (r ≢ err out_of_fuel) × ((g : TaskGraph) → r ≡ ok g → IsOrdered g)

Told-err : (e : GraphError) → e ≢ out_of_fuel → Told (err e)
Told-err e n = ((λ h. n (err_injective h)), λ g h. absurd (cc))

Told-raise_if :
    (b : Bool) (e : GraphError) (r : Result GraphError TaskGraph)
    → e ≢ out_of_fuel
    → Told r
    → Told (raise_if b e >> r)
Told-raise_if true e r n t = Told-err e n
Told-raise_if false e r n t = t

Told-search :
    (nodes : List TaskNode) (p u : ℕ)
    → Settles (After nodes (node_ids nodes) no_search) (search_order nodes)
    → Told (search_order nodes >>= λ s. ok (graph_of nodes p u s))
Told-search nodes p u (inl e) = rw e (Told-err dependency_cycle (λ h. absurd (cc)))
Told-search nodes p u (inr (s, e, a)) =
    rw e ((λ h. absurd (cc)), λ g h. subst IsOrdered (ok_injective h) (searched nodes p u s a))

Told-check_nodes :
    (nodes : List TaskNode) (p u : ℕ) (r : Result GraphError (Unit {0}))
    → check_nodes nodes nodes u ≡ r
    → Told (r >> (search_order nodes >>= λ s. ok (graph_of nodes p u s)))
Told-check_nodes nodes p u (ok x) e =
    Told-search nodes p u (search_Settles nodes (closed_needs nodes u e))
Told-check_nodes nodes p u (err x) e =
    Told-err x (λ h. check_nodes-fuel nodes nodes u (e ∙ ap err h))

-- The construction ends: the search of the model never lacks fuel. And the graph that it gives back
-- has every task once in its order, after all that the task depends on.
pub build_ends :
    (nodes : List TaskNode) (p u : ℕ)
    → (build nodes p u ≢ err out_of_fuel) × ((g : TaskGraph) → build nodes p u ≡ ok g → IsOrdered g)
unfolding build
build_ends nodes p u =
    Told-raise_if _ nodes_required _ (λ h. absurd (cc))
      (Told-raise_if (ltb p 1) max_parallelism_required _ (λ h. absurd (cc))
        (Told-raise_if (ltb u 1) max_resource_units_required _ (λ h. absurd (cc))
          (Told-raise_if (has_duplicates (node_ids nodes)) duplicate_node_ids _ (λ h. absurd (cc))
            (Told-check_nodes nodes p u (check_nodes nodes nodes u) refl))))
