-- ===== src/Scheduler/Bounds.antt =====
-- `plan` keeps the budgets.
use aegis_forge.Prelude.{
  ℕ, ◌∙◌, ◌+◌, ◌-◌, ◌≤◌, String, ◌≡◌, sym, ap, subst, inl, inr, true, ◌||◌, List, [], ◌∷◌, ◌++◌,
  Memᴰ, arith, Bool-cases, Option-cases,
}
use aegis_forge.Prelude.Result.{ok_injective, Result-cases, ok}
use aegis_forge.Prelude.Table.{select}
use aegis_forge.Prelude.Table.Laws.{Mem-select}
use aegis_forge.Prelude.Table.Columns.{Mem-append}
use aegis_forge.Scheduler.Graph.{TaskNode, TaskGraph, node_ids}
use aegis_forge.Scheduler.Plan.{
  ExecutionStatus, is_pending, Given, Entry, entry_id, normalize, given_status, all_succeeded,
  any_failure, any_in, check_started, running_tasks, length, total_units, Slate, fits, admit, block,
  wait, consider, consider_id, consider_all, SchedulePlan, blank_slate, plan_of, plan,
  has_unknown_id,
}
use aegis_forge.Scheduler.Running.{running_now, normalize-running}

length-append : (ns : List TaskNode) (n : TaskNode) → length (ns ++ n ∷ []) ≡ length ns + 1
unfolding length
length-append [] n = omega arith
length-append (x ∷ ns) n = omega (arith, length-append ns n)

total_units-append :
    (ns : List TaskNode) (n : TaskNode)
    → total_units (ns ++ n ∷ []) ≡ total_units ns + n.resource_units
unfolding total_units
total_units-append [] n = omega arith
total_units-append (x ∷ ns) n = omega (arith, total_units-append ns n)

-- What the slate holds of the budgets it started with, and that its tasks are of the graph.
record IsWithin (nodes : List TaskNode) (slots units : ℕ) (s : Slate) : Type 0 where
  count : length s.ready + s.free_slots ≡ slots
  sum : total_units s.ready + s.free_resources ≡ units
  members : (n : TaskNode) → Memᴰ n s.ready → Memᴰ n nodes

module _ (nodes : List TaskNode) (slots units : ℕ) where
  admit-IsWithin :
      (n : TaskNode) (s : Slate)
      → Memᴰ n nodes
      → fits n s ≡ true
      → IsWithin nodes slots units s
      → IsWithin nodes slots units (admit n s)
  unfolding admit fits
  admit-IsWithin n s m f v = record {
    count = ground (arith, f, v.count, length-append s.ready n);
    sum = ground (arith, f, v.sum, total_units-append s.ready n);
    members = λ x k. elim (Mem-append s.ready n x k) [
      | inl old ↦ v.members x old
      | inr e ↦ subst (λ y. Memᴰ y nodes) (sym e) m
    ];
  }

  block-IsWithin :
      (n : TaskNode) (s : Slate)
      → IsWithin nodes slots units s
      → IsWithin nodes slots units (block n s)
  unfolding block
  block-IsWithin n s v = record { count = v.count; sum = v.sum; members = v.members }

  wait-IsWithin :
      (n : TaskNode) (s : Slate)
      → IsWithin nodes slots units s
      → IsWithin nodes slots units (wait n s)
  unfolding wait
  wait-IsWithin n s v = record { count = v.count; sum = v.sum; members = v.members }

  consider-IsWithin :
      (es : List Entry) (e : Entry) (s : Slate)
      → Memᴰ e.node nodes
      → IsWithin nodes slots units s
      → IsWithin nodes slots units (consider es e s)
  unfolding consider
  consider-IsWithin es e s m v = elim (Bool-cases (is_pending e.status)) [
    | inr a ↦ rw a v
    | inl a ↦
        elim (Bool-cases
          (any_failure es e.node.dependencies || any_in e.node.dependencies s.blocked)) [
            | inl b ↦ rw a (rw b (block-IsWithin e.node s v))
            | inr b ↦ elim (Bool-cases (all_succeeded es e.node.dependencies)) [
              | inr c ↦ rw a (rw b (rw c (wait-IsWithin e.node s v)))
              | inl c ↦ elim (Bool-cases (fits e.node s)) [
                | inl d ↦ rw a (rw b (rw c (rw d (admit-IsWithin e.node s m d v))))
                | inr d ↦ rw a (rw b (rw c (rw d (wait-IsWithin e.node s v))))
              ]
            ]
          ]
  ]

  consider_all-IsWithin :
      (es : List Entry) (ids : List String) (s : Slate)
      → ((e : Entry) → Memᴰ e es → Memᴰ e.node nodes)
      → IsWithin nodes slots units s
      → IsWithin nodes slots units (consider_all es ids s)
  unfolding consider_all consider_id
  consider_all-IsWithin es [] s k v = v
  consider_all-IsWithin es (id ∷ ids) s k v = elim (Option-cases (select entry_id id es)) [
    | inl e ↦ rw e (consider_all-IsWithin es ids s k v)
    | inr (x, e) ↦ rw e (
        consider_all-IsWithin es ids (consider es x s) k
          (consider-IsWithin es x s (k x (Mem-select entry_id id es x e)) v))
  ]

no_Mem : (e : Entry) → ¬ (Memᴰ e [])
no_Mem e m = elim m [ ]

cons-Mem :
    (n : TaskNode) (s : ExecutionStatus) (rest : List Entry) (ns : List TaskNode) (e : Entry)
    → ((x : Entry) → Memᴰ x rest → Memᴰ x.node ns)
    → Memᴰ e (record { node = n; status = s } ∷ rest)
    → Memᴰ e.node (n ∷ ns)
cons-Mem n s rest ns e k (Memᴰ.head h) = Memᴰ.head (ap Entry.node h)
cons-Mem n s rest ns e k (Memᴰ.tail m) = Memᴰ.tail (k e m)

-- The normalized table is one of the nodes.
normalize-Mem :
    (given : List Given) (ns : List TaskNode) (es : List Entry)
    → normalize given ns ≡ ok es
    → (e : Entry) → Memᴰ e es
    → Memᴰ e.node ns
unfolding normalize
normalize-Mem given [] es h e m = absurd (no_Mem e (subst (Memᴰ e) (sym (ok_injective h)) m))
normalize-Mem given (n ∷ ns) es h e m =
    elim (Result-cases (given_status (select Given.node_id n.node_id given))) [
      | inr (x, a) ↦ absurd (ground (arith, h, a))
      | inl (st, a) ↦ elim (Result-cases (normalize given ns)) [
        | inr (x, b) ↦ absurd (ground (arith, h, a, b))
        | inl (rest, b) ↦
            let made : record { node = n; status = st } ∷ rest ≡ es = ground (arith, h, a, b) in
            cons-Mem n st rest ns e (normalize-Mem given ns rest b) (subst (Memᴰ e) (sym made) m)
      ]
    ]

-- What `plan` has passed where it gives a plan back.
pub record IsPlanned (g : TaskGraph) (given : List Given) (p : SchedulePlan) : Type 0 where
  pub entries : List Entry
  pub read : normalize given g.nodes ≡ ok entries
  pub slots : length (running_tasks entries) ≤ g.max_parallelism
  pub units : total_units (running_tasks entries) ≤ g.max_resource_units
  pub made :
      plan_of
        (consider_all entries g.order (
          blank_slate
            (g.max_parallelism - length (running_tasks entries))
            (g.max_resource_units - total_units (running_tasks entries))))
        (running_tasks entries)
      ≡ p

pub plan-IsPlanned :
    (g : TaskGraph) (given : List Given) (p : SchedulePlan)
    → plan g given ≡ ok p
    → IsPlanned g given p
unfolding plan
plan-IsPlanned g given p h = elim (Bool-cases (has_unknown_id given g.nodes)) [
  | inl a ↦ absurd (ground (arith, h, a))
  | inr a ↦ elim (Result-cases (normalize given g.nodes)) [
    | inr (x, b) ↦ absurd (ground (arith, h, a, b))
    | inl (es, b) ↦ elim (Result-cases (check_started es es)) [
      | inr (x, c) ↦ absurd (ground (arith, h, a, b, c))
      | inl (x, c) ↦ record {
        entries = es;
        read = b;
        slots = ground (arith, h, a, b, c);
        units = ground (arith, h, a, b, c);
        made = ground (arith, h, a, b, c);
      }
    ]
  ]
]

blank-IsWithin :
    (nodes : List TaskNode) (slots units : ℕ) → IsWithin nodes slots units (blank_slate slots units)
unfolding length total_units
blank-IsWithin nodes slots units = record {
  count = omega arith;
  sum = omega arith;
  members = λ n m. elim m [ ];
}

-- The budgets hold where a plan is given back: the tasks that it lets start, together with those
-- whose given status is RUNNING, are no more than max_parallelism, and their resource units no more
-- than max_resource_units; the tasks are of the graph, and the plan reports the running ones.
pub plan_bounds :
    (g : TaskGraph) (given : List Given) (p : SchedulePlan)
    → plan g given ≡ ok p
    → (chosen : List TaskNode) × (p.ready ≡ node_ids chosen)
      × ((n : TaskNode) → Memᴰ n chosen → Memᴰ n g.nodes)
      × (length (running_now given g.nodes) + length chosen ≤ g.max_parallelism)
      × (total_units (running_now given g.nodes) + total_units chosen ≤ g.max_resource_units)
      × (p.running_count ≡ length (running_now given g.nodes))
      × (p.running_resource_units ≡ total_units (running_now given g.nodes))
plan_bounds g given p h =
    let r = plan-IsPlanned g given p h in
    let es = r.entries in
    let same = normalize-running given g.nodes es r.read in
    let slots = g.max_parallelism - length (running_tasks es) in
    let units = g.max_resource_units - total_units (running_tasks es) in
    let v =
      consider_all-IsWithin g.nodes slots units es g.order (blank_slate slots units)
        (normalize-Mem given g.nodes es r.read) (blank-IsWithin g.nodes slots units) in
    (
      Slate.ready (consider_all es g.order (blank_slate slots units)),
      ap SchedulePlan.ready (sym r.made),
      IsWithin.members v,
      subst
          (λ w.
            length w + length (Slate.ready (consider_all es g.order (blank_slate slots units)))
            ≤ g.max_parallelism)
          same (omega (arith, IsWithin.count v, r.slots)),
      subst
          (λ w.
            total_units w
              + total_units (Slate.ready (consider_all es g.order (blank_slate slots units)))
            ≤ g.max_resource_units)
          same (omega (arith, IsWithin.sum v, r.units)),
      ap SchedulePlan.running_count (sym r.made) ∙ ap length same,
      ap SchedulePlan.running_resource_units (sym r.made) ∙ ap total_units same,
    )
