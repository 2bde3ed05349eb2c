-- ===== src/Scheduler/Verdicts.antt =====
-- What the whole loop of `plan` says of the tasks of a graph that was built.
use aegis_forge.Prelude.{
  ℕ, ◌-◌, String, ◌≡◌, refl, ap, ◌∙◌, subst, inl, inr, Bool, true, false, ◌||◌, some, List, [], ◌∷◌,
  arith, ◌==◌, eq_iff, eq_refl, one_of, Bool-cases,
}
use aegis_forge.Prelude.Result.{ok, Result-cases}
use aegis_forge.Prelude.Table.{select}
use aegis_forge.Prelude.Table.Laws.{has_key-select}
use aegis_forge.Scheduler.Graph.{
  TaskNode, TaskGraph, node_ids, has_duplicates, dependencies_of, build,
}
use aegis_forge.Scheduler.Plan.{
  Given, Entry, entry_id, normalize, given_status, Slate, consider_id, consider_all, SchedulePlan,
  plan, blank_slate, running_tasks, length, total_units,
}
use aegis_forge.Scheduler.Order.{IsPlaced, needs}
use aegis_forge.Scheduler.Build.{build_ends}
use aegis_forge.Scheduler.Bounds.{plan-IsPlanned}
use aegis_forge.Scheduler.Judged.{IsJudged, IsSoFar, one_round}

-- The entry of a task holds its node.
normalize-select :
    (given : List Given) (ns : List TaskNode) (es : List Entry) (x : String) (e : Entry)
    → normalize given ns ≡ ok es
    → select entry_id x es ≡ some e
    → select TaskNode.node_id x ns ≡ some e.node
unfolding normalize select
normalize-select given [] es x e h k = absurd (ground (arith, h, k))
normalize-select given (n ∷ ns) es x e h k =
    elim (Result-cases (given_status (select Given.node_id n.node_id given))) [
      | inr (y, a) ↦ absurd (ground (arith, h, a))
      | inl (st, a) ↦ elim (Result-cases (normalize given ns)) [
        | inr (y, b) ↦ absurd (ground (arith, h, a, b))
        | inl (rest, b) ↦
            let made : record { node = n; status = st } ∷ rest ≡ es = ground (arith, h, a, b) in
            let found = ap (select entry_id x) made ∙ k in
            elim (Bool-cases (n.node_id == x)) [
              | inl own ↦
                  let same : record { node = n; status = st } ≡ e = ground (arith, found, own) in
                  rw own (ap (λ z. some z.node) same)
              | inr far ↦ rw far (normalize-select given ns rest x e b (ground (arith, found, far)))
            ]
      ]
    ]

-- What was considered, once the tasks in `ids` are too.
abbrev spread : List String → List String → List String
spread before [] = before
spread before (x ∷ ids) = spread (x ∷ before) ids

one_of-spread :
    (x : String) (before ids : List String)
    → one_of x (spread before ids) ≡ (one_of x before || one_of x ids)
unfolding one_of
one_of-spread x before [] = ground arith
one_of-spread x before (y ∷ ids) = one_of-spread x (y ∷ before) ids ∙ ground arith

all_rounds :
    (nodes : List TaskNode) (es : List Entry) (before ids : List String) (s : Slate)
    → ((x : String) (e : Entry)
        → select entry_id x es ≡ some e
        → needs nodes x ≡ e.node.dependencies)
    → IsPlaced nodes before ids
    → has_duplicates ids ≡ false
    → ((x : String) → one_of x ids ≡ true → one_of x before ≡ false)
    → IsSoFar es before s
    → IsSoFar es (spread before ids) (consider_all es ids s)
unfolding consider_all has_duplicates one_of
all_rounds nodes es before [] s link placed once apart f = f
all_rounds nodes es before (y ∷ ids) s link placed once apart f =
    all_rounds nodes es (y ∷ before) ids (consider_id es (select entry_id y es) s) link placed.1
      (ground (arith, once))
      (λ x m. ground (arith, apart x (ground (arith, m)), once, m, eq_iff x y))
      (one_round es before y s (apart y (ground (arith, eq_refl y))) f
        (λ e there d k. placed.0 d (ap (one_of d) (link y e there) ∙ k)))

no_rounds : (es : List Entry) (slots units : ℕ) → IsSoFar es [] (blank_slate slots units)
unfolding one_of node_ids
no_rounds es slots units = record {
  judged = λ x e h m. absurd (ground (arith, m));
  closed = λ x e h m d k. absurd (ground (arith, m));
  within = λ x m. refl;
}

nothing : (x : String) → one_of x [] ≡ false
unfolding one_of
nothing x = refl

or_true : (b : Bool) → (b || true) ≡ true
or_true true = refl
or_true false = refl

-- A plan for a graph that was built. Over the statuses that are given, a missing one for PENDING:
-- a task is blocked exactly when it is pending and a dependency of it has failed, or is blocked
-- itself; a task that is ready is pending, and all its dependencies succeeded; one that waits is
-- pending, and not blocked; and a pending task is in one of the three lists.
pub plan_lem :
    (nodes : List TaskNode) (slots units : ℕ) (g : TaskGraph) (given : List Given)
    (p : SchedulePlan)
    → build nodes slots units ≡ ok g
    → plan g given ≡ ok p
    → (es : List Entry) × (normalize given g.nodes ≡ ok es)
      × ((x : String) (e : Entry)
          → select entry_id x es ≡ some e
          → IsJudged es e p.ready p.blocked p.waiting)
unfolding dependencies_of
plan_lem nodes slots units g given p made h =
    let o = (build_ends nodes slots units).1 g made in
    let r = plan-IsPlanned g given p h in
    let es = r.entries in
    let link = λ (x : String) (e : Entry) (there : select entry_id x es ≡ some e).
      ap dependencies_of (normalize-select given g.nodes es x e r.read there) in
    let start =
      blank_slate (g.max_parallelism - length (running_tasks es))
        (g.max_resource_units - total_units (running_tasks es)) in
    let end =
      all_rounds g.nodes es [] g.order start link o.placed o.once (λ x m. nothing x)
        (no_rounds es _ _) in
    (
      es,
      r.read,
      λ x e there.
          subst (λ q. IsJudged es e q.ready q.blocked q.waiting) r.made
            (IsSoFar.judged end x e there (
              one_of-spread x [] g.order
              ∙ ap (λ b. one_of x [] || b)
                  (o.complete x
                    ∙ has_key-select TaskNode.node_id x g.nodes e.node
                        (normalize-select given g.nodes es x e r.read there))
              ∙ or_true (one_of x []))),
    )
