-- ===== src/Scheduler/Order.antt =====
-- Orders of tasks, and what one round of visits keeps of them.
use aegis_forge.Prelude.{
  ℕ, suc, ◌<◌, ◌≤◌, String, ◌≡◌, refl, ◌∙◌, ◌⊎◌, inl, inr, true, false, List, [], ◌∷◌, ◌++◌, arith,
  ◌||◌, eq_iff, eq_refl, one_of, if◌then◌else◌,
}
use aegis_forge.Prelude.Result.{Result, ok, err}
use aegis_forge.Prelude.Table.{select, has_key}
use aegis_forge.Scheduler.Graph.{
  GraphError, dependency_cycle, TaskNode, Search, dependencies_of, visit_each, size, has_duplicates,
}

-- The dependencies of a task.
abbrev pub needs : List TaskNode → String → List String
needs nodes id = dependencies_of (select TaskNode.node_id id nodes)

-- Each text comes after its dependencies, some of which came before the list.
abbrev pub IsPlaced : List TaskNode → List String → List String → Type 0
IsPlaced nodes before [] = Unit
IsPlaced nodes before (x ∷ xs) =
    ((d : String) → one_of d (needs nodes x) ≡ true → one_of d before ≡ true)
    × IsPlaced nodes (x ∷ before) xs

pub IsPlaced-append :
    (nodes : List TaskNode) (before xs : List String) (x : String)
    → IsPlaced nodes before xs
    → ((d : String) → one_of d (needs nodes x) ≡ true → (one_of d before || one_of d xs) ≡ true)
    → IsPlaced nodes before (xs ++ x ∷ [])
unfolding one_of
IsPlaced-append nodes before [] x p k = ((λ d e. ground (arith, k d e)), tt)
IsPlaced-append nodes before (y ∷ ys) x p k =
    (p.0, IsPlaced-append nodes (y ∷ before) ys x p.1 (λ d e. ground (arith, k d e)))

-- The tasks that are not being visited.
unfoldable pub left : List TaskNode → List String → ℕ
left [] vis = 0
left (n ∷ ns) vis = let rest = left ns vis in if one_of n.node_id vis then rest else suc rest

left-enter-le :
    (nodes : List TaskNode) (id : String) (vis : List String)
    → left nodes (id ∷ vis) ≤ left nodes vis
unfolding left one_of
left-enter-le [] id vis = omega arith
left-enter-le (n ∷ ns) id vis = ground (arith, left-enter-le ns id vis)

pub left-enter :
    (nodes : List TaskNode) (id : String) (vis : List String)
    → has_key TaskNode.node_id id nodes ≡ true
    → one_of id vis ≡ false
    → left nodes (id ∷ vis) < left nodes vis
unfolding left one_of has_key
left-enter [] id vis k n = absurd (cc)
left-enter (x ∷ ns) id vis k n =
    ground (arith, eq_iff x.node_id id, left-enter ns id vis, left-enter-le ns id vis)

pub left-size : (nodes : List TaskNode) (vis : List String) → left nodes vis ≤ size nodes
unfolding left size
left-size [] vis = omega arith
left-size (n ∷ ns) vis = ground (arith, left-size ns vis)

-- What holds between the visits.
pub record IsSound (nodes : List TaskNode) (s : Search) : Type 0 where
  pub same : (x : String) → one_of x s.visited ≡ one_of x s.order
  pub known : (x : String) → one_of x s.order ≡ true → has_key TaskNode.node_id x nodes ≡ true
  pub apart : (x : String) → one_of x s.visited ≡ true → one_of x s.visiting ≡ false
  pub once : has_duplicates s.order ≡ false
  pub placed : IsPlaced nodes [] s.order

-- What visits of some tasks leave behind.
pub record After (nodes : List TaskNode) (ids : List String) (s s' : Search) : Type 0 where
  pub visiting : s'.visiting ≡ s.visiting
  pub sound : IsSound nodes s'
  pub reached : (x : String) → one_of x ids ≡ true → one_of x s'.visited ≡ true
  pub kept : (x : String) → one_of x s.visited ≡ true → one_of x s'.visited ≡ true

-- A cycle is found, or the search goes on from a state that satisfies Q.
abbrev pub Settles : (Search → Type 0) → Result GraphError Search → Type 0
Settles Q r = (r ≡ err dependency_cycle) ⊎ ((s' : Search) × (r ≡ ok s') × Q s')

pub each_lem :
    (nodes : List TaskNode) (f : String → Search → Result GraphError Search) (xs : List String)
    (s : Search)
    → IsSound nodes s
    → ((x : String) (t : Search)
        → one_of x xs ≡ true
        → t.visiting ≡ s.visiting
        → IsSound nodes t
        → Settles (After nodes (x ∷ []) t) (f x t))
    → Settles (After nodes xs s) (visit_each f xs s)
unfolding visit_each one_of
each_lem nodes f [] s v k =
    inr (
      s,
      refl,
      record { visiting = refl; sound = v; reached = λ x e. absurd (cc); kept = λ x e. e },
    )
each_lem nodes f (x ∷ xs) s v k = elim (k x s (ground (arith, eq_refl x)) refl v) [
  | inl e ↦ rw e (inl refl)
  | inr (t, e, a) ↦
      elim (each_lem nodes f xs t a.sound
        (λ y u m same w. k y u (ground (arith, m)) (same ∙ a.visiting) w)) [
          | inl c ↦ rw e (inl c)
          | inr (u, c, b) ↦ rw e (
              inr (
                u,
                c,
                record {
                  visiting = b.visiting ∙ a.visiting;
                  sound = b.sound;
                  reached = λ y m. ground (arith, m, a.reached y, b.reached y, b.kept y);
                  kept = λ y m. b.kept y (a.kept y m);
                },
              ))
        ]
]
