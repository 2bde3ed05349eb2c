-- ===== src/Scheduler/Search.antt =====
-- The search ends, and finds an order in which every task stands once, after its dependencies.
use aegis_forge.Prelude.{
  ℕ, zero, suc, ◌<◌, String, ◌≡◌, refl, sym, ap, ◌∙◌, inl, inr, true, false, List, [], ◌∷◌, Memᴰ,
  arith, eq_iff, eq_refl, one_of, Bool-cases, Option-cases,
}
use aegis_forge.Prelude.Result.{ok}
use aegis_forge.Prelude.Table.{select, has_key}
use aegis_forge.Prelude.Table.Laws.{Mem-select}
use aegis_forge.Scheduler.Graph.{
  TaskNode, node_ids, has_unknown, check_nodes, Search, dependencies_of, enter, leave, remove,
  visit_node, visit, size, search_order, no_search, has_duplicates,
}
use aegis_forge.Scheduler.Texts.{one_of-append, has_duplicates-append, remove-head}
use aegis_forge.Scheduler.Order.{
  needs, IsPlaced-append, left, left-enter, left-size, IsSound, After, Settles, each_lem,
}

pub node_ids-has_key :
    (x : String) (nodes : List TaskNode)
    → one_of x (node_ids nodes) ≡ has_key TaskNode.node_id x nodes
unfolding one_of node_ids has_key
node_ids-has_key x [] = refl
node_ids-has_key x (n ∷ ns) =
    ground (arith, node_ids-has_key x ns, eq_iff x n.node_id, eq_iff n.node_id x)

module _ (nodes : List TaskNode)
    (closed : (id d : String)
      → has_key TaskNode.node_id id nodes ≡ true
      → one_of d (needs nodes id) ≡ true
      → has_key TaskNode.node_id d nodes ≡ true) where
  enter-IsSound :
      (id : String) (s : Search)
      → IsSound nodes s
      → one_of id s.visited ≡ false
      → IsSound nodes (enter id s)
  unfolding one_of
  enter-IsSound id s v n = record {
    same = v.same;
    known = v.known;
    apart = λ x e. ground (arith, v.apart x e, eq_iff x id, e, n);
    once = v.once;
    placed = v.placed;
  }

  -- The node after its dependencies.
  leave-After :
      (id : String) (s t : Search)
      → has_key TaskNode.node_id id nodes ≡ true
      → one_of id s.visiting ≡ false
      → After nodes (needs nodes id) (enter id s) t
      → After nodes (id ∷ []) s (leave id t)
  unfolding one_of
  leave-After id s t k n a =
      let back : remove id t.visiting ≡ s.visiting =
        ap (remove id) a.visiting ∙ remove-head id s.visiting n in
      let unseen : one_of id t.visited ≡ false = elim (Bool-cases (one_of id t.visited)) [
        | inl e ↦
            absurd
              (ground (arith, IsSound.apart a.sound id e, ap (one_of id) a.visiting, eq_refl id))
        | inr e ↦ e
      ] in
      record {
        visiting = back;
        sound = record {
          same = λ x. ground (arith, one_of-append x t.order id, IsSound.same a.sound x);
          known = λ x e.
              ground
                (arith, e, one_of-append x t.order id, IsSound.known a.sound x, eq_iff x id, k);
          apart = λ x e.
              ap (one_of x) back
              ∙ ground
                  (arith, e, n, eq_iff x id, IsSound.apart a.sound x, ap (one_of x) a.visiting);
          once =
              has_duplicates-append t.order id (IsSound.once a.sound)
                (sym (IsSound.same a.sound id) ∙ unseen);
          placed =
              IsPlaced-append nodes [] t.order id (IsSound.placed a.sound)
                (λ d e. sym (IsSound.same a.sound d) ∙ a.reached d e);
        };
        reached = λ x e. ground (arith, e);
        kept = λ x e. ground (arith, a.kept x e);
      }

  seen_before :
      (id : String) (s : Search)
      → IsSound nodes s
      → one_of id s.visited ≡ true
      → After nodes (id ∷ []) s s
  unfolding one_of
  seen_before id s v e = record {
    visiting = refl;
    sound = v;
    reached = λ x h. ground (arith, h, e, eq_iff x id);
    kept = λ x h. h;
  }

  visit_lem :
      (fuel : ℕ) (id : String) (s : Search)
      → left nodes s.visiting < fuel
      → has_key TaskNode.node_id id nodes ≡ true
      → IsSound nodes s
      → Settles (After nodes (id ∷ []) s) (visit nodes fuel id s)
  unfolding visit visit_node
  visit_lem zero id s f k v = absurd (omega arith)
  visit_lem (suc fuel) id s f k v = elim (Bool-cases (one_of id s.visiting)) [
    | inl e ↦ rw e (inl refl)
    | inr n ↦ elim (Bool-cases (one_of id s.visited)) [
      | inl e ↦ rw n (rw e (inr (s, refl, seen_before id s v e)))
      | inr m ↦
          elim (each_lem nodes (visit nodes fuel) (needs nodes id) (enter id s)
            (enter-IsSound id s v m)
            (λ x t d same w.
              visit_lem fuel x t
                (omega (arith, ap (left nodes) same, left-enter nodes id s.visiting k n, f))
                (closed id x k d) w)) [
                  | inl c ↦ rw n (rw m (rw c (inl refl)))
                  | inr (t, c, a) ↦
                      rw n (rw m (rw c (inr (leave id t, refl, leave-After id s t k n a))))
                ]
    ]
  ]

  unsearched : IsSound nodes no_search
  unfolding one_of has_duplicates
  unsearched = record {
    same = λ x. refl;
    known = λ x e. absurd (cc);
    apart = λ x e. refl;
    once = refl;
    placed = tt;
  }

  pub search_Settles : Settles (After nodes (node_ids nodes) no_search) (search_order nodes)
  unfolding search_order
  search_Settles =
      each_lem nodes (visit nodes (suc (size nodes))) (node_ids nodes) no_search unsearched
        (λ x t d same w.
          visit_lem (suc (size nodes)) x t (omega (arith, left-size nodes t.visiting))
            (sym (node_ids-has_key x nodes) ∙ d) w)

-- The dependencies of every node are nodes.
known_needs :
    (d : String) (ds : List String) (nodes : List TaskNode)
    → has_unknown ds nodes ≡ false
    → one_of d ds ≡ true
    → has_key TaskNode.node_id d nodes ≡ true
unfolding has_unknown one_of
known_needs d [] nodes h e = absurd (cc)
known_needs d (x ∷ ds) nodes h e = ground (arith, eq_iff d x, known_needs d ds nodes, h, e)

checked :
    (n : TaskNode) (ns nodes : List TaskNode) (budget : ℕ) {u : Unit {0}}
    → check_nodes ns nodes budget ≡ ok u
    → Memᴰ n ns
    → has_unknown n.dependencies nodes ≡ false
unfolding check_nodes
checked n [] nodes budget h m = elim m [ ]
checked n (x ∷ ns) nodes budget h (Memᴰ.head e) = ground (arith, h, e)
checked n (x ∷ ns) nodes budget h (Memᴰ.tail m) = ground (arith, h, checked n ns nodes budget _ m)

pub closed_needs :
    (nodes : List TaskNode) (budget : ℕ) {u : Unit {0}}
    → check_nodes nodes nodes budget ≡ ok u
    → (id d : String) → has_key TaskNode.node_id id nodes ≡ true
    → one_of d (needs nodes id) ≡ true
    → has_key TaskNode.node_id d nodes ≡ true
unfolding one_of dependencies_of
closed_needs nodes budget h id d k e = elim (Option-cases (select TaskNode.node_id id nodes)) [
  | inl none_there ↦ absurd (ground (arith, none_there, e))
  | inr (n, there) ↦
      known_needs d n.dependencies nodes
        (checked n nodes nodes budget h (Mem-select TaskNode.node_id id nodes n there))
        (ground (arith, there, e))
]
