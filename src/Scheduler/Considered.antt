-- ===== src/Scheduler/Considered.antt =====
-- What one round of `plan`'s loop adds to its three lists, and to what else it says.
use aegis_forge.Prelude.{
  String, ◌≡◌, refl, ap, Bool, true, not, ◌&&◌, ◌||◌, List, [], ◌∷◌, ◌++◌, arith, ◌==◌, eq_iff,
  one_of,
}
use aegis_forge.Scheduler.Graph.{TaskNode, node_ids}
use aegis_forge.Scheduler.Texts.{one_of-append}
use aegis_forge.Scheduler.Plan.{
  is_pending, Entry, entry_id, all_succeeded, any_failure, any_in, Slate, fits, admit, block, wait,
  consider,
}

node_ids-append :
    (ns : List TaskNode) (n : TaskNode) → node_ids (ns ++ n ∷ []) ≡ node_ids ns ++ n.node_id ∷ []
unfolding node_ids
node_ids-append [] n = refl
node_ids-append (x ∷ ns) n = ap (λ t. x.node_id ∷ t) (node_ids-append ns n)

pub any_in-same :
    (ds A B : List String)
    → ((d : String) → one_of d ds ≡ true → one_of d A ≡ one_of d B)
    → any_in ds A ≡ any_in ds B
unfolding any_in one_of
any_in-same [] A B k = refl
any_in-same (d ∷ ds) A B k =
    ground (arith, k d, eq_iff d d, any_in-same ds A B (λ x m. k x (ground (arith, m))))

-- Something that is bad for a task: a failed dependency, or a blocked one.
abbrev pub is_doomed : List Entry → Entry → List String → Bool
is_doomed es e blocked = any_failure es e.node.dependencies || any_in e.node.dependencies blocked

abbrev pub is_blocked : List Entry → Entry → Slate → Bool
is_blocked es e s = is_pending e.status && is_doomed es e s.blocked

abbrev pub is_ready : List Entry → Entry → Slate → Bool
is_ready es e s =
    is_pending e.status
    && not (is_doomed es e s.blocked)
    && all_succeeded es e.node.dependencies
    && fits e.node s

abbrev pub is_waiting : List Entry → Entry → Slate → Bool
is_waiting es e s =
    is_pending e.status
    && not (is_doomed es e s.blocked)
    && not (all_succeeded es e.node.dependencies && fits e.node s)

module _ (es : List Entry) (e : Entry) (s : Slate) (x : String) where
  pub consider-blocked :
      one_of x (Slate.blocked (consider es e s))
      ≡ (one_of x s.blocked || (x == entry_id e && is_blocked es e s))
  unfolding consider admit block wait
  consider-blocked = ground (arith, one_of-append x s.blocked e.node.node_id)

  pub consider-ready :
      one_of x (node_ids (Slate.ready (consider es e s)))
      ≡ (one_of x (node_ids s.ready) || (x == entry_id e && is_ready es e s))
  unfolding consider admit block wait
  consider-ready = ground (
    arith,
    ap (one_of x) (node_ids-append s.ready e.node),
    one_of-append x (node_ids s.ready) e.node.node_id,
  )

  pub consider-waiting :
      one_of x (Slate.waiting (consider es e s))
      ≡ (one_of x s.waiting || (x == entry_id e && is_waiting es e s))
  unfolding consider admit block wait
  consider-waiting = ground (arith, one_of-append x s.waiting e.node.node_id)
