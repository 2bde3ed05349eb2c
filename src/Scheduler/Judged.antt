-- ===== src/Scheduler/Judged.antt =====
-- Every pending task of a plan is in exactly the list that its dependencies call for.
use aegis_forge.Prelude.{
  String, ◌≡◌, sym, ap, ◌∙◌, subst, inl, inr, true, false, not, ◌&&◌, ◌||◌, none, some, List, ◌∷◌,
  arith, ◌==◌, eq_iff, eq_refl, one_of, Bool-cases, Option-cases,
}
use aegis_forge.Prelude.Table.{select}
use aegis_forge.Prelude.Table.Laws.{select-key}
use aegis_forge.Scheduler.Graph.{node_ids}
use aegis_forge.Scheduler.Plan.{
  is_pending, Entry, entry_id, all_succeeded, any_in, Slate, consider, consider_id,
}
use aegis_forge.Scheduler.Considered.{
  is_doomed, any_in-same, consider-blocked, consider-ready, consider-waiting,
}

-- What the lists of a plan say of one task: it is blocked exactly when it is pending and a dependency
-- failed, or is blocked itself; what is ready is pending, with all its dependencies succeeded; and
-- a pending task is in one of the three lists.
pub record IsJudged (es : List Entry) (e : Entry) (ready blocked waiting : List String)
    : Type 0 where
  pub stops : one_of (entry_id e) blocked ≡ (is_pending e.status && is_doomed es e blocked)
  pub starts :
      one_of (entry_id e) ready ≡ true
      → (is_pending e.status
          && not (is_doomed es e blocked)
          && all_succeeded es e.node.dependencies)
        ≡ true
  pub waits :
      one_of (entry_id e) waiting ≡ true
      → (is_pending e.status && not (is_doomed es e blocked)) ≡ true
  pub listed :
      is_pending e.status ≡ true
      → (one_of (entry_id e) ready || one_of (entry_id e) blocked || one_of (entry_id e) waiting)
        ≡ true

abbrev pub Judges : List Entry → Entry → Slate → Type 0
Judges es e s = IsJudged es e (node_ids s.ready) s.blocked s.waiting

-- After the tasks in `before`.
pub record IsSoFar (es : List Entry) (before : List String) (s : Slate) : Type 0 where
  pub judged :
      (x : String) (e : Entry)
      → select entry_id x es ≡ some e
      → one_of x before ≡ true
      → Judges es e s
  pub closed :
      (x : String) (e : Entry)
      → select entry_id x es ≡ some e
      → one_of x before ≡ true
      → (d : String) → one_of d e.node.dependencies ≡ true
      → one_of d before ≡ true
  pub within :
      (x : String)
      → one_of x before ≡ false
      → (one_of x (node_ids s.ready) || one_of x s.blocked || one_of x s.waiting) ≡ false

module _ (es : List Entry) (y : Entry) (s : Slate) where
  -- A task whose dependencies do not name the one that is considered is as doomed as before.
  doomed-same :
      (e : Entry)
      → one_of (entry_id y) e.node.dependencies ≡ false
      → any_in e.node.dependencies (Slate.blocked (consider es y s))
        ≡ any_in e.node.dependencies s.blocked
  doomed-same e n =
      any_in-same e.node.dependencies (Slate.blocked (consider es y s)) s.blocked
        (λ d m. ground (arith, consider-blocked es y s d, eq_iff d (entry_id y), m, n))

  others-judged :
      (e : Entry)
      → (entry_id e == entry_id y) ≡ false
      → one_of (entry_id y) e.node.dependencies ≡ false
      → Judges es e s
      → Judges es e (consider es y s)
  others-judged e far n j =
      let b = consider-blocked es y s (entry_id e) in
      let r = consider-ready es y s (entry_id e) in
      let w = consider-waiting es y s (entry_id e) in
      let same = doomed-same e n in
      record {
        stops = ground (arith, b, far, same, j.stops);
        starts = λ h. ground (arith, h, r, far, same, j.starts);
        waits = λ h. ground (arith, h, w, far, same, j.waits);
        listed = λ h. ground (arith, h, b, r, w, far, j.listed h);
      }

  itself-judged :
      one_of (entry_id y) y.node.dependencies ≡ false
      → (one_of (entry_id y) (node_ids s.ready)
          || one_of (entry_id y) s.blocked
          || one_of (entry_id y) s.waiting)
        ≡ false
      → Judges es y (consider es y s)
  itself-judged n empty =
      let b = consider-blocked es y s (entry_id y) in
      let r = consider-ready es y s (entry_id y) in
      let w = consider-waiting es y s (entry_id y) in
      let same = doomed-same y n in
      let own = eq_refl (entry_id y) in
      record {
        stops = ground (arith, b, own, same, empty);
        starts = λ h. ground (arith, h, r, own, same, empty);
        waits = λ h. ground (arith, h, w, own, same, empty);
        listed = λ h. ground (arith, h, b, r, w, own, empty);
      }

none-ne : {A : Type 0} {x : A} → ¬ (none ≡ some x)
none-ne h = absurd (cc)

some_injective : {A : Type 0} {x y : A} → some x ≡ some y → x ≡ y
some_injective h = cc

-- One round, on a task whose dependencies were considered before.
module _ (es : List Entry) (before : List String) (y : String) (s : Slate)
    (new : one_of y before ≡ false) (f : IsSoFar es before s) where
  the_entry :
      (x : String) (a : Entry)
      → select entry_id x es ≡ some a
      → (x == y) ≡ true
      → (e : Entry) → select entry_id y es ≡ some e
      → e ≡ a
  the_entry x a h same e there =
      some_injective (sym there ∙ ap (λ k. select entry_id k es) (sym ((eq_iff x y).0 same)) ∙ h)

  round :
      (e : Entry)
      → select entry_id y es ≡ some e
      → ((d : String) → one_of d e.node.dependencies ≡ true → one_of d before ≡ true)
      → IsSoFar es (y ∷ before) (consider es e s)
  unfolding one_of
  round e there deps =
      let name : entry_id e ≡ y = select-key entry_id y es e there in
      let free : one_of (entry_id e) e.node.dependencies ≡ false =
        elim (Bool-cases (one_of (entry_id e) e.node.dependencies)) [
          | inl m ↦
              absurd (ground (arith, deps (entry_id e) m, ap (λ k. one_of k before) name, new))
          | inr m ↦ m
        ] in
      record {
        judged = λ x a h m. elim (Bool-cases (x == y)) [
          | inl same ↦
              subst (λ z. Judges es z (consider es e s)) (the_entry x a h same e there)
                (itself-judged es e s free (
                  subst
                    (λ k.
                      (one_of k (node_ids s.ready) || one_of k s.blocked || one_of k s.waiting)
                      ≡ false)
                    (sym name) (f.within y new)))
          | inr far ↦
              let id = select-key entry_id x es a h in
              let old : one_of x before ≡ true = ground (arith, m, far) in
              others-judged es e s a (ap (λ k. k == entry_id e) id ∙ ap (λ k. x == k) name ∙ far)
                (elim (Bool-cases (one_of (entry_id e) a.node.dependencies)) [
                  | inl k ↦ absurd (
                      ground (
                        arith,
                        f.closed x a h old (entry_id e) k,
                        ap (λ j. one_of j before) name,
                        new,
                      ))
                  | inr k ↦ k
                ])
                (f.judged x a h old)
        ];
        closed = λ x a h m d k. elim (Bool-cases (x == y)) [
          | inl same ↦
              let k' =
                subst (λ z. one_of d z.node.dependencies ≡ true)
                  (sym (the_entry x a h same e there)) k in
              ground (arith, deps d k')
          | inr far ↦ ground (arith, f.closed x a h (ground (arith, m, far)) d k)
        ];
        within = λ x m. ground (
          arith,
          m,
          f.within x (ground (arith, m)),
          consider-blocked es e s x,
          consider-ready es e s x,
          consider-waiting es e s x,
          eq_iff x y,
          eq_iff x (entry_id e),
          name,
        );
      }

  no_entry :
      (x : String) (a : Entry)
      → select entry_id x es ≡ some a
      → (x == y) ≡ true
      → ¬ (select entry_id y es ≡ none)
  no_entry x a h same gone =
      none-ne (sym gone ∙ ap (λ k. select entry_id k es) (sym ((eq_iff x y).0 same)) ∙ h)

  -- A text that names no task (there is none in the order of a graph).
  no_round : select entry_id y es ≡ none → IsSoFar es (y ∷ before) s
  unfolding one_of
  no_round gone = record {
    judged = λ x a h m. elim (Bool-cases (x == y)) [
      | inl same ↦ absurd (no_entry x a h same gone)
      | inr far ↦ f.judged x a h (ground (arith, m, far))
    ];
    closed = λ x a h m d k. elim (Bool-cases (x == y)) [
      | inl same ↦ absurd (no_entry x a h same gone)
      | inr far ↦ ground (arith, f.closed x a h (ground (arith, m, far)) d k)
    ];
    within = λ x m. f.within x (ground (arith, m));
  }

  pub one_round :
      ((e : Entry)
        → select entry_id y es ≡ some e
        → (d : String) → one_of d e.node.dependencies ≡ true
        → one_of d before ≡ true)
      → IsSoFar es (y ∷ before) (consider_id es (select entry_id y es) s)
  unfolding consider_id
  one_round deps = elim (Option-cases (select entry_id y es)) [
    | inl gone ↦ rw gone (no_round gone)
    | inr (e, there) ↦ rw there (round e there (deps e there))
  ]
