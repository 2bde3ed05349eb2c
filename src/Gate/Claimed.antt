-- ===== src/Gate/Claimed.antt =====
-- What the stages of `execute` guarantee that take the grant: after them it is consumed, its nonce
-- too, and the attempt is RUNNING; where they raise, no executor was called.
use aegis_forge.Prelude.{
  String, ◌≡◌, refl, sym, ap, ◌∙◌, subst, inl, inr, true, false, some, [], ◌∷◌, ◌++◌, arith,
  eq_refl, Bool-cases,
}
use aegis_forge.Prelude.Result.{Result, ok, err}
use aegis_forge.Prelude.Triple.{Triple, Post, bind}
use aegis_forge.Prelude.Table.{has_key}
use aegis_forge.Prelude.Table.Laws.{has_key-append}
use aegis_forge.Attempt.State.{AttemptState, leased, running, allowed}
use aegis_forge.Attempt.Defs.{Attempt, AttemptError, create}
use aegis_forge.Attempt.Invariant
use aegis_forge.Grant.Store.{active, consumed, status, consume}
use aegis_forge.Grant.History
use aegis_forge.Grant.Once.{finalize_lem, consumption, consume-status}
use aegis_forge.Gate.Artifacts.{CapabilityGrant, Library}
use aegis_forge.Gate.World.{Consumption, World, Call, GateError, replayed_grant, attempt_raised}
use aegis_forge.Gate.Execute.{
  request, open_attempt, settle, consume_grant, insert_consumption, take_grant, pass_on, claim,
  wrapped, details,
}
use aegis_forge.Gate.Execute
use aegis_forge.Gate.Stages.{Still, Moved, move_Triple, create_Triple}

module _ (lib : Library) (w : World) (v : Invariant.IsValid w.attempts)
    (u : History.IsValid w.grants) (c : Call) (g : CapabilityGrant) where
  abbrev pub Unopened : GateError → World → Type 0
  Unopened e s =
      Still w s
      × ((y : AttemptError) × ((create (request lib c g) w.attempts).0 ≡ err y) × (e ≡ wrapped y))

  abbrev pub Replayed : GateError → World → Type 0
  Replayed e s =
      Still w s × ((e ≡ replayed_grant) × (has_key Consumption.nonce g.nonce w.consumptions ≡ true))

  -- Nothing was taken so far, and the grant is, or is no longer, ACTIVE.
  abbrev pub Active : World → Type 0
  Active s = (s.consumptions ≡ w.consumptions) × (status g.grant_id s.grants ≡ some active)

  abbrev pub Consumed : World → Type 0
  Consumed s = (s.consumptions ≡ w.consumptions) × (status g.grant_id s.grants ≡ some consumed)

  pub open_Triple :
      Triple
        (λ s. Still w s × ((s.attempts ≡ w.attempts) × Active s))
        (open_attempt lib c g)
        (λ a. Moved w c.fresh a leased Active)
        Unopened
  unfolding open_attempt allowed
  open_Triple =
      bind (create_Triple w c.fresh wrapped (request lib c g) refl (λ s t p. p))
        (λ a. move_Triple w c.fresh v wrapped a leased _ (λ s t p. p) refl)

  consume_active :
      (s : World) (at : String)
      → Still w s
      → status g.grant_id s.grants ≡ some active
      → (consume g.grant_id at s.grants).0 ≡ ok true
  consume_active s at q h =
      let valid = History.Keeps.valid (History.Reach-Keeps q.grants) u in
      ap (λ x. x.0) (finalize_lem g.grant_id at "" 0 s.grants valid).0
      ∙ ap (λ o. (consumption g.grant_id at s.grants o).0) h

  consume_Triple :
      {R : GateError → World → Type 0} {st : AttemptState} (a : Attempt)
      → Triple
          (Moved w c.fresh a st Active)
          (consume_grant lib c a g)
          (λ x. Moved w c.fresh a st Consumed)
          R
  unfolding consume_grant settle
  consume_Triple a = record {
    holds = λ s p.
        let (q, (held, (was, (own, (k, h))))) = p in
        let at = lib.isoformat c.now in
        let valid = History.Keeps.valid (History.Reach-Keeps q.grants) u in
        let done = consume_active s at q h in
        rw done (
          record {
            ran = q.ran;
            authority = q.authority;
            grants = History.next q.grants (History.consumed_by g.grant_id at refl);
            attempts = q.attempts;
            kept = q.kept;
          },
          (held, (was, (own, (k, consume-status g.grant_id s.grants valid at done)))),
        );
  }

  -- The nonce was new, and is taken.
  abbrev pub Spent : World → Type 0
  Spent s =
      (status g.grant_id s.grants ≡ some consumed)
      × ((has_key Consumption.nonce g.nonce s.consumptions ≡ true)
          × (has_key Consumption.nonce g.nonce w.consumptions ≡ false))

  inserted :
      (row : Consumption) (s : World)
      → Still w s
      → Still w (record s { consumptions = s.consumptions ++ row ∷ [] })
  inserted row s q = record {
    ran = q.ran;
    authority = q.authority;
    grants = q.grants;
    attempts = q.attempts;
    kept = λ n h. ground (arith, has_key-append Consumption.nonce n s.consumptions row, q.kept n h);
  }

  insert_Triple :
      {st : AttemptState} (a : Attempt)
      → Triple
          (Moved w c.fresh a st Consumed)
          (insert_consumption (Execute.consumption lib c g))
          (λ x. Moved w c.fresh a st Spent)
          Replayed
  unfolding insert_consumption
  insert_Triple a = record {
    holds = λ s p.
        let (q, (held, (was, (own, facts)))) = p in
        elim (Bool-cases (has_key Consumption.nonce g.nonce s.consumptions)) [
          | inl e ↦ rw e (q, (refl, ap (has_key Consumption.nonce g.nonce) (sym facts.0) ∙ e))
          | inr e ↦ rw e (
            inserted (Execute.consumption lib c g) s q,
            (
              held,
              (
                was,
                (
                  own,
                  (
                    facts.1,
                    (
                      has_key-append Consumption.nonce g.nonce s.consumptions
                            (Execute.consumption lib c g)
                          ∙ rw (eq_refl g.nonce),
                      ap (has_key Consumption.nonce g.nonce) (sym facts.0) ∙ e,
                    ),
                  ),
                ),
              ),
            ),
          )
        ];
  }

  take_Triple :
      (a : Attempt)
      → Triple
          (Moved w c.fresh a leased Active)
          (take_grant lib c g a)
          (λ a'. Moved w c.fresh a' running Spent)
          Replayed
  unfolding take_grant allowed
  take_Triple a = bind (consume_Triple a) (λ _.
      bind (insert_Triple a)
        (λ _. move_Triple w c.fresh v attempt_raised a running _ (λ s t p. p) refl))

  pass_on-Post :
      (a : Attempt) (r : Result GateError Attempt) (s : World)
      → Post (λ a'. Moved w c.fresh a' running Spent) Replayed (r, s)
      → Post (λ a'. Moved w c.fresh a' running Spent) Replayed (pass_on lib c a r s)
  unfolding pass_on
  pass_on-Post a (ok a') s h = h
  pass_on-Post a (err e) s h =
      subst
        (λ x. Post (λ a'. Moved w c.fresh a' running Spent) Replayed (pass_on lib c a (err x) s))
        (sym h.1.0) (h.0, (refl, h.1.1))

  pub claim_Triple :
      (a : Attempt)
      → Triple
          (Moved w c.fresh a leased Active)
          (claim lib c g a)
          (λ a'. Moved w c.fresh a' running Spent)
          Replayed
  unfolding claim
  claim_Triple a = record {
    holds = λ s p.
        pass_on-Post a (take_grant lib c g a s).0 (take_grant lib c g a s).1
          (Triple.holds (take_Triple a) s p);
  }
