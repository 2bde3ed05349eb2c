-- ===== src/Gate/Executed.antt =====
-- What one call of `execute` does where no other connection writes meanwhile: all of it, or no call of
-- the executor.
use aegis_forge.Prelude.{String, ◌≡◌, refl, sym, ap, ◌∙◌, subst, true, false, some, [], ◌∷◌, ◌++◌}
use aegis_forge.Prelude.Result.{Result, ok, err, lift, ◌>>=◌}
use aegis_forge.Prelude.Triple.{Triple, Post, bind, weaken, cases_of, at_ok, at_err}
use aegis_forge.Prelude.Table.{select, has_key}
use aegis_forge.Attempt.State.{running, allowed}
use aegis_forge.Attempt.Defs.{Attempt, AttemptError, create, apply_change}
use aegis_forge.Attempt.Invariant
use aegis_forge.Attempt.TransitionLaws.{moved, select-moved, apply_change-state}
use aegis_forge.Attempt.Reach
use aegis_forge.Grant.Store.{consumed, status}
use aegis_forge.Grant.History
use aegis_forge.Gate.Artifacts.{CapabilityGrant, Library}
use aegis_forge.Gate.World.{
  Consumption, World, Gate, Raised, Call, Receipt, GateError, on_attempts, replayed_grant,
}
use aegis_forge.Gate.Execute.{
  authorize, check_executor, call_executor, error_of, terminal, receipt_of, run_of, run, finish,
  execute, open_attempt, claim, status_text, details, wrapped, request,
}
use aegis_forge.Gate.Authorized.{Quiet, Quiet-refl, IsAuthorized, authorize-Triple}
use aegis_forge.Gate.Stages.{Still, Quiet-Still, Moved, transition_moves}
use aegis_forge.Gate.Claimed.{open_Triple, claim_Triple, Active, Spent}

-- The executor was called once, for a grant that was authorized and is consumed now, under a nonce
-- that was new; its attempt is over, with the receipt.
pub record IsExecuted (lib : Library) (gate : Gate) (c : Call) (w : World) (g : CapabilityGrant)
    (r : Receipt) (s : World) : Type 0 where
  pub granted : (authorize lib gate c w).0 ≡ ok g
  pub authorized_in : World
  pub authorized : IsAuthorized lib gate c g authorized_in
  pub before : Quiet w authorized_in
  pub receipt : r ≡ receipt_of lib c g c.executor
  pub ran : s.ran ≡ w.ran ++ run_of lib c g ∷ []
  pub grants : History.Reach w.grants s.grants
  pub attempts : Reach.Reach w.attempts s.attempts
  pub consumed_now : status g.grant_id s.grants ≡ some consumed
  pub nonce_new : has_key Consumption.nonce g.nonce w.consumptions ≡ false
  pub nonce_taken : has_key Consumption.nonce g.nonce s.consumptions ≡ true
  pub kept :
      (n : String)
      → has_key Consumption.nonce n w.consumptions ≡ true
      → has_key Consumption.nonce n s.consumptions ≡ true
  pub row : Attempt
  pub there : select Attempt.attempt_id c.fresh s.attempts ≡ some row
  pub over : row.state ≡ terminal lib r

-- Why a call raised.
pub data Refusal (lib : Library) (gate : Gate) (c : Call) (w : World) (e : GateError) : Type 0 where
  unauthorized : (authorize lib gate c w).0 ≡ err e → Refusal lib gate c w e
  unfit_executor : check_executor lib c ≡ err e → Refusal lib gate c w e
  unopened :
      (g : CapabilityGrant) (x : AttemptError)
      → (authorize lib gate c w).0 ≡ ok g
      → (create (request lib c g) w.attempts).0 ≡ err x
      → e ≡ wrapped x
      → Refusal lib gate c w e
  replayed :
      (g : CapabilityGrant)
      → (authorize lib gate c w).0 ≡ ok g
      → has_key Consumption.nonce g.nonce w.consumptions ≡ true
      → e ≡ replayed_grant
      → Refusal lib gate c w e

-- Either end of an attempt follows RUNNING.
allowed-terminal :
    (lib : Library) (c : Call) (g : CapabilityGrant) (r : Result Raised String)
    → allowed running (terminal lib (receipt_of lib c g r)) ≡ true
unfolding allowed terminal status_text
allowed-terminal lib c g (ok x) = refl
allowed-terminal lib c g (err e) = refl

module _ (lib : Library) (gate : Gate) (c : Call) (w : World) (v : Invariant.IsValid w.attempts)
    (u : History.IsValid w.grants) where
  abbrev Refused : GateError → World → Type 0
  Refused e s = Still w s × Refusal lib gate c w e

  abbrev Done : Receipt → World → Type 0
  Done r s = (g : CapabilityGrant) × IsExecuted lib gate c w g r s

  run_Triple :
      (g : CapabilityGrant) (a : Attempt) (t : World)
      → (authorize lib gate c w).0 ≡ ok g
      → Quiet w t
      → IsAuthorized lib gate c g t
      → Triple
          (Moved w c.fresh a running (Spent lib w v u c g))
          (run lib c g a)
          (IsExecuted lib gate c w g)
          Refused
  unfolding run finish call_executor on_attempts
  run_Triple g a t by q auth = record {
    holds = λ s p.
        let (still, (held, (was, (own, (spent, (taken, new)))))) = p in
        let valid = Reach.Reach-IsValid v still.attempts in
        let end = terminal lib (receipt_of lib c g c.executor) in
        let d = record (details c.now) {
          receipt_id = c.receipt_id;
          error = error_of lib c.executor;
        } in
        let moves =
          transition_moves a end d s.attempts valid held
            (ap (λ x. allowed x end) was ∙ allowed-terminal lib c g c.executor) in
        rw moves (record {
          granted = by;
          authorized_in = t;
          authorized = auth;
          before = q;
          receipt = refl;
          ran = ap (λ x. x ++ run_of lib c g ∷ []) still.ran;
          grants = still.grants;
          attempts =
              Reach.next still.attempts
                (Reach.moved a.attempt_id end d (ap (λ x. x.1) (sym moves)));
          consumed_now = spent;
          nonce_new = new;
          nonce_taken = taken;
          kept = still.kept;
          row = apply_change a end d a;
          there =
              ap (λ j. select Attempt.attempt_id j (moved a end d s.attempts)) (sym own)
              ∙ select-moved a end d s.attempts held;
          over = apply_change-state a a end d;
        });
  }

  -- The rest of `execute`.
  after_authorize :
      (g : CapabilityGrant) (t : World)
      → (authorize lib gate c w).0 ≡ ok g
      → Quiet w t
      → IsAuthorized lib gate c g t
      → Triple
          (λ s. s ≡ t)
          (◌>>=◌ (lift (check_executor lib c)) (λ _.
            ◌>>=◌ (open_attempt lib c g) (λ a. ◌>>=◌ (claim lib c g a) (λ a'. run lib c g a'))))
          Done
          Refused
  after_authorize g t by q auth =
      let start : Still w t × ((t.attempts ≡ w.attempts) × Active lib w v u c g t) =
        (Quiet-Still w t q, (q.attempts, (q.consumptions, auth.usable))) in
      bind
        (cases_of (lift (check_executor lib c))
          (λ s p x e.
            subst (λ y. Still w y × ((y.attempts ≡ w.attempts) × Active lib w v u c g y)) (sym p)
              start)
          (λ s p x e. (subst (Still w) (sym p) start.0, unfit_executor e)))
        (λ _.
          bind
            (weaken (λ s p. p) (λ a s p. p) (λ e s p. (p.0, unopened g p.1.0 by p.1.1 p.1.2))
              (open_Triple lib w v u c g))
            (λ a.
              bind
                (weaken (λ s p. p) (λ a s p. p) (λ e s p. (p.0, replayed g by p.1.1 p.1.0))
                  (claim_Triple lib w v u c g a))
                (λ a'.
                  weaken (λ s p. p) (λ r s p. (g, p)) (λ e s h. h) (run_Triple g a' t by q auth))))

  execute_Triple : Triple (λ s. s ≡ w) (execute lib gate c) Done Refused
  unfolding execute
  execute_Triple =
      let first = authorize-Triple lib gate c w in
      bind
        {Q = λ g s. ((authorize lib gate c w).0 ≡ ok g) × (Quiet w s × IsAuthorized lib gate c g s)}
        (cases_of (authorize lib gate c)
          (λ s p g e. (
            subst (λ x. (authorize lib gate c x).0 ≡ ok g) p e,
            at_ok first s (subst (Quiet w) (sym p) (Quiet-refl w), tt) g e,
          ))
          (λ s p x e. (
            Quiet-Still w _ (at_err first s (subst (Quiet w) (sym p) (Quiet-refl w), tt) x e),
            unauthorized (subst (λ y. (authorize lib gate c y).0 ≡ err x) p e),
          )))
        (λ g. record { holds = λ s p. Triple.holds (after_authorize g s p.0 p.1.0 p.1.1) s refl })

-- `execute` on every path, from tables with their invariants, where nothing else writes between its
-- stages. With a receipt, the executor was called
-- once, for a grant that was authorized, and all that goes with it is written. With an error, no
-- executor was called, and the error has one of four causes: the grant is not authorized, the
-- executor is not named, the attempt cannot be opened, or the nonce was consumed before.
pub execute_all_or_nothing :
    (lib : Library) (gate : Gate) (c : Call) (w : World)
    → Invariant.IsValid w.attempts
    → History.IsValid w.grants
    → Post
        (λ r s. (g : CapabilityGrant) × IsExecuted lib gate c w g r s)
        (λ e s. Still w s × Refusal lib gate c w e)
        (execute lib gate c w)
execute_all_or_nothing lib gate c w v u = Triple.holds (execute_Triple lib gate c w v u) w refl
