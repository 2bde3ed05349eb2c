-- ===== src/Gate/Taken.antt =====
-- What the claim of a grant does in any world, whatever other connections wrote before.
use aegis_forge.Prelude.{
  String, ◌≡◌, ◌≢◌, refl, sym, ap, ◌∙◌, subst, ◌⊎◌, inl, inr, Bool, true, false, Option, some, none,
  arith, eq_refl, Bool-cases,
}
use aegis_forge.Prelude.Result.{Result, ok, err, raise, ◌>>=◌}
use aegis_forge.Prelude.Triple.{Triple, Post, bind, weaken, cases_of, map_err-err}
use aegis_forge.Prelude.Table.{has_key}
use aegis_forge.Prelude.Table.Laws.{has_key-append}
use aegis_forge.Attempt.Defs.{Attempt, AttemptError, AttemptAction}
use aegis_forge.Grant.Store.{
  Grants, GrantStatus, GrantError, active, consumed, revoked, status, consume,
}
use aegis_forge.Grant.History
use aegis_forge.Grant.Once.{finalize_lem, consumption, consume-status}
use aegis_forge.Gate.Artifacts.{CapabilityGrant, Library}
use aegis_forge.Gate.World.{
  Consumption, World, Call, GateError, replayed_grant, attempt_raised, on_attempts,
}
use aegis_forge.Gate.Execute.{
  settle, consume_grant, insert_consumption, take_grant, pass_on, claim, details, abort,
}
use aegis_forge.Gate.Execute
use aegis_forge.Gate.Stages.{Stable}

-- No executor was called, the grants moved by steps of their store, and no nonce was freed.
pub record Kept (w s : World) : Type 0 where
  pub ran : s.ran ≡ w.ran
  pub grants : History.Reach w.grants s.grants
  pub nonces :
      (n : String)
      → has_key Consumption.nonce n w.consumptions ≡ true
      → has_key Consumption.nonce n s.consumptions ≡ true

pub Kept-refl : (w : World) → Kept w w
Kept-refl w = record { ran = refl; grants = History.here; nonces = λ n h. h }

-- A method of the attempt store keeps what says nothing of the attempts.
pub on_attempts-Triple :
    {A : Type 0} {P : World → Type 0} (e : AttemptError → GateError) (m : AttemptAction A)
    → Stable P
    → Triple P (on_attempts e m) (λ a. P) (λ x s. P s × ((y : AttemptError) × (x ≡ e y)))
unfolding on_attempts
on_attempts-Triple e m k =
    cases_of (on_attempts e m) (λ s p a h. k s (m s.attempts).1 p)
      (λ s p x h.
        let (y, from, same) = map_err-err e (m s.attempts).0 h in
        (k s (m s.attempts).1 p, (y, same)))

consumption-active :
    (i at : String) (t : Grants) (o : Option GrantStatus) {b : Bool}
    → (consumption i at t o).0 ≡ ok b
    → (o ≡ some active) × (b ≡ true)
consumption-active i at t none h = absurd (cc)
consumption-active i at t (some active) h = (refl, cc)
consumption-active i at t (some consumed) h = absurd (cc)
consumption-active i at t (some revoked) h = absurd (cc)

consumption-refused :
    (i at : String) (t : Grants) (o : Option GrantStatus) {e : GrantError}
    → (consumption i at t o).0 ≡ err e
    → o ≢ some active
consumption-refused i at t none h k = absurd (cc)
consumption-refused i at t (some active) h k = absurd (cc)
consumption-refused i at t (some consumed) h k = absurd (cc)
consumption-refused i at t (some revoked) h k = absurd (cc)

-- The claim of a grant: it was ACTIVE and is CONSUMED, and its nonce was new and is taken.
pub record IsTaken (g : CapabilityGrant) (b s : World) : Type 0 where
  pub kept : Kept b s
  pub was_active : status g.grant_id b.grants ≡ some active
  pub is_consumed : status g.grant_id s.grants ≡ some consumed
  pub was_new : has_key Consumption.nonce g.nonce b.consumptions ≡ false
  pub is_taken : has_key Consumption.nonce g.nonce s.consumptions ≡ true

-- Why a claim raises: the grant was not ACTIVE, or its nonce was taken, or the attempt was moved.
abbrev pub NoClaim : CapabilityGrant → World → GateError → Type 0
NoClaim g b e =
    (status g.grant_id b.grants ≢ some active)
    ⊎ (((e ≡ replayed_grant) × (has_key Consumption.nonce g.nonce b.consumptions ≡ true))
        ⊎ ((y : AttemptError) × (e ≡ attempt_raised y)))

module _ (lib : Library) (c : Call) (g : CapabilityGrant) (b : World)
    (v : History.IsValid b.grants) where
  abbrev pub Lost : GateError → World → Type 0
  Lost e s = Kept b s × NoClaim g b e

  Kept-Stable : Stable (Kept b)
  Kept-Stable s t p = record { ran = p.ran; grants = p.grants; nonces = p.nonces }

  abbrev Got : World → Type 0
  Got s =
      Kept b s
      × ((s.consumptions ≡ b.consumptions)
          × ((status g.grant_id b.grants ≡ some active)
              × (status g.grant_id s.grants ≡ some consumed)))

  refused_Triple :
      {Q : Unit {0} → World → Type 0} (a : Attempt) (e : GrantError)
      → status g.grant_id b.grants ≢ some active
      → Triple (Kept b) (settle lib c a (err e)) Q Lost
  unfolding settle abort
  refused_Triple a e n =
      bind
        (weaken (λ s p. p) (λ x s p. p) (λ x s p. (p.0, inl n))
          (on_attempts-Triple attempt_raised _ Kept-Stable))
        (λ _. record { holds = λ s p. (p, inl n) })

  consume-Post :
      (a : Attempt) (r : Result GrantError Bool)
      → (consume g.grant_id (lib.isoformat c.now) b.grants).0 ≡ r
      → Post
          (λ u. Got)
          Lost
          (settle lib c a r
            (record b { grants = (consume g.grant_id (lib.isoformat c.now) b.grants).1 }))
  unfolding settle
  consume-Post a (ok x) h =
      let at = lib.isoformat c.now in
      let (was, sure) =
        consumption-active g.grant_id at b.grants (status g.grant_id b.grants)
          (ap (λ y. y.0) (sym (finalize_lem g.grant_id at "" 0 b.grants v).0) ∙ h) in
      (
        record {
          ran = refl;
          grants = History.next History.here (History.consumed_by g.grant_id at refl);
          nonces = λ n k. k;
        },
        (refl, (was, consume-status g.grant_id b.grants v at (h ∙ ap ok sure))),
      )
  consume-Post a (err e) h =
      let at = lib.isoformat c.now in
      Triple.holds
        (refused_Triple a e (
          consumption-refused g.grant_id at b.grants (status g.grant_id b.grants)
            (ap (λ y. y.0) (sym (finalize_lem g.grant_id at "" 0 b.grants v).0) ∙ h)))
        _
        (record {
          ran = refl;
          grants = History.next History.here (History.consumed_by g.grant_id at refl);
          nonces = λ n k. k;
        })

  consume_Triple : (a : Attempt) → Triple (λ s. s ≡ b) (consume_grant lib c a g) (λ u. Got) Lost
  unfolding consume_grant
  consume_Triple a = record {
    holds = λ s p.
        subst (λ x. Post (λ u. Got) Lost (consume_grant lib c a g x)) (sym p)
          (consume-Post a (consume g.grant_id (lib.isoformat c.now) b.grants).0 refl);
  }

  insert_Triple :
      Triple Got (insert_consumption (Execute.consumption lib c g)) (λ u. IsTaken g b) Lost
  unfolding insert_consumption
  insert_Triple = record {
    holds = λ s p.
        let (q, (same, (was, now))) = p in
        let row = Execute.consumption lib c g in
        elim (Bool-cases (has_key Consumption.nonce g.nonce s.consumptions)) [
          | inl e ↦
              rw e (q, inr (inl (refl, ap (has_key Consumption.nonce g.nonce) (sym same) ∙ e)))
          | inr e ↦ rw e (record {
            kept = record {
              ran = q.ran;
              grants = q.grants;
              nonces = λ n h.
                  ground
                    (arith, has_key-append Consumption.nonce n s.consumptions row, q.nonces n h);
            };
            was_active = was;
            is_consumed = now;
            was_new = ap (has_key Consumption.nonce g.nonce) (sym same) ∙ e;
            is_taken =
                has_key-append Consumption.nonce g.nonce s.consumptions row ∙ rw (eq_refl g.nonce);
          })
        ];
  }

  IsTaken-Stable : Stable (IsTaken g b)
  IsTaken-Stable s t p = record {
    kept = Kept-Stable s t p.kept;
    was_active = p.was_active;
    is_consumed = p.is_consumed;
    was_new = p.was_new;
    is_taken = p.is_taken;
  }

  take_Triple : (a : Attempt) → Triple (λ s. s ≡ b) (take_grant lib c g a) (λ a'. IsTaken g b) Lost
  unfolding take_grant
  take_Triple a = bind (consume_Triple a) (λ _. bind insert_Triple (λ _.
      weaken (λ s p. p) (λ x s p. p) (λ x s p. (IsTaken.kept p.0, inr (inr p.1)))
        (on_attempts-Triple attempt_raised _ IsTaken-Stable)))

  abort_Triple :
      (a : Attempt) (y : AttemptError) (text : String)
      → Triple
          (Kept b)
          (◌>>=◌ (abort a c.now text) (λ _. raise {A = Attempt} (attempt_raised y)))
          (λ a'. IsTaken g b)
          Lost
  unfolding abort
  abort_Triple a y text =
      bind
        (weaken (λ s p. p) (λ x s p. p) (λ x s p. (p.0, inr (inr p.1)))
          (on_attempts-Triple attempt_raised _ Kept-Stable))
        (λ _. record { holds = λ s p. (p, inr (inr (y, refl))) })

  pass_on-Post :
      (a : Attempt) (r : Result GateError Attempt) (s : World)
      → Post (λ a'. IsTaken g b) Lost (r, s)
      → Post (λ a'. IsTaken g b) Lost (pass_on lib c a r s)
  unfolding pass_on
  pass_on-Post a (ok a') s h = h
  pass_on-Post a (err (attempt_raised y)) s h = Triple.holds (abort_Triple a y _) s h.0
  pass_on-Post a (err e) s h = h

  -- The claim, from the world `b`.
  pub claim_takes : (a : Attempt) → Post (λ a'. IsTaken g b) Lost (claim lib c g a b)
  unfolding claim
  claim_takes a =
      pass_on-Post a (take_grant lib c g a b).0 (take_grant lib c g a b).1
        (Triple.holds (take_Triple a) b refl)
