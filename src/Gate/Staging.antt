-- ===== src/Gate/Staging.antt =====
-- What the stages of `execute` do to the world, each by itself.
use aegis_forge.Prelude.{◌⊎◌, ◌++◌, String, ◌≡◌, refl, ap, ◌∙◌, inl, inr, [], ◌∷◌}
use aegis_forge.Prelude.Triple.{Triple, bind, weaken, of_ok, of_err}
use aegis_forge.Prelude.Result.{Result, Result-cases, ok, err}
use aegis_forge.Prelude.Table.{has_key}
use aegis_forge.Attempt.Defs.{Attempt, AttemptError, AttemptAction}
use aegis_forge.Grant.History
use aegis_forge.Gate.Artifacts.{CapabilityGrant, Library}
use aegis_forge.Gate.World.{
  Consumption, World, Gate, Raised, Call, GateError, GateAction, on_attempts, attempt_raised,
}
use aegis_forge.Gate.Execute.{
  authorize, open_attempt, claim, call_executor, call_claimed, finish, run_of, wrapped,
}
use aegis_forge.Gate.Authorized.{Quiet, authorize_lem}
use aegis_forge.Gate.Taken.{Kept, Kept-refl, IsTaken, Lost, claim_takes, on_attempts-Triple}

-- What the stages do to the world.
pub authorize-Kept :
    (lib : Library) (gate : Gate) (c : Call) (w : World) → Kept w (authorize lib gate c w).1
authorize-Kept lib gate c w =
    let t = authorize_lem lib gate c w in
    elim (Result-cases (authorize lib gate c w).0) [
      | inl (g, e) ↦ Quiet-Kept ((of_ok _ _ t g e).0)
      | inr (x, e) ↦ Quiet-Kept (of_err _ _ t x e)
    ]
  where
    Quiet-Kept : {s : World} → Quiet w s → Kept w s
    Quiet-Kept q = record {
      ran = q.ran;
      grants = q.grants;
      nonces = λ n h. ap (has_key Consumption.nonce n) q.consumptions ∙ h;
    }

-- Only the attempts change.
only_attempts :
    {A : Type 0} (w : World) (m : GateAction A)
    → Triple (Kept w) m (λ a. Kept w) (λ e. Kept w)
    → Kept w (m w).1
only_attempts w m t = elim (Result-cases (m w).0) [
  | inl (a, e) ↦ of_ok _ _ (Triple.holds t w (Kept-refl w)) a e
  | inr (x, e) ↦ of_err _ _ (Triple.holds t w (Kept-refl w)) x e
]

attempts-Triple :
    {A : Type 0} (w : World) (e : AttemptError → GateError) (m : AttemptAction A)
    → Triple (Kept w) (on_attempts e m) (λ a. Kept w) (λ x. Kept w)
attempts-Triple w e m =
    weaken (λ s p. p) (λ a s p. p) (λ x s p. p.0)
      (on_attempts-Triple e m
        (λ s t p. record { ran = p.ran; grants = p.grants; nonces = p.nonces }))

pub open_attempt-Kept :
    (lib : Library) (c : Call) (g : CapabilityGrant) (w : World) → Kept w (open_attempt lib c g w).1
unfolding open_attempt
open_attempt-Kept lib c g w =
    only_attempts w (open_attempt lib c g)
      (bind (attempts-Triple w wrapped _) (λ a. attempts-Triple w wrapped _))

pub finish-Kept :
    (lib : Library) (c : Call) (g : CapabilityGrant) (a : Attempt) (r : Result Raised String)
    (w : World)
    → Kept w (finish lib c g a r w).1
unfolding finish
finish-Kept lib c g a r w =
    only_attempts w (finish lib c g a r)
      (bind (attempts-Triple w attempt_raised _) (λ x. record { holds = λ s p. p }))

-- A claim that raises calls no executor; one that succeeds calls it for a grant that was taken.
pub call_claimed_cases :
    (lib : Library) (c : Call) (g : CapabilityGrant) (a : Attempt) (w : World)
    (v : History.IsValid w.grants)
    → ((e : GateError) × (call_claimed lib c g a w ≡ (err e, (claim lib c g a w).1))
        × Lost lib c g w v e (claim lib c g a w).1)
      ⊎ ((a' : Attempt) × (call_claimed lib c g a w ≡ (
        ok (a', c.executor),
        record (claim lib c g a w).1 { ran = (claim lib c g a w).1.ran ++ run_of lib c g ∷ [] },
      ))
          × IsTaken g w (claim lib c g a w).1)
unfolding call_claimed call_executor
call_claimed_cases lib c g a w v =
    let t = claim_takes lib c g w v a in
    elim (Result-cases (claim lib c g a w).0) [
      | inr (e, h) ↦ inl (e, rw h refl, of_err _ _ t e h)
      | inl (a', h) ↦ inr (a', rw h refl, of_ok _ _ t a' h)
    ]
