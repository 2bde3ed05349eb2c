-- ===== src/Authority/Moves.antt =====
-- The moves of the authority machine: what each keeps, who is ELEVATED, and who leaves SUSPENDED.
use aegis_forge.Prelude.{
  String, ◌≡◌, ◌≢◌, refl, ◌⊎◌, inl, inr, Bool, true, false, not, Option, none, some, [], ◌∷◌, ◌++◌,
  arith, ◌==◌, is_empty, if◌then◌else◌,
}
use aegis_forge.Prelude.Result.{Result, ok, err}
use aegis_forge.Authority.Machine.{
  limited, elevated, suspended, AuthorityRecord, AuthorityError, TransitionPolicy, can_promote,
  TrustDecision, Transition, Machine, MachineAction, is_suspended, logged, apply_trust, promote,
  suspend, governance_reset, evaluate_trusted,
}

-- The moves, as what a caller can ask of the machine.
pub data Move : Type 0 where
  trust : Option TrustDecision → Move
  promotion : TransitionPolicy → String → String → Move
  suspension : String → Move
  reset : Move

abbrev pub run_move : Move → MachineAction
run_move (trust d) = apply_trust d
run_move (promotion p reason proof_id) = promote p reason proof_id
run_move (suspension reason) = suspend reason
run_move reset = governance_reset

-- What every successful move does: it logs one transition, from the state before to the state
-- after, in the agent's name, and the machine stays the agent's.
pub record Logs (m : Machine) (t : Transition) (m' : Machine) : Type 0 where
  pub from : t.previous_state ≡ m.account.state
  pub into : t.new_state ≡ m'.account.state
  pub agent : m'.account.agent_id ≡ m.account.agent_id
  pub name : t.agent_id ≡ m.account.agent_id
  pub appended : m'.history ≡ m.history ++ t ∷ []

abbrev Outcome : Type 0
Outcome = Result AuthorityError Transition × Machine

module _ {m m' : Machine} {t : Transition} where
  -- A branch that raises is not the one that succeeded.
  guarded :
      (b : Bool) (x : AuthorityError) (rest : Outcome)
      → (rest ≡ (ok t, m') → Logs m t m')
      → (if b then (err x, m) else rest) ≡ (ok t, m')
      → Logs m t m'
  guarded true x rest f e = absurd (ground arith)
  guarded false x rest f e = f e

  logged-Logs :
      (account : AuthorityRecord) (reason proof_id : String)
      → account.agent_id ≡ m.account.agent_id
      → logged account m.account.state reason proof_id m ≡ (ok t, m')
      → Logs m t m'
  unfolding logged
  logged-Logs account reason proof_id a e = ground arith

  either :
      (b : Bool) (x y : Outcome)
      → (x ≡ (ok t, m') → Logs m t m')
      → (y ≡ (ok t, m') → Logs m t m')
      → (if b then x else y) ≡ (ok t, m')
      → Logs m t m'
  either true x y f g e = f e
  either false x y f g e = g e

pub run_move-Logs :
    (v : Move) (m m' : Machine) (t : Transition) → run_move v m ≡ (ok t, m') → Logs m t m'
unfolding apply_trust promote suspend governance_reset
run_move-Logs (trust none) m m' t e = absurd (ground arith)
run_move-Logs (trust (some d)) m m' t e =
    guarded (is_empty d.proof_id) _ _
      (either (d.status == "TRUSTED") _ _ (logged-Logs _ _ _ refl) (
        either (d.status == "EXPIRED") _ _ (logged-Logs _ _ _ refl) (
          either (d.status == "UNTRUSTED") _ _ (logged-Logs _ _ _ refl)
            (λ x. absurd (ground arith)))))
      e
run_move-Logs (promotion p reason proof_id) m m' t e =
    guarded (is_empty reason) _ _
      (guarded (is_suspended m.account.state) _ _ (
        guarded (not (can_promote p m.account.trusted_outcomes m.account.failed_outcomes)) _ _
          (logged-Logs _ _ _ refl)))
      e
run_move-Logs (suspension reason) m m' t e =
    guarded (is_empty reason) _ _ (logged-Logs _ _ _ refl) e
run_move-Logs reset m m' t e = logged-Logs _ _ _ refl e

-- No trust decision makes an agent ELEVATED that was not, and a promotion does so only where the
-- policy's conditions hold and the agent is not SUSPENDED: ELEVATED is governance's to give.
pub elevated_by_governance :
    (v : Move) (m : Machine)
    → m.account.state ≢ elevated
    → (run_move v m).1.account.state ≡ elevated
    → (p : TransitionPolicy) × (reason : String) × (proof_id : String) × (v
        ≡ promotion p reason proof_id)
      × (is_empty reason ≡ false)
      × (m.account.state ≢ suspended)
      × (can_promote p m.account.trusted_outcomes m.account.failed_outcomes ≡ true)
unfolding apply_trust promote suspend governance_reset logged evaluate_trusted is_suspended
elevated_by_governance (trust none) m n e = absurd (n e)
elevated_by_governance (trust (some d)) m n e = absurd (ground arith)
elevated_by_governance (promotion p reason proof_id) m n e =
    (p, reason, proof_id, refl, ground arith, λ h. ground arith, ground arith)
elevated_by_governance (suspension reason) m n e = absurd (ground arith)
elevated_by_governance reset m n e = absurd (ground arith)

-- Which trust decisions a SUSPENDED agent survives in suspension: with a proof id, TRUSTED keeps it
-- SUSPENDED, but UNTRUSTED and EXPIRED alike put it to LIMITED, without any governance reset.
pub suspended_released :
    (d : TrustDecision) (m : Machine)
    → m.account.state ≡ suspended
    → is_empty d.proof_id ≡ false
    → ((d.status ≡ "TRUSTED" → (run_move (trust (some d)) m).1.account.state ≡ suspended)
        × (((d.status ≡ "UNTRUSTED") ⊎ (d.status ≡ "EXPIRED"))
            → (run_move (trust (some d)) m).1.account.state ≡ limited))
unfolding apply_trust logged evaluate_trusted
suspended_released d m s p =
    (λ e. rw e (rw p (rw s)), λ e. elim e [ inl u ↦ rw u (rw p) | inr u ↦ rw u (rw p) ])
