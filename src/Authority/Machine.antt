-- ===== src/Authority/Machine.antt =====
-- shared/authority_transition.py and the state machine of shared/authority_state.py: how trust
-- decisions and governance move an agent's authority.
use aegis_forge.Prelude.{
  ℕ, ◌+◌, String, Bool, true, false, not, ◌&&◌, Option, none, some, List, [], ◌∷◌, ◌++◌, ◌==◌, ◌≡◌,
  ◌↔◌, arith, eqb, leb, ltb, is_empty, if◌then◌else◌,
}
use aegis_forge.Prelude.Result.{Result, ok, err, Action}

pub data AuthorityState : Type 0 where
  probation limited standard elevated suspended : AuthorityState

position : AuthorityState → ℕ
position probation = 0
position limited = 1
position standard = 2
position elevated = 3
position suspended = 4

unfoldable pub state_eq : AuthorityState → AuthorityState → Bool
unfolding position
state_eq a b = eqb (position a) (position b)

pub state_eq_iff : (a b : AuthorityState) → (state_eq a b ≡ true) ↔ (a ≡ b)
unfolding state_eq
state_eq_iff a b = ground arith

pub data AuthorityError : Type 0 where
  agent_id_required trust_decision_required proof_id_required unknown_trust_status : AuthorityError
  promotion_reason_required suspended_requires_governance_reset : AuthorityError
  elevated_conditions_not_met suspension_reason_required : AuthorityError
  agent_not_registered reset_reason_required policy_version_required : AuthorityError

pub record TransitionPolicy : Type 0 where
  pub min_trusted_outcomes_for_elevated : ℕ
  pub max_failed_outcomes_for_elevated : ℕ
  pub require_governance_for_elevated : Bool

abbrev pub default_transition_policy : TransitionPolicy
default_transition_policy = record {
  min_trusted_outcomes_for_elevated = 3;
  max_failed_outcomes_for_elevated = 0;
  require_governance_for_elevated = true;
}

-- The checks of `__post_init__`.
pub data PolicyError : Type 0 where
  invalid_trusted_threshold : PolicyError

pub check_policy : TransitionPolicy → Result PolicyError TransitionPolicy
check_policy p =
    if ltb p.min_trusted_outcomes_for_elevated 1 then err invalid_trusted_threshold else ok p

-- The new state and the reason. The outcome counts are given to the source's method, and unread.
unfoldable pub evaluate_trusted : AuthorityState → AuthorityState × String
evaluate_trusted suspended = (suspended, "suspended_requires_governance_reset")
evaluate_trusted elevated = (elevated, "elevated_authority_requires_governance_change")
evaluate_trusted _ = (standard, "trusted_attested_outcome")

unfoldable pub can_promote : TransitionPolicy → ℕ → ℕ → Bool
can_promote p trusted failed =
    p.require_governance_for_elevated
    && leb p.min_trusted_outcomes_for_elevated trusted
    && leb failed p.max_failed_outcomes_for_elevated

pub record Transition : Type 0 where
  pub previous_state : AuthorityState
  pub new_state : AuthorityState
  pub reason : String
  pub proof_id : String
  pub agent_id : String

pub record AuthorityRecord : Type 0 where
  pub agent_id : String
  pub state : AuthorityState
  pub trusted_outcomes : ℕ
  pub failed_outcomes : ℕ
  pub last_proof_id : String

pub record Machine : Type 0 where
  pub account : AuthorityRecord
  pub history : List Transition

-- `AuthorityStateMachine(agent_id)`
unfoldable pub new_machine : String → Result AuthorityError Machine
new_machine agent_id =
    if is_empty agent_id
    then err agent_id_required
    else ok (record {
      account = record {
        agent_id = agent_id;
        state = probation;
        trusted_outcomes = 0;
        failed_outcomes = 0;
        last_proof_id = "";
      };
      history = [];
    })

-- The fields of a trust decision that the machine reads.
pub record TrustDecision : Type 0 where
  pub status : String
  pub proof_id : String

abbrev pub MachineAction : Type 0
MachineAction = Action AuthorityError Machine Transition

-- The new state is set, and the transition is logged and returned.
unfoldable pub logged : AuthorityRecord → AuthorityState → String → String → MachineAction
logged account previous reason proof_id m =
    let t : Transition = record {
      previous_state = previous;
      new_state = account.state;
      reason = reason;
      proof_id = proof_id;
      agent_id = account.agent_id;
    } in
    (ok t, record m { account = account; history = m.history ++ t ∷ [] })

-- `none` where the caller passes `None`.
unfoldable pub apply_trust : Option TrustDecision → MachineAction
unfolding evaluate_trusted
apply_trust none m = (err trust_decision_required, m)
apply_trust (some d) m =
    let r = m.account in
    let (state, reason) = evaluate_trusted r.state in
    if is_empty d.proof_id
    then (err proof_id_required, m)
    else if d.status == "TRUSTED"
    then logged
        (record r {
          state = state;
          trusted_outcomes = r.trusted_outcomes + 1;
          last_proof_id = d.proof_id;
        })
        r.state reason d.proof_id m
    else if d.status == "EXPIRED"
    then logged (record r { state = limited; last_proof_id = d.proof_id }) r.state
        "attestation_expired" d.proof_id m
    else if d.status == "UNTRUSTED"
    then logged
        (record r {
          state = limited;
          failed_outcomes = r.failed_outcomes + 1;
          last_proof_id = d.proof_id;
        })
        r.state "untrusted_outcome" d.proof_id m
    else (err unknown_trust_status, m)

unfoldable pub is_suspended : AuthorityState → Bool
is_suspended suspended = true
is_suspended _ = false

unfoldable pub promote : TransitionPolicy → String → String → MachineAction
unfolding is_suspended can_promote
promote p reason proof_id m =
    let r = m.account in
    if is_empty reason
    then (err promotion_reason_required, m)
    else if is_suspended r.state
    then (err suspended_requires_governance_reset, m)
    else if not (can_promote p r.trusted_outcomes r.failed_outcomes)
    then (err elevated_conditions_not_met, m)
    else logged
        (record r {
          state = elevated;
          last_proof_id = if is_empty proof_id then r.last_proof_id else proof_id;
        })
        r.state reason proof_id m

unfoldable pub suspend : String → MachineAction
suspend reason m =
    if is_empty reason
    then (err suspension_reason_required, m)
    else logged (record m.account { state = suspended }) m.account.state reason "" m

unfoldable pub governance_reset : MachineAction
governance_reset m =
    logged
      (record m.account {
        state = probation;
        trusted_outcomes = 0;
        failed_outcomes = 0;
        last_proof_id = "";
      })
      m.account.state "governance_reset" "" m
