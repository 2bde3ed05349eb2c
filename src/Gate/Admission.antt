-- ===== src/Gate/Admission.antt =====
-- shared/execution_gate.py: the checks of `authorize`.
use aegis_forge.Prelude.{String, not, ◌==◌, eqb, text_or}
use aegis_forge.Prelude.Result.{Result, ok, err, map_err}
use aegis_forge.Prelude.Checks.{◌>>=◌, ◌>>◌, raise_if, require}
use aegis_forge.Prelude.{ℕ}
use aegis_forge.Authority.Registry.{AgentAuthority}
use aegis_forge.Grant.Store.{GrantStatus, active, consumed, revoked}
use aegis_forge.Capability.Policy.{ActionIntent}
use aegis_forge.Gate.Artifacts.{
  EmbeddedIntent, absent, malformed, embedded, CapabilityGrant, SignedCapabilityGrant, Library,
}
use aegis_forge.Gate.Signatures.{verify_intent, verify_grant}
use aegis_forge.Gate.World.{
  Gate, GateError, state_text, signer_required, signed_action_intent_required,
  signed_action_intent_invalid, signed_action_intent_agent_mismatch,
  signed_action_intent_hash_mismatch, authority_epoch_mismatch, authority_state_mismatch,
  authority_policy_version_mismatch, revoked_grant, replayed_grant,
}

-- `_scope`: `destination or resource or ""`
unfoldable pub scope : ActionIntent → String
scope i = text_or i.destination i.resource

-- `status != "ACTIVE"`
unfoldable pub check_status : GrantStatus → Result GateError (Unit {0})
check_status active = ok tt
check_status consumed = err replayed_grant
check_status revoked = err revoked_grant

-- The grant against the authority that the agent has now.
unfoldable pub check_authority : CapabilityGrant → AgentAuthority → Result GateError (Unit {0})
check_authority g a = do
  raise_if (not (eqb g.authority_epoch a.authority_epoch)) authority_epoch_mismatch
  raise_if (not (g.authority_state == state_text a.state)) authority_state_mismatch
  raise_if (not (g.policy_version == a.policy_version)) authority_policy_version_mismatch

module _ (lib : Library) where
  -- `_grant`
  unfoldable pub verified : Gate → SignedCapabilityGrant → Result GateError CapabilityGrant
  verified gate s = do
    key_id ← require gate.signer signer_required
    map_err GateError.signature (verify_grant lib key_id s)

  -- `_verify_signed_action_intent`
  unfoldable pub check_intent : EmbeddedIntent → CapabilityGrant → ℕ → Result GateError (Unit {0})
  check_intent absent g now = err signed_action_intent_required
  check_intent malformed g now = err signed_action_intent_invalid
  check_intent (embedded s) g now = do
    map_err (λ _. signed_action_intent_invalid) (verify_intent lib s now)
    raise_if (not (s.agent_identity.identity.agent_id == g.agent_id))
        signed_action_intent_agent_mismatch
    raise_if (not (s.intent_hash == g.intent_hash)) signed_action_intent_hash_mismatch
