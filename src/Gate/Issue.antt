-- ===== src/Gate/Issue.antt =====
-- `issue_capability_grant` of shared/capability_grant.py and `CapabilitySigner.sign` of
-- shared/capability_signing.py.
use aegis_forge.Prelude.{
  ℕ, ◌+◌, String, Bool, true, false, not, Option, none, some, List, ◌==◌, ltb, is_empty, text_or,
}
use Prim.Native.Nat.{◌*◌}
use aegis_forge.Prelude.Sort.{sorted}
use aegis_forge.Prelude.Result.{Result, ok, map_err}
use aegis_forge.Prelude.Checks.{◌>>=◌, ◌>>◌, raise_if, require}
use aegis_forge.Authority.Machine.{AuthorityState, state_eq}
use aegis_forge.Authority.Registry.{AgentAuthority}
use aegis_forge.Capability.Policy.{ActionIntent, Policy, Decision, block}
use aegis_forge.Capability.Effective.{evaluate_effective_capability}
use aegis_forge.Gate.Json.{Json, object, Object, json_eq}
use aegis_forge.Gate.Artifacts.{
  SignedAgentIdentity, SignedActionIntent, EmbeddedIntent, absent, embedded, CapabilityGrant,
  SignedCapabilityGrant, Library,
}
use aegis_forge.Gate.Signatures.{SignatureError, verify_intent, check_identity}
use aegis_forge.Gate.Binding.{BindingError, intent_contract, evidence_hash, validate}
use aegis_forge.Gate.World.{state_text}

pub data IssueError : Type 0 where
  authority_context_required authority_agent_id_required authority_epoch_required : IssueError
  authority_state_mismatch authority_policy_version_mismatch : IssueError
  signed_action_intent_invalid signed_action_intent_hash_mismatch : IssueError
  authority_blocked : String → IssueError
  invalid_ttl outcome_contract_mismatch : IssueError
  -- an OutcomeContractError
  contract_error : BindingError → IssueError
  -- Python's TypeError for `dict(None)`
  contract_is_none : IssueError

-- The arguments of `issue_capability_grant`. `drawn_id` and `drawn_nonce` are the texts that it makes
-- of what `secrets` draws, where `grant_id` or `nonce` is empty; `now` is the clock's time, at which
-- the signed intent is verified too.
pub record IssueRequest : Type 0 where
  pub task_id : String
  pub intent : ActionIntent
  pub policy_version : String
  pub evidence_ids : List String
  pub authorized_scope : String
  pub ttl_seconds : ℕ
  pub outcome_contract : Option Json
  pub authority_state : Option AuthorityState
  pub authority_context : Option AgentAuthority
  pub signed_action_intent : Option SignedActionIntent
  pub grant_id : String
  pub nonce : String
  pub drawn_id : String
  pub drawn_nonce : String
  pub now : ℕ

-- `authority_state is not None and authority_state != authority_context.state`
unfoldable pub other_state : Option AuthorityState → AuthorityState → Bool
other_state none s = false
other_state (some t) s = not (state_eq t s)

unfoldable pub is_block : Decision → Bool
is_block block = true
is_block _ = false

unfoldable pub or_contract : Option Json → Json → Json
or_contract none own = own
or_contract (some given) own = given

-- `dict(contract)`, after its validation
unfoldable pub as_object : Json → Option Object
as_object (object o) = some o
as_object _ = none

-- `outcome.to_dict()`, or `{}`
unfoldable pub embed : Option SignedActionIntent → EmbeddedIntent
embed none = absent
embed (some s) = embedded s

module _ (lib : Library) (policy : Policy) where
  unfoldable pub check_signed_intent :
      Option SignedActionIntent → ActionIntent → ℕ → Result IssueError (Unit {0})
  check_signed_intent none i now = ok tt
  check_signed_intent (some s) i now = do
    map_err (λ _. IssueError.signed_action_intent_invalid) (verify_intent lib s now)
    raise_if (not (s.intent_hash == lib.intent_hash i))
        IssueError.signed_action_intent_hash_mismatch

  abbrev pub issued : IssueRequest → AgentAuthority → Object → CapabilityGrant
  issued q a contract = record {
    grant_id = text_or q.grant_id q.drawn_id;
    task_id = q.task_id;
    agent_id = a.agent_id;
    authority_epoch = a.authority_epoch;
    authority_state = state_text a.state;
    intent_hash = lib.intent_hash q.intent;
    policy_version = q.policy_version;
    evidence_ids = sorted q.evidence_ids;
    evidence_hash = evidence_hash lib (sorted q.evidence_ids);
    authorized_action = q.intent.action;
    authorized_target = q.intent.target;
    authorized_scope = q.authorized_scope;
    issued_at = lib.isoformat q.now;
    expires_at = lib.isoformat (q.now + q.ttl_seconds * 1000000);
    nonce = text_or q.nonce q.drawn_nonce;
    status = "ACTIVE";
    outcome_contract = contract;
    signed_action_intent = embed q.signed_action_intent;
  }

  unfoldable pub issue_capability_grant : IssueRequest → Result IssueError CapabilityGrant
  issue_capability_grant q = do
    a ← require q.authority_context authority_context_required
    raise_if (is_empty a.agent_id) authority_agent_id_required
    raise_if (ltb a.authority_epoch 1) authority_epoch_required
    raise_if (other_state q.authority_state a.state) authority_state_mismatch
    raise_if (not (q.policy_version == a.policy_version)) authority_policy_version_mismatch
    check_signed_intent q.signed_action_intent q.intent q.now
    let effective = evaluate_effective_capability policy q.intent a.state
    raise_if (is_block effective.decision) (authority_blocked effective.reason)
    raise_if (ltb q.ttl_seconds 1) invalid_ttl
    map_err IssueError.contract_error (validate lib (intent_contract lib q.intent) q.intent)
    let requested = or_contract q.outcome_contract (intent_contract lib q.intent)
    map_err IssueError.contract_error (validate lib requested q.intent)
    raise_if (not (json_eq requested (intent_contract lib q.intent))) outcome_contract_mismatch
    contract ← require (as_object requested) contract_is_none
    ok (issued q a contract)

-- `CapabilitySigner.sign`; `key_id` is the signer's, and `sign_payload` the signature by its key of
-- the payload of an artifact, which does not hold the signature.
module _ (lib : Library) (key_id : String) (sign_payload : SignedCapabilityGrant → String) where
  abbrev pub unsigned : CapabilityGrant → Option SignedAgentIdentity → SignedCapabilityGrant
  unsigned g identity = record {
    grant = g;
    key_id = key_id;
    signature = "";
    agent_identity = identity;
    algorithm = "Ed25519";
  }

  unfoldable pub sign :
      CapabilityGrant → Option SignedAgentIdentity → Result SignatureError SignedCapabilityGrant
  sign g identity = do
    check_identity lib identity g.agent_id
    ok (record (unsigned g identity) { signature = sign_payload (unsigned g identity) })
