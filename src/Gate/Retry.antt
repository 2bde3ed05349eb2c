-- ===== src/Gate/Retry.antt =====
-- shared/execution_retry_authorizer.py: fresh authority for a retry, for the intent of the attempt
-- that was lost. The registry and the signer are there; `authority_registry.get` only reads.
use aegis_forge.Prelude.{
  ℕ, String, Bool, true, false, not, ◌&&◌, Option, none, some, List, ◌==◌, is_empty, text_or,
}
use aegis_forge.Prelude.Result.{Result, ok, map_err}
use aegis_forge.Prelude.Checks.{◌>>=◌, ◌>>◌, raise_if, require}
use aegis_forge.Authority.Registry.{AgentAuthority, AuthorityDb, get}
use aegis_forge.Capability.Policy.{ActionIntent, Policy}
use aegis_forge.Attempt.Defs.{Attempt}
use aegis_forge.Gate.Json.{object, json_eq}
use aegis_forge.Gate.Artifacts.{SignedActionIntent, SignedCapabilityGrant, Library}
use aegis_forge.Gate.Signatures.{verify_intent}
use aegis_forge.Gate.Issue.{IssueRequest, issue_capability_grant, sign}

pub data RetryError : Type 0 where
  attempt_required attempt_task_id_required : RetryError
  signed_action_intent_invalid retry_intent_hash_mismatch retry_intent_mismatch : RetryError
  current_authority_unavailable retry_grant_issue_failed retry_grant_must_be_new : RetryError

-- The arguments of `authorize`, with what is drawn and the time of the machine's clock as in
-- `IssueRequest`; `now` is the argument's, or the clock's where it is None.
pub record RetryRequest : Type 0 where
  pub attempt : Option Attempt
  pub intent : ActionIntent
  pub signed_action_intent : SignedActionIntent
  pub evidence_ids : List String
  pub ttl_seconds : ℕ
  pub authorized_scope : Option String
  pub now : ℕ
  pub grant_id : String
  pub nonce : String
  pub drawn_id : String
  pub drawn_nonce : String
  pub clock : ℕ

unfoldable pub bools_eq : Bool → Bool → Bool
bools_eq true b = b
bools_eq false b = not b

-- `intent.destination or intent.resource or ""`, where no scope is given
unfoldable pub retry_scope : Option String → ActionIntent → String
retry_scope none i = text_or i.destination i.resource
retry_scope (some s) i = s

-- The call of `issue_capability_grant`.
abbrev pub reissue : RetryRequest → Attempt → AgentAuthority → IssueRequest
reissue q a authority = record {
  task_id = a.task_id;
  intent = q.intent;
  policy_version = authority.policy_version;
  evidence_ids = q.evidence_ids;
  authorized_scope = retry_scope q.authorized_scope q.intent;
  ttl_seconds = q.ttl_seconds;
  outcome_contract = none;
  authority_state = some authority.state;
  authority_context = some authority;
  signed_action_intent = some q.signed_action_intent;
  grant_id = q.grant_id;
  nonce = q.nonce;
  drawn_id = q.drawn_id;
  drawn_nonce = q.drawn_nonce;
  now = q.clock;
}

-- The agent that signed the intent.
abbrev pub retry_agent : RetryRequest → String
retry_agent q = q.signed_action_intent.agent_identity.identity.agent_id

module _ (lib : Library) (policy : Policy) (key_id : String)
    (sign_payload : SignedCapabilityGrant → String) where
  -- Python's `==` on two intents; parameters that are None equal None alone.
  unfoldable pub intent_eq : ActionIntent → ActionIntent → Bool
  unfolding bools_eq
  intent_eq i j =
      i.role == j.role
      && i.action == j.action
      && i.agent_id == j.agent_id
      && i.target == j.target
      && i.resource == j.resource
      && i.destination == j.destination
      && i.data_scope == j.data_scope
      && bools_eq i.irreversible j.irreversible
      && bools_eq i.requires_network j.requires_network
      && bools_eq i.requires_shell j.requires_shell
      && bools_eq i.requires_filesystem j.requires_filesystem
      && bools_eq i.financial j.financial
      && bools_eq i.privileged j.privileged
      && bools_eq i.read_only j.read_only
      && bools_eq i.evidence_required j.evidence_required
      && bools_eq (i.parameters == "null") (j.parameters == "null")
      && json_eq (object (lib.parameters_of i.parameters)) (object (lib.parameters_of j.parameters))

  -- The grant that is issued with the authority of now, and its signature.
  unfoldable pub reissued :
      RetryRequest → Attempt → AgentAuthority → Result RetryError SignedCapabilityGrant
  reissued q a authority = do
    grant ←
        map_err (λ _. retry_grant_issue_failed)
          (issue_capability_grant lib policy (reissue q a authority))
    map_err (λ _. retry_grant_issue_failed) (sign lib key_id sign_payload grant none)

  unfoldable pub authorize_retry :
      RetryRequest → AuthorityDb → Result RetryError SignedCapabilityGrant
  authorize_retry q db = do
    a ← require q.attempt attempt_required
    raise_if (is_empty a.task_id) attempt_task_id_required
    map_err (λ _. RetryError.signed_action_intent_invalid)
        (verify_intent lib q.signed_action_intent q.now)
    raise_if (not (q.signed_action_intent.intent_hash == a.intent_hash)) retry_intent_hash_mismatch
    raise_if (not (intent_eq q.signed_action_intent.intent q.intent)) retry_intent_mismatch
    authority ← map_err (λ _. current_authority_unavailable) (get (retry_agent q) db).0
    signed_grant ← reissued q a authority
    raise_if (signed_grant.grant.grant_id == a.grant_id) retry_grant_must_be_new
    ok signed_grant
