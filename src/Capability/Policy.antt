-- ===== src/Capability/Policy.antt =====
-- shared/capability_policy.py: what an agent wants to do, and the static policy on it.
use aegis_forge.Prelude.{
  String, Bool, true, not, ◌&&◌, ◌||◌, List, [], ◌∷◌, ◌==◌, one_of, if◌then◌else◌,
}

pub data Decision : Type 0 where
  allow block require_evidence : Decision

-- The source's dict with the keys `decision` and `reason`.
pub record Check : Type 0 where
  pub decision : Decision
  pub reason : String

-- `parameters` holds arbitrary JSON, which the policy does not read; here it is its text,
-- and the text null is None.
pub record ActionIntent : Type 0 where
  pub role : String
  pub action : String
  pub agent_id : String
  pub target : String
  pub resource : String
  pub destination : String
  pub data_scope : String
  pub irreversible : Bool
  pub requires_network : Bool
  pub requires_shell : Bool
  pub requires_filesystem : Bool
  pub financial : Bool
  pub privileged : Bool
  pub read_only : Bool
  pub evidence_required : Bool
  pub parameters : String

-- ROLE_ALLOWED_ACTIONS.get(role, set())
unfoldable pub role_allowed_actions : String → List String
role_allowed_actions role =
    if role == "researcher"
    then "research" ∷ "read_public_docs" ∷ []
    else if role == "analyst"
    then "analyze" ∷ "inspect_evidence" ∷ []
    else if role == "developer"
    then "inspect_code" ∷ "modify_code" ∷ "run_tests" ∷ "deploy" ∷ "publish" ∷ "delete" ∷ "transfer"
      ∷ "release" ∷ "api_request" ∷ "mcp_tool_call" ∷ []
    else if role == "security_checker"
    then "security_scan" ∷ "inspect_code" ∷ "verify" ∷ []
    else if role == "opportunity_hunter"
    then "identify_opportunities" ∷ "research" ∷ []
    else if role == "validator"
    then "validate" ∷ "verify" ∷ []
    else if role == "model_researcher"
    then "model_research" ∷ "research" ∷ []
    else if role == "source_researcher"
    then "research" ∷ "read_public_docs" ∷ []
    else if role == "crypto_analyst"
    then "analyze" ∷ "inspect_evidence" ∷ []
    else if role == "lab_runner"
    then "run_synthetic_lab" ∷ "inspect_evidence" ∷ "verify" ∷ []
    else []

abbrev pub sensitive_actions : List String
sensitive_actions =
    "modify_code" ∷ "deploy" ∷ "publish" ∷ "delete" ∷ "transfer" ∷ "release" ∷ "api_request"
    ∷ "mcp_tool_call" ∷ []

unfoldable pub is_sensitive : String → Bool
is_sensitive action = one_of action sensitive_actions

-- SENSITIVE_EVIDENCE_REQUIREMENTS.get(action, set())
unfoldable pub sensitive_requirements : String → List String
sensitive_requirements action =
    if action == "modify_code"
    then "tests_passed" ∷ []
    else if action == "deploy"
    then "tests_passed" ∷ "security_scan_passed" ∷ "rollback_ready" ∷ []
    else if action == "publish"
    then "tests_passed" ∷ "security_scan_passed" ∷ "artifact_integrity" ∷ []
    else if action == "delete"
    then "recovery_ready" ∷ []
    else if action == "transfer"
    then "authorization_confirmed" ∷ "destination_allowed" ∷ "simulation_passed" ∷ []
    else if action == "release"
    then "tests_passed" ∷ "security_scan_passed" ∷ "artifact_integrity" ∷ []
    else if action == "api_request"
    then "destination_allowed" ∷ []
    else if action == "mcp_tool_call"
    then "destination_allowed" ∷ []
    else []

-- EVIDENCE_SOURCE_ROLES.get(claim_type, set())
unfoldable pub evidence_source_roles : String → List String
evidence_source_roles claim =
    if claim == "tests_passed"
    then "developer" ∷ "validator" ∷ []
    else if claim == "security_scan_passed"
    then "security_checker" ∷ "validator" ∷ []
    else if claim == "rollback_ready"
    then "developer" ∷ "validator" ∷ []
    else if claim == "rollback_or_recovery_ready"
    then "developer" ∷ "validator" ∷ []
    else if claim == "artifact_integrity"
    then "developer" ∷ "security_checker" ∷ "validator" ∷ []
    else if claim == "recovery_ready"
    then "developer" ∷ "validator" ∷ []
    else if claim == "authorization_confirmed"
    then "validator" ∷ []
    else if claim == "destination_allowed"
    then "validator" ∷ "security_checker" ∷ []
    else if claim == "simulation_passed"
    then "validator" ∷ "security_checker" ∷ []
    else if claim == "financial_authorization"
    then "validator" ∷ []
    else if claim == "privilege_scope_verified"
    then "security_checker" ∷ "validator" ∷ []
    else if claim == "explicit_evidence"
    then "validator" ∷ []
    else []

unfoldable pub evidence_source_allowed : String → String → Bool
evidence_source_allowed claim role = one_of role (evidence_source_roles claim)

-- The set before its last line, `requirements or "explicit_evidence"`.
unfoldable pub base_requires : ActionIntent → String → Bool
base_requires i claim =
    one_of claim (sensitive_requirements i.action)
    || (i.financial && (claim == "financial_authorization" || claim == "destination_allowed"))
    || (i.privileged && claim == "privilege_scope_verified")
    || (i.irreversible && claim == "rollback_or_recovery_ready")

-- All claims that the policy knows, in the order that `sorted` gives them.
abbrev pub claims : List String
claims =
    "artifact_integrity" ∷ "authorization_confirmed" ∷ "destination_allowed" ∷ "explicit_evidence"
    ∷ "financial_authorization" ∷ "privilege_scope_verified" ∷ "recovery_ready"
    ∷ "rollback_or_recovery_ready" ∷ "rollback_ready" ∷ "security_scan_passed" ∷ "simulation_passed"
    ∷ "tests_passed" ∷ []

-- The claims of a list that pass a test, in its order.
unfoldable pub pick : (String → Bool) → List String → List String
pick p [] = []
pick p (c ∷ cs) = if p c then c ∷ pick p cs else pick p cs

unfoldable pub or_explicit : ActionIntent → List String → List String
or_explicit i [] = if i.evidence_required then "explicit_evidence" ∷ [] else []
or_explicit i (c ∷ cs) = c ∷ cs

unfoldable pub required_evidence : ActionIntent → List String
unfolding or_explicit base_requires
required_evidence i = or_explicit i (pick (base_requires i) claims)

pub record Policy : Type 0 where
  pub blocked_targets : List String
  pub blocked_destinations : List String
  pub blocked_data_scopes : List String
  pub network_allowed : Bool
  pub shell_allowed : Bool
  pub filesystem_allowed : Bool

-- `CapabilityPolicy()`
abbrev pub default_policy : Policy
default_policy = record {
  blocked_targets =
      "unknown_external_endpoint" ∷ "production_database" ∷ "production_environment" ∷ [];
  blocked_destinations =
      "production_database" ∷ "production" ∷ "production_environment" ∷ "production_api"
      ∷ "unauthorized_external_destination" ∷ [];
  blocked_data_scopes = "credentials" ∷ "private_keys" ∷ "secrets" ∷ "api_keys" ∷ "passwords" ∷ [];
  network_allowed = true;
  shell_allowed = true;
  filesystem_allowed = true;
}

abbrev pub version : String
version = "capability-policy-v1"

unfoldable pub blocked : String → Check
blocked reason = record { decision = block; reason = reason }

unfoldable pub wants_evidence : ActionIntent → Bool
wants_evidence i =
    is_sensitive i.action
    || not i.read_only
    || i.irreversible
    || i.financial
    || i.privileged
    || i.evidence_required

unfoldable pub check : Policy → ActionIntent → Check
unfolding blocked
check p i =
    if one_of i.target p.blocked_targets
    then blocked "blocked_target"
    else if one_of i.destination p.blocked_destinations
    then blocked "blocked_destination"
    else if one_of i.data_scope p.blocked_data_scopes
    then blocked "blocked_data_scope"
    else if not (one_of i.action (role_allowed_actions i.role))
    then blocked "action_not_allowed_for_role"
    else if i.requires_shell && not p.shell_allowed
    then blocked "shell_disabled"
    else if i.requires_network && not p.network_allowed
    then blocked "network_disabled"
    else if i.requires_filesystem && not p.filesystem_allowed
    then blocked "filesystem_disabled"
    else if wants_evidence i
    then record { decision = require_evidence; reason = "evidence_required_for_sensitive_action" }
    else record { decision = allow; reason = "policy_pass" }
