-- ===== src/Gate/World.antt =====
-- What the gate of shared/execution_gate.py holds and is told: its database, its settings, a call,
-- a receipt and its errors.
use Prim.Native.String.{◌++◌}
use aegis_forge.Prelude.{ℕ, String, Bool, Option, List}
use aegis_forge.Prelude.Result.{Result, Action, map_err}
use aegis_forge.Authority.Machine.{
  AuthorityState, probation, limited, standard, elevated, suspended, AuthorityError,
}
use aegis_forge.Authority.Registry.{AuthorityDb, DbAction}
use aegis_forge.Attempt.State.{value}
use aegis_forge.Attempt.Defs.{
  Attempts, AttemptAction, AttemptError, task_id_required, grant_id_required, intent_hash_required,
  idempotency_key_required, idempotency_key_active, idempotency_key_reused, attempt_not_found,
  invalid_attempt_state, attempt_state_conflict, invalid_transition, limit_must_be_positive,
  integrity_error,
}
use aegis_forge.Grant.Store.{
  Grants, GrantAction, GrantError, grant_already_finalized, grant_not_found, grant_not_active,
  grant_revoked, grant_replayed, grant_payload_invalid,
}
use aegis_forge.Capability.Policy.{ActionIntent}
use aegis_forge.Gate.Artifacts.{SignedCapabilityGrant}
use aegis_forge.Gate.Signatures.{SignatureError}
use aegis_forge.Gate.Binding.{BindingError}

-- A row of capability_grant_consumptions.
pub record Consumption : Type 0 where
  pub nonce : String
  pub grant_id : String
  pub task_id : String
  pub consumed_at : String
  pub receipt_id : String

-- One call of an executor, as it happened.
pub record Run : Type 0 where
  pub nonce : String
  pub grant_id : String
  pub receipt_id : String

-- The tables that the gate works on, and the calls of executors so far.
pub record World : Type 0 where
  pub authority : AuthorityDb
  pub grants : Grants
  pub attempts : Attempts
  pub consumptions : List Consumption
  pub ran : List Run

-- The gate: the key id of its signer, whether it has one and has a registry, and its policy's VERSION.
-- Its database is there.
pub record Gate : Type 0 where
  pub signer : Option String
  pub has_registry : Bool
  pub version : String

-- What the executor does when it is called: it returns, or raises.
pub record Raised : Type 0 where
  pub kind : String
  pub message : String

-- The arguments of `execute`. `now` is the argument or the clock's time; `clock` is the machine's
-- clock, which some checks read whatever `now` is. `receipt_id` and `fresh` are the ids that the call
-- draws, for its receipt and its attempt.
pub record Call : Type 0 where
  pub grant : Option SignedCapabilityGrant
  pub intent : ActionIntent
  pub executor : Result Raised String
  pub evidence_ids : List String
  pub now : ℕ
  pub clock : ℕ
  pub executor_id : String
  pub executor_version : String
  pub executor_implementation_digest : Option String
  pub executor_identity_epoch : ℕ
  pub idempotency_key : String
  pub receipt_id : String
  pub fresh : String

-- ExecutionReceipt
pub record Receipt : Type 0 where
  pub receipt_id : String
  pub task_id : String
  pub grant_id : String
  pub nonce : String
  pub intent_hash : String
  pub policy_version : String
  pub action : String
  pub target : String
  pub authorized_scope : String
  pub status : String
  pub executed_at : String
  pub result : Option String
  pub error : String
  pub agent_id : String
  pub authority_epoch : ℕ
  pub authority_state : String
  pub executor_id : String
  pub executor_version : String
  pub executor_implementation_digest : Option String
  pub executor_identity_epoch : ℕ

pub data GateError : Type 0 where
  grant_required signer_required : GateError
  signed_action_intent_required signed_action_intent_invalid : GateError
  signed_action_intent_agent_mismatch signed_action_intent_hash_mismatch : GateError
  policy_version_mismatch authority_registry_required authority_epoch_mismatch : GateError
  authority_state_mismatch authority_policy_version_mismatch : GateError
  revoked_grant replayed_grant authorized_scope_mismatch : GateError
  executor_identity_required executor_version_required executor_identity_epoch_required : GateError
  -- the errors of other layers, with their text
  signature : SignatureError → GateError
  authority : AuthorityError → GateError
  store : GrantError → GateError
  binding : BindingError → GateError
  attempt : AttemptError → GateError
  -- an ExecutionAttemptError that the gate does not turn into its own
  attempt_raised : AttemptError → GateError

abbrev pub GateAction : Type 0 → Type 0
GateAction A = Action GateError World A

-- The methods of the stores, on the tables of the gate.
module _ {A : Type 0} where
  unfoldable pub on_authority : DbAction A → GateAction A
  on_authority m w =
      let (r, t) = m w.authority in (map_err GateError.authority r, record w { authority = t })

  unfoldable pub on_grants : GrantAction A → GateAction A
  on_grants m w = let (r, t) = m w.grants in (map_err GateError.store r, record w { grants = t })

  unfoldable pub on_attempts : (AttemptError → GateError) → AttemptAction A → GateAction A
  on_attempts e m w = let (r, t) = m w.attempts in (map_err e r, record w { attempts = t })

-- `state.value`
unfoldable pub state_text : AuthorityState → String
state_text probation = "PROBATION"
state_text limited = "LIMITED"
state_text standard = "STANDARD"
state_text elevated = "ELEVATED"
state_text suspended = "SUSPENDED"

-- `str(exc)`
unfoldable pub grant_error_text : GrantError → String
grant_error_text grant_already_finalized = "grant_already_finalized"
grant_error_text grant_not_found = "grant_not_found"
grant_error_text grant_not_active = "grant_not_active"
grant_error_text grant_revoked = "grant_revoked"
grant_error_text grant_replayed = "grant_replayed"
grant_error_text grant_payload_invalid = "grant_payload_invalid"

unfoldable pub attempt_error_text : AttemptError → String
attempt_error_text task_id_required = "task_id_required"
attempt_error_text grant_id_required = "grant_id_required"
attempt_error_text intent_hash_required = "intent_hash_required"
attempt_error_text idempotency_key_required = "idempotency_key_required"
attempt_error_text idempotency_key_active = "idempotency_key_active"
attempt_error_text idempotency_key_reused = "idempotency_key_reused"
attempt_error_text attempt_not_found = "attempt_not_found"
attempt_error_text invalid_attempt_state = "invalid_attempt_state"
attempt_error_text attempt_state_conflict = "attempt_state_conflict"
attempt_error_text (invalid_transition a b) =
    "invalid_transition:" ++ (value a ++ ("->" ++ value b))
attempt_error_text limit_must_be_positive = "limit_must_be_positive"
attempt_error_text integrity_error = "UNIQUE constraint failed"
