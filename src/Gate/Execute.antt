-- ===== src/Gate/Execute.antt =====
-- shared/execution_gate.py: `authorize` and `execute`.
use Prim.Native.String
use aegis_forge.Prelude.{
  ℕ, String, Bool, false, not, Option, none, some, [], ◌∷◌, ◌++◌, ◌==◌, ltb, is_empty, text_or,
  if◌then◌else◌,
}
use aegis_forge.Prelude.Result.{Result, ok, err, pure, raise, raise_if, lift, map_err, ◌>>=◌, ◌>>◌}
use aegis_forge.Prelude.Checks.{require}
use aegis_forge.Prelude.Table.{has_key}
use aegis_forge.Authority.Registry.{get}
use aegis_forge.Attempt.State.{AttemptState, leased, running, succeeded, failed, aborted}
use aegis_forge.Attempt.Defs.{
  Attempt, AttemptError, Details, Request, create, transition_to, integrity_error,
}
use aegis_forge.Grant.Store.{SignedGrant, GrantError, ensure_registered, consume, clipped}
use aegis_forge.Gate.Artifacts.{CapabilityGrant, SignedCapabilityGrant, Library}
use aegis_forge.Gate.Binding.{consume_capability_grant}
use aegis_forge.Gate.World.{
  Consumption, Run, World, Gate, Raised, Call, Receipt, GateError, GateAction, on_authority,
  on_grants, on_attempts, grant_error_text, attempt_error_text, grant_required,
  policy_version_mismatch, authority_registry_required, replayed_grant, authorized_scope_mismatch,
  executor_identity_required, executor_version_required, executor_identity_epoch_required,
  attempt_raised,
}
use aegis_forge.Gate.Admission.{scope, check_status, check_authority, verified, check_intent}

-- An error of the attempt store, as `raise ExecutionGateError(str(exc))`; an IntegrityError is none.
unfoldable pub wrapped : AttemptError → GateError
wrapped integrity_error = attempt_raised integrity_error
wrapped e = GateError.attempt e

abbrev pub details : ℕ → Details
details now = record {
  now = now;
  error = "";
  executor_id = "";
  executor_version = "";
  executor_identity_epoch = 0;
  receipt_id = "";
}

-- INSERT INTO capability_grant_consumptions
unfoldable pub insert_consumption : Consumption → GateAction (Unit {0})
insert_consumption row w =
    if has_key Consumption.nonce row.nonce w.consumptions
    then (err replayed_grant, w)
    else (ok tt, record w { consumptions = w.consumptions ++ row ∷ [] })

-- `executor()`
unfoldable pub call_executor : Run → Result Raised String → GateAction (Result Raised String)
call_executor run executor w = (ok executor, record w { ran = w.ran ++ run ∷ [] })

-- What is written to the tables between the stages of a call.
pub record Others : Type 0 where
  pub before_open : World → World
  pub before_claim : World → World
  pub before_end : World → World

abbrev pub meanwhile : (World → World) → GateAction (Unit {0})
meanwhile f w = (ok tt, f w)

-- `ABORTED`, with the text of an error.
unfoldable pub abort : Attempt → ℕ → String → GateAction Attempt
abort a now text =
    on_attempts attempt_raised
      (transition_to a.attempt_id aborted (record (details now) { error = text }))

module _ (lib : Library) where
  -- What the grant store keeps of a signed grant.
  abbrev pub stored : SignedCapabilityGrant → SignedGrant
  stored s = record {
    grant_id = s.grant.grant_id;
    nonce = s.grant.nonce;
    task_id = s.grant.task_id;
    key_id = s.key_id;
    payload = lib.canonical s;
    issued_at = s.grant.issued_at;
    expires_at = s.grant.expires_at;
  }

  unfoldable pub authorize : Gate → Call → GateAction CapabilityGrant
  authorize gate c = do
    s ← lift (require c.grant grant_required)
    g ← lift (verified lib gate s)
    lift (check_intent lib g.signed_action_intent g c.now)
    raise_if (not (g.policy_version == gate.version)) policy_version_mismatch
    raise_if (not gate.has_registry) authority_registry_required
    a ← on_authority (get g.agent_id)
    lift (check_authority g a)
    status ← on_grants (ensure_registered (stored s) c.clock)
    lift (check_status status)
    lift (
        map_err GateError.binding
          (consume_capability_grant lib g c.intent c.evidence_ids c.now c.clock))
    raise_if (not (g.authorized_scope == scope c.intent)) authorized_scope_mismatch
    pure g

  abbrev pub request : Call → CapabilityGrant → Request
  request c g = record {
    task_id = g.task_id;
    grant_id = g.grant_id;
    intent_hash = g.intent_hash;
    idempotency_key = text_or c.idempotency_key g.nonce;
    now = c.now;
    retry = false;
    fresh = c.fresh;
  }

  -- The attempt that `execute` opens and leases.
  unfoldable pub open_attempt : Call → CapabilityGrant → GateAction Attempt
  open_attempt c g = do
    a ← on_attempts wrapped (create (request c g))
    on_attempts wrapped (
        transition_to a.attempt_id leased (record (details c.now) {
          executor_id = c.executor_id;
          executor_version = c.executor_version;
          executor_identity_epoch = c.executor_identity_epoch;
        }))

  -- `grant_store.consume`; where it raises, the attempt is ABORTED.
  unfoldable pub settle : Call → Attempt → Result GrantError Bool → GateAction (Unit {0})
  settle c a (ok b) = pure tt
  settle c a (err e) = do abort a c.now (grant_error_text e); raise (GateError.store e)

  unfoldable pub consume_grant : Call → Attempt → CapabilityGrant → GateAction (Unit {0})
  consume_grant c a g w =
      let (r, t) = consume g.grant_id (lib.isoformat c.now) w.grants in
      settle c a r (record w { grants = t })

  abbrev pub consumption : Call → CapabilityGrant → Consumption
  consumption c g = record {
    nonce = g.nonce;
    grant_id = g.grant_id;
    task_id = g.task_id;
    consumed_at = lib.isoformat c.now;
    receipt_id = c.receipt_id;
  }

  unfoldable pub take_grant : Call → CapabilityGrant → Attempt → GateAction Attempt
  take_grant c g a = do
    consume_grant c a g
    insert_consumption (consumption c g)
    on_attempts attempt_raised (transition_to a.attempt_id running (details c.now))

  -- `except ExecutionGateError: raise`, and for another error: ABORTED, and raise.
  unfoldable pub pass_on : Call → Attempt → Result GateError Attempt → GateAction Attempt
  pass_on c a (ok a') = pure a'
  pass_on c a (err (attempt_raised e)) = do
    abort a c.now (attempt_error_text e)
    raise (attempt_raised e)
  pass_on c a (err e) = raise e

  unfoldable pub claim : Call → CapabilityGrant → Attempt → GateAction Attempt
  claim c g a w = let (r, w') = take_grant c g a w in pass_on c a r w'

  unfoldable pub status_text : Result Raised String → String
  status_text (ok v) = "EXECUTED"
  status_text (err x) = "FAILED"

  unfoldable pub result_of : Result Raised String → Option String
  result_of (ok v) = some v
  result_of (err x) = none

  -- f"{type(exc).__name__}: {str(exc)[:500]}"
  unfoldable pub error_of : Result Raised String → String
  error_of (ok v) = ""
  error_of (err x) = String.◌++◌ x.kind (String.◌++◌ ": " (clipped x.message))

  abbrev pub receipt_of : Call → CapabilityGrant → Result Raised String → Receipt
  receipt_of c g r = record {
    receipt_id = c.receipt_id;
    task_id = g.task_id;
    grant_id = g.grant_id;
    nonce = g.nonce;
    intent_hash = g.intent_hash;
    policy_version = g.policy_version;
    action = c.intent.action;
    target = c.intent.target;
    authorized_scope = g.authorized_scope;
    status = status_text r;
    executed_at = lib.isoformat c.now;
    result = result_of r;
    error = error_of r;
    agent_id = g.agent_id;
    authority_epoch = g.authority_epoch;
    authority_state = g.authority_state;
    executor_id = c.executor_id;
    executor_version = c.executor_version;
    executor_implementation_digest = c.executor_implementation_digest;
    executor_identity_epoch = c.executor_identity_epoch;
  }

  unfoldable pub terminal : Receipt → AttemptState
  terminal r = if r.status == "EXECUTED" then succeeded else failed

  abbrev pub run_of : Call → CapabilityGrant → Run
  run_of c g = record { nonce = g.nonce; grant_id = g.grant_id; receipt_id = c.receipt_id }

  -- The end of the attempt, and the receipt.
  unfoldable pub finish :
      Call → CapabilityGrant → Attempt → Result Raised String → GateAction Receipt
  finish c g a r = do
    on_attempts attempt_raised (
        transition_to a.attempt_id (terminal (receipt_of c g r))
          (record (details c.now) { receipt_id = c.receipt_id; error = error_of r }))
    pure (receipt_of c g r)

  -- The call of the executor, its receipt, and the end of the attempt.
  unfoldable pub run : Call → CapabilityGrant → Attempt → GateAction Receipt
  run c g a = do r ← call_executor (run_of c g) c.executor; finish c g a r

  unfoldable pub check_executor : Call → Result GateError (Unit {0})
  check_executor c =
      if is_empty c.executor_id
      then err executor_identity_required
      else if is_empty c.executor_version
      then err executor_version_required
      else if ltb c.executor_identity_epoch 1
      then err executor_identity_epoch_required
      else ok tt

  unfoldable pub execute : Gate → Call → GateAction Receipt
  execute gate c = do
    g ← authorize gate c
    lift (check_executor c)
    a ← open_attempt c g
    a' ← claim c g a
    run c g a'

  -- A claim and, where it succeeds, the start of the executor, between which nothing is written.
  unfoldable pub call_claimed :
      Call → CapabilityGrant → Attempt → GateAction (Attempt × Result Raised String)
  call_claimed c g a = do a' ← claim c g a; r ← call_executor (run_of c g) c.executor; pure (a', r)

  -- `execute`, with what other connections and the executor write to the tables between its stages.
  unfoldable pub execute_among : Others → Gate → Call → GateAction Receipt
  execute_among o gate c = do
    g ← authorize gate c
    lift (check_executor c)
    meanwhile o.before_open
    a ← open_attempt c g
    meanwhile o.before_claim
    a' ← call_claimed c g a
    meanwhile o.before_end
    finish c g a'.0 a'.1
