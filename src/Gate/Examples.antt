-- ===== src/Gate/Examples.antt =====
-- One call of the gate, from an empty database, and what the theorems say of it.
use aegis_forge.Prelude.{
  ℕ, String, zero, suc, ◌≡◌, ◌≢◌, refl, sym, subst, true, false, none, some, [], ◌∷◌, Memᴰ, ◌==◌,
  one_of, if◌then◌else◌,
}
use aegis_forge.Prelude.Result.{ok, err}
use aegis_forge.Prelude.Table.{select, has_key, update, changes}
use aegis_forge.Prelude.Sort.{sorted, text_leb}
use aegis_forge.Prelude.Triple.{Post}
use aegis_forge.Authority.Machine.{standard}
use aegis_forge.Authority.Registry.{AgentAuthority, AuthorityDb, get, load, transitions_of}
use aegis_forge.Attempt.State
use aegis_forge.Attempt.State.{allowed, is_terminal, state_eq, value, of_value}
use aegis_forge.Attempt.Defs
use aegis_forge.Attempt.Defs.{Attempt}
use aegis_forge.Attempt.Reach
use aegis_forge.Capability.Policy.{ActionIntent}
use aegis_forge.Grant.Store
use aegis_forge.Grant.History
use aegis_forge.Grant.Once.{IsValid-empty}
use aegis_forge.Gate.Json.{end, lookup, json_eq}
use aegis_forge.Gate.Contract.{validate_outcome_contract, validate_object, needs_contract}
use aegis_forge.Gate.Artifacts.{
  SignedActionIntent, embedded, CapabilityGrant, SignedCapabilityGrant, Library,
}
use aegis_forge.Gate.Signatures.{
  verify_identity, check_expiry, verify_intent, check_identity, verify_grant,
}
use aegis_forge.Gate.Binding.{
  texts_eq, intent_contract, evidence_hash, validate, check_embedded, verify_binding,
  consume_capability_grant, or_no_contract,
}
use aegis_forge.Gate.World
use aegis_forge.Gate.Admission.{scope, check_status, check_authority, verified, check_intent}
use aegis_forge.Gate.Execute
use aegis_forge.Capability.Policy.{
  default_policy, check, role_allowed_actions, wants_evidence, is_sensitive,
}
use aegis_forge.Capability.Effective.{evaluate_effective_capability}
use aegis_forge.Gate.Issue.{
  IssueRequest, issued, issue_capability_grant, sign, check_signed_intent, other_state, is_block,
  or_contract, as_object,
}
use aegis_forge.Gate.Retry.{
  RetryRequest, authorize_retry, reissued, retry_scope, intent_eq, bools_eq,
}
use aegis_forge.Gate.Retried.{IsRetry, authorize_retry_lem}
use aegis_forge.Gate.Authorized.{Quiet, IsAuthorized, authorize_lem}
use aegis_forge.Gate.Woven.{execute_among-Reaches}
use aegis_forge.Gate.Success.{IsReceipt, execute_succeeds}
use aegis_forge.Gate.Soundness.{Reaches, here, next, granted, blank}
use aegis_forge.Gate.Once.{revoked_unrun}

-- A library in which everything is signed that says so.
abbrev lib : Library
lib = record {
  key_id_of = λ k. some k;
  signs_identity = λ s. s.signature == "identity";
  signs_intent = λ s. s.signature == "intent";
  signs_grant = λ s. s.signature == "grant";
  intent_hash = λ i. i.action;
  digest = λ ids. "digest";
  canonical = λ s. s.grant.grant_id;
  parameters_of = λ p. end;
  fromisoformat = λ t. if t == "200" then some 200 else none;
  isoformat = λ t. "now";
}

abbrev intent : ActionIntent
intent = record {
  role = "researcher";
  action = "research";
  agent_id = "agent";
  target = "docs";
  resource = "";
  destination = "public_web";
  data_scope = "public";
  irreversible = false;
  requires_network = true;
  requires_shell = false;
  requires_filesystem = false;
  financial = false;
  privileged = false;
  read_only = true;
  evidence_required = false;
  parameters = "{}";
}

abbrev signed_intent : SignedActionIntent
signed_intent = record {
  intent = intent;
  intent_hash = "research";
  agent_identity = record {
    identity = record {
      agent_id = "agent";
      role = "researcher";
      schema_version = "agent-identity-v1";
    };
    public_key = "key";
    key_id = "key";
    signature = "identity";
  };
  issued_at = "100";
  nonce = "intent-nonce";
  signature = "intent";
  expires_at = "200";
}

abbrev grant : CapabilityGrant
grant = record {
  grant_id = "grant-1";
  task_id = "task";
  agent_id = "agent";
  authority_epoch = 1;
  authority_state = "STANDARD";
  intent_hash = "research";
  policy_version = "v1";
  evidence_ids = "b" ∷ "a" ∷ [];
  evidence_hash = "digest";
  authorized_action = "research";
  authorized_target = "docs";
  authorized_scope = "public_web";
  issued_at = "100";
  expires_at = "200";
  nonce = "nonce-1";
  status = "ACTIVE";
  outcome_contract = end;
  signed_action_intent = embedded signed_intent;
}

abbrev gate : World.Gate
gate = record { signer = some "signer"; has_registry = true; version = "v1" }

abbrev call : World.Call
call = record {
  grant = some (record {
    grant = grant;
    key_id = "signer";
    signature = "grant";
    agent_identity = none;
    algorithm = "Ed25519";
  });
  intent = intent;
  executor = ok "done";
  evidence_ids = "a" ∷ "b" ∷ [];
  now = 150;
  clock = 150;
  executor_id = "http";
  executor_version = "1";
  executor_implementation_digest = none;
  executor_identity_epoch = 1;
  idempotency_key = "";
  receipt_id = "receipt-1";
  fresh = "attempt-1";
}

abbrev authorities : AuthorityDb
authorities = record {
  registry = record { agent_id = "agent"; policy_version = "v1"; authority_epoch = 1 } ∷ [];
  states =
      record {
        agent_id = "agent";
        state = standard;
        trusted_outcomes = 1;
        failed_outcomes = 0;
        last_proof_id = "";
      }
      ∷ [];
  transitions = [];
}

abbrev start : World.World
start = blank authorities

admitted : (Execute.authorize lib gate call start).0 ≡ ok grant
unfolding Execute.authorize World.on_authority World.on_grants World.state_text verified
    verify_grant check_identity check_intent verify_intent verify_identity check_expiry
    check_authority check_status scope get load select transitions_of Store.ensure_registered
    Store.status_or_register Store.status Store.register_grant has_key consume_capability_grant
    verify_binding check_embedded texts_eq sorted evidence_hash validate intent_contract
    or_no_contract lookup validate_outcome_contract validate_object needs_contract one_of json_eq
    text_leb
admitted = refl

authorize_lem_example :
    Post
      (λ g s. Quiet start s × IsAuthorized lib gate call g s)
      (λ e s. Quiet start s)
      (Execute.authorize lib gate call start)
authorize_lem_example = authorize_lem lib gate call start

-- Nobody else writes, or the grant is revoked after the call has authorized it.
abbrev alone : Execute.Others
alone = record { before_open = λ x. x; before_claim = λ x. x; before_end = λ x. x }

abbrev revoking : Execute.Others
revoking = record alone {
  before_claim = λ x. record x { grants = (Store.revoke "grant-1" "late" 120 x.grants).1 };
}

execute_succeeds_example :
    (r : World.Receipt) × ((Execute.execute lib gate call start).0 ≡ ok r)
    × IsReceipt call grant (Execute.execute lib gate call start).1 r
unfolding Execute.check_executor Defs.required Defs.latest has_key
execute_succeeds_example =
    execute_succeeds lib gate call start grant Reach.IsValid-empty IsValid-empty admitted refl refl
      refl refl refl

abbrev the_run : World.Run
the_run = record { nonce = "nonce-1"; grant_id = "grant-1"; receipt_id = "receipt-1" }

-- The receipt tells that the executor succeeded.
receipt_status :
    Execute.terminal lib (Execute.receipt_of lib call grant (ok "done")) ≡ State.succeeded
unfolding Execute.terminal Execute.status_text
receipt_status = refl

abbrev after : World.World
after = (Execute.execute_among lib alone gate call start).1

-- A grant that is revoked between the stages is not executed.
revoked_between :
    (Execute.execute_among lib revoking gate call start).0 ≡ err (World.store Store.grant_revoked)
unfolding Execute.authorize World.on_authority World.on_grants World.state_text verified
    verify_grant check_identity check_intent verify_intent verify_identity check_expiry
    check_authority check_status scope get load select transitions_of Store.ensure_registered
    Store.status_or_register Store.status Store.register_grant has_key consume_capability_grant
    verify_binding check_embedded texts_eq sorted evidence_hash validate intent_contract
    or_no_contract lookup validate_outcome_contract validate_object needs_contract one_of json_eq
    text_leb Execute.execute_among Execute.call_claimed Execute.finish Execute.check_executor
    Execute.open_attempt Execute.consume_grant Execute.settle Execute.insert_consumption
    Execute.take_grant Execute.pass_on Execute.claim Execute.call_executor Execute.terminal
    Execute.status_text World.on_attempts Store.consume Store.is_active update changes Defs.create
    Defs.required Defs.find_by_idempotency_key Defs.latest Defs.next_number Defs.insert
    Defs.has_number Defs.get Defs.transition_to Defs.write Defs.apply_change allowed state_eq
    is_terminal Store.revoke World.grant_error_text Execute.abort
revoked_between = refl

-- Another grant, revoked before the call.
abbrev other : Store.SignedGrant
other = record {
  grant_id = "grant-2";
  nonce = "nonce-2";
  task_id = "task";
  key_id = "signer";
  payload = "{}";
  issued_at = "100";
  expires_at = "200";
}

abbrev with_other : World.World
with_other = record start { grants = Store.new_row other 100 ∷ [] }

abbrev withdrawn : World.World
withdrawn = record start { grants = Store.revoked_row "late" 110 (Store.new_row other 100) ∷ [] }

registered : Reaches start with_other
unfolding Store.register_grant has_key
registered =
    next here (granted {t = Store.new_row other 100 ∷ []} (History.registered other 100 refl) refl)

revocation : Reaches start withdrawn
unfolding Store.revoke changes update Store.is_active
revocation = next registered (
    granted {t = Store.revoked_row "late" 110 (Store.new_row other 100) ∷ []}
      (History.revoked_by "grant-2" "late" 110 refl) refl)

is_withdrawn : Store.status "grant-2" withdrawn.grants ≡ some Store.revoked
unfolding Store.status select
is_withdrawn = refl

abbrev later : World.World
later = (Execute.execute_among lib alone gate call withdrawn).1

later_run : later.ran ≡ the_run ∷ []
unfolding Execute.authorize World.on_authority World.on_grants World.state_text verified
    verify_grant check_identity check_intent verify_intent verify_identity check_expiry
    check_authority check_status scope get load select transitions_of Store.ensure_registered
    Store.status_or_register Store.status Store.register_grant has_key consume_capability_grant
    verify_binding check_embedded texts_eq sorted evidence_hash validate intent_contract
    or_no_contract lookup validate_outcome_contract validate_object needs_contract one_of json_eq
    text_leb Execute.execute_among Execute.call_claimed Execute.finish Execute.check_executor
    Execute.open_attempt Execute.consume_grant Execute.settle Execute.insert_consumption
    Execute.take_grant Execute.pass_on Execute.claim Execute.call_executor Execute.terminal
    Execute.status_text World.on_attempts Store.consume Store.is_active update changes Defs.create
    Defs.required Defs.find_by_idempotency_key Defs.latest Defs.next_number Defs.insert
    Defs.has_number Defs.get Defs.transition_to Defs.write Defs.apply_change allowed state_eq
    is_terminal
later_run = refl

revoked_unrun_example : the_run.grant_id ≢ "grant-2"
revoked_unrun_example =
    revoked_unrun {w = withdrawn} {u = later} authorities "grant-2" the_run revocation is_withdrawn
      (execute_among-Reaches alone lib gate call withdrawn (λ x. here) (λ x. here) (λ x. here))
      (subst (Memᴰ the_run) (sym later_run) (Memᴰ.head refl))

-- A library whose times can be read back: a time is written as so many marks.
marks : ℕ → String
marks zero = ""
marks (suc n) = String.◌∷◌ "x" (marks n)

unmarked : String → ℕ
unmarked String.[] = 0
unmarked (String.◌∷◌ c s) = suc (unmarked s)

abbrev marking : Library
marking = record lib { fromisoformat = λ t. some (unmarked t); isoformat = λ t. marks t }

abbrev authority : AgentAuthority
authority = record {
  agent_id = "agent";
  policy_version = "v1";
  state = standard;
  trusted_outcomes = 1;
  failed_outcomes = 0;
  last_proof_id = "";
  authority_epoch = 1;
}

-- An intent that does not expire.
abbrev lasting_intent : SignedActionIntent
lasting_intent = record signed_intent { expires_at = "" }

abbrev issue_request : IssueRequest
issue_request = record {
  task_id = "task";
  intent = intent;
  policy_version = "v1";
  evidence_ids = "b" ∷ "a" ∷ [];
  authorized_scope = "public_web";
  ttl_seconds = 300;
  outcome_contract = none;
  authority_state = none;
  authority_context = some authority;
  signed_action_intent = some lasting_intent;
  grant_id = "";
  nonce = "";
  drawn_id = "grant-3";
  drawn_nonce = "nonce-3";
  now = 100;
}

abbrev issued_grant : CapabilityGrant
issued_grant = issued marking default_policy issue_request authority end

abbrev signed_grant : SignedCapabilityGrant
signed_grant = record {
  grant = issued_grant;
  key_id = "signer";
  signature = "grant";
  agent_identity = none;
  algorithm = "Ed25519";
}

abbrev lost : Attempt
lost = record {
  attempt_id = "attempt-0";
  task_id = "task";
  grant_id = "grant";
  intent_hash = "research";
  idempotency_key = "key";
  attempt_number = 1;
  state = State.running;
  created_at = 10;
  lease_expires_at = none;
  started_at = none;
  finished_at = none;
  executor_id = none;
  executor_version = none;
  executor_identity_epoch = 1;
  receipt_id = none;
  error = none;
}

abbrev retry_request : RetryRequest
retry_request = record {
  attempt = some lost;
  intent = intent;
  signed_action_intent = lasting_intent;
  evidence_ids = "b" ∷ "a" ∷ [];
  ttl_seconds = 300;
  authorized_scope = none;
  now = 100;
  grant_id = "";
  nonce = "";
  drawn_id = "grant-3";
  drawn_nonce = "nonce-3";
  clock = 100;
}

retried :
    authorize_retry marking default_policy "signer" (λ e. "grant") retry_request authorities
    ≡ ok signed_grant
unfolding authorize_retry reissued retry_scope intent_eq bools_eq sign check_identity get load
    select transitions_of issue_capability_grant check_signed_intent other_state is_block
    or_contract as_object verify_intent verify_identity check_expiry intent_contract or_no_contract
    lookup validate validate_outcome_contract validate_object needs_contract one_of json_eq
    evaluate_effective_capability check role_allowed_actions wants_evidence is_sensitive
    aegis_forge.Authority.Machine.state_eq
retried = refl

authorize_retry_lem_example :
    IsRetry marking default_policy "signer" (λ e. "grant") retry_request authorities signed_grant
authorize_retry_lem_example =
    authorize_retry_lem marking default_policy "signer" (λ e. "grant") retry_request authorities
      signed_grant retried
