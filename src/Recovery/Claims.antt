-- ===== src/Recovery/Claims.antt =====
-- shared/execution_recovery.py: the claims on the retries that a review allows. A claim is a lease
-- with a token, so that of several workers one prepares the retry.
use Prim.Native.String
use mathlib.Core.List.{◌++◌}
use aegis_forge.Prelude.{
  ℕ, ◌+◌, String, Bool, true, false, not, ◌&&◌, ◌||◌, Option, none, some, List, [], ◌∷◌, ◌==◌, ◌≡◌,
  ◌↔◌, arith, eqb, leb, if◌then◌else◌,
}
use aegis_forge.Prelude.Result.{ok, err, Action, pure, raise, raise_if, ◌>>=◌, ◌>>◌}
use aegis_forge.Prelude.Table.{select, has_key, update, changes}
use aegis_forge.Recovery.Reviews.{Review, safe_to_retry, decision_eq}

pub data OperationState : Type 0 where
  claimed authorized created : OperationState

order : OperationState → ℕ
order claimed = 0
order authorized = 1
order created = 2

unfoldable pub operation_eq : OperationState → OperationState → Bool
unfolding order
operation_eq a b = eqb (order a) (order b)

pub operation_eq_iff : (a b : OperationState) → (operation_eq a b ≡ true) ↔ (a ≡ b)
unfolding operation_eq
operation_eq_iff a b = ground arith

unfoldable pub of_text : String → Option OperationState
of_text s =
    if s == "CLAIMED"
    then some claimed
    else if s == "AUTHORIZED"
    then some authorized
    else if s == "CREATED"
    then some created
    else none

pub record Operation : Type 0 where
  pub recovery_id : String
  pub attempt_id : String
  pub operation_key : String
  pub state : OperationState
  pub retry_grant_id : String
  pub retry_attempt_id : Option String
  pub created_at : ℕ
  pub updated_at : ℕ
  pub claim_token : Option String
  pub lease_expires_at : Option ℕ

pub data ClaimError : Type 0 where
  retry_not_safe retry_claim_conflict retry_operation_not_found : ClaimError
  retry_operation_state_conflict retry_operation_invalid_transition : ClaimError
  retry_attempt_id_required retry_claim_token_conflict retry_claim_expired : ClaimError
  -- an `sqlite3.IntegrityError` that `claim_retry` raises again
  integrity_error : ClaimError

abbrev pub Operations : Type 0
Operations = List Operation

abbrev pub ClaimAction : Type 0 → Type 0
ClaimAction A = Action ClaimError Operations A

-- timedelta(seconds=CLAIM_LEASE_SECONDS)
abbrev pub claim_lease : ℕ
claim_lease = 60000000

abbrev pub new_operation : Review → ℕ → String → Operation
new_operation r now token = record {
  recovery_id = r.recovery_id;
  attempt_id = r.attempt_id;
  operation_key = String.◌++◌ "retry_" r.recovery_id;
  state = claimed;
  retry_grant_id = String.◌++◌ "retry-grant_" r.recovery_id;
  retry_attempt_id = none;
  created_at = now;
  updated_at = now;
  claim_token = some token;
  lease_expires_at = some (now + claim_lease);
}

-- The lease is over, or there is none.
unfoldable pub is_stale : ℕ → Option ℕ → Bool
is_stale now none = true
is_stale now (some t) = leb t now

-- `lease_expires_at=?` in SQL: NULL equals nothing.
unfoldable pub same_lease : Option ℕ → Option ℕ → Bool
same_lease (some a) (some b) = eqb a b
same_lease _ _ = false

abbrev pub renewed : ℕ → String → Operation → Operation
renewed now token o = record o {
  claim_token = some token;
  lease_expires_at = some (now + claim_lease);
  updated_at = now;
}

-- The guard of the UPDATE that takes a claim over; `seen` is the lease that was read.
abbrev pub is_lapsed_claim : Option ℕ → Operation → Bool
is_lapsed_claim seen o = operation_eq o.state claimed && same_lease o.lease_expires_at seen

abbrev pub clashes : Operation → Operations → Bool
clashes o t =
    has_key Operation.recovery_id o.recovery_id t
    || has_key Operation.attempt_id o.attempt_id t
    || has_key Operation.operation_key o.operation_key t

-- The body of the transaction: whether the claim was acquired.
unfoldable pub acquire : Review → ℕ → String → Option Operation → ClaimAction Bool
acquire r now token none t =
    if clashes (new_operation r now token) t
    then (err integrity_error, t)
    else (ok true, t ++ new_operation r now token ∷ [])
acquire r now token (some o) t =
    if operation_eq o.state claimed && is_stale now o.lease_expires_at
    then (
      ok (
          eqb (changes Operation.recovery_id r.recovery_id (is_lapsed_claim o.lease_expires_at) t)
            1),
      update Operation.recovery_id r.recovery_id (is_lapsed_claim o.lease_expires_at)
          (renewed now token) t,
    )
    else (ok false, t)

claim_row : Bool → Option Operation → ClaimAction (Operation × Bool)
claim_row acquired none = raise retry_claim_conflict
claim_row acquired (some o) = pure (o, acquired)

-- The SELECT after the transaction.
read_claim : String → Bool → ClaimAction (Operation × Bool)
unfolding claim_row
read_claim recovery_id acquired t =
    claim_row acquired (select Operation.recovery_id recovery_id t) t

-- The transaction is BEGIN IMMEDIATE: no other connection writes between its SELECT and its write.
transaction : Review → ℕ → String → ClaimAction Bool
transaction r now token t = acquire r now token (select Operation.recovery_id r.recovery_id t) t

unfoldable pub claim_retry : Review → ℕ → String → ClaimAction (Operation × Bool)
unfolding read_claim transaction claim_row
claim_retry r now token = do
  raise_if (not (decision_eq r.decision safe_to_retry)) retry_not_safe
  acquired ← transaction r now token
  read_claim r.recovery_id acquired
