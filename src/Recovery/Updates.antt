-- ===== src/Recovery/Updates.antt =====
-- shared/execution_recovery.py: `update_retry_operation`, which moves a claimed retry on to its
-- grant and its attempt.
use aegis_forge.Prelude.{
  List, ℕ, String, Bool, true, false, not, ◌&&◌, ◌||◌, Option, none, some, ◌==◌, eqb, leb, is_empty,
  if◌then◌else◌,
}
use aegis_forge.Prelude.Result.{Result, ok, err, pure, raise, raise_if, lift, ◌>>◌}
use aegis_forge.Prelude.Table.{select, update, changes}
use aegis_forge.Recovery.Blank.{is_blank}
use aegis_forge.Recovery.Claims.{
  OperationState, claimed, authorized, created, operation_eq, of_text, Operation, ClaimError,
  ClaimAction, retry_operation_not_found, retry_operation_state_conflict,
  retry_operation_invalid_transition, retry_attempt_id_required, retry_claim_token_conflict,
  retry_claim_expired,
}

-- `allowed_transitions`
unfoldable pub leads : OperationState → OperationState → Bool
leads claimed authorized = true
leads authorized created = true
leads _ _ = false

-- The arguments beside the id and the state.
pub record Progress : Type 0 where
  pub retry_attempt_id : Option String
  pub now : ℕ
  pub claim_token : Option String

-- `not str(text or "").strip()`
unfoldable pub blank_or_none : Option String → Bool
blank_or_none none = true
blank_or_none (some s) = is_blank s

unfoldable pub same_token : Option String → Option String → Bool
same_token (some a) (some b) = a == b
same_token none none = true
same_token _ _ = false

unfoldable pub is_expired : ℕ → Option ℕ → Bool
is_expired now none = false
is_expired now (some t) = leb t now

-- `retry_attempt_id and current[5] not in {None, str(retry_attempt_id)}`
unfoldable pub is_other : Option String → Option String → Bool
is_other (some a) (some b) = not (is_empty a) && not (b == a)
is_other _ _ = false

-- The state that is asked for is the one that stands.
unfoldable pub stand : OperationState → Progress → Operation → ClaimAction (Option Operation)
stand s p current = do
  raise_if (operation_eq s created && is_other p.retry_attempt_id current.retry_attempt_id)
      retry_operation_state_conflict
  pure (some current)

-- The token and the lease of a claim.
unfoldable pub check_claim : Progress → Operation → Result ClaimError (Unit {0})
check_claim p current =
    if operation_eq current.state claimed
    then (if blank_or_none p.claim_token || not (same_token p.claim_token current.claim_token)
        then err retry_claim_token_conflict
        else if is_expired p.now current.lease_expires_at
        then err retry_claim_expired
        else ok tt)
    else ok tt

-- COALESCE(?, column)
coalesce : Option String → Option String → Option String
coalesce none old = old
coalesce (some s) old = some s

unfoldable pub advanced : OperationState → Progress → Operation → Operation
unfolding coalesce
advanced s p o = record o {
  state = s;
  retry_attempt_id = coalesce p.retry_attempt_id o.retry_attempt_id;
  updated_at = p.now;
  claim_token = none;
  lease_expires_at = none;
}

abbrev pub is_at : OperationState → Operation → Bool
is_at s o = operation_eq o.state s

-- The UPDATE with its guard, the state that was read, and the check of its row count.
unfoldable pub advance :
    String → OperationState → OperationState → Progress → ClaimAction (Option Operation)
advance recovery_id from into p t =
    let u = update Operation.recovery_id recovery_id (is_at from) (advanced into p) t in
    if eqb (changes Operation.recovery_id recovery_id (is_at from) t) 1
    then (ok (select Operation.recovery_id recovery_id u), u)
    else (err retry_operation_state_conflict, t)

unfoldable pub progress_to :
    String → OperationState → Progress → Operation → ClaimAction (Option Operation)
progress_to recovery_id s p current = do
  raise_if (not (leads current.state s)) retry_operation_invalid_transition
  raise_if (operation_eq s created && blank_or_none p.retry_attempt_id) retry_attempt_id_required
  lift (check_claim p current)
  advance recovery_id current.state s p

unfoldable pub move_to :
    Option OperationState → String → Progress → Operation → ClaimAction (Option Operation)
move_to none recovery_id p current = raise retry_operation_invalid_transition
move_to (some s) recovery_id p current =
    if operation_eq s current.state then stand s p current else progress_to recovery_id s p current

unfoldable pub on_operation :
    Option Operation → String → String → Progress → ClaimAction (Option Operation)
on_operation none recovery_id state p = raise retry_operation_not_found
on_operation (some current) recovery_id state p = move_to (of_text state) recovery_id p current

get_retry_operation : String → List Operation → Option Operation
get_retry_operation recovery_id t = select Operation.recovery_id recovery_id t

unfoldable pub update_retry_operation : String → String → Progress → ClaimAction (Option Operation)
unfolding on_operation get_retry_operation
update_retry_operation recovery_id state p t =
    on_operation (get_retry_operation recovery_id t) recovery_id state p t
