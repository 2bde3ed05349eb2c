-- ===== src/Recovery/Examples.antt =====
-- A lost attempt that is reviewed, and two workers that claim its retry.
use aegis_forge.Prelude.{
  ◌≡◌, refl, true, false, not, none, some, [], ◌∷◌, Memᴰ, arith, if◌then◌else◌,
}
use aegis_forge.Prelude.Result.{ok, err}
use aegis_forge.Prelude.Table.{select, has_key, update, changes}
use aegis_forge.Attempt.State.{running, state_eq}
use aegis_forge.Attempt.Defs.{Attempt}
use aegis_forge.Recovery.Blank.{is_blank, strip}
use aegis_forge.Recovery.Reviews.{
  Review, Verdict, safe_to_retry, quarantined, decision_eq, of_decision, new_review, as_row,
  open_review, open_new, get_by_attempt, get_review, insert_review, has_text, is_positive,
  check_verdict, str, str_or_empty, settled, settle, resolve_to, resolve_verified,
  recovery_requires_running_attempt, recovery_receipt_already_recorded,
}
use aegis_forge.Recovery.ReviewLaws.{IsValid-empty}
use aegis_forge.Recovery.Resolving.{
  verdict_or, refusal, resolution_or, reopened, resolve_to_lem, open_review_lem,
}
use aegis_forge.Recovery.ReviewHistory.{
  Reach, here, next, opened, resolved, Reach-IsValid, Lasts, reviews_last,
}
use aegis_forge.Recovery.Claims.{
  operation_eq, of_text, Operation, new_operation, is_stale, same_lease, acquire, claim_retry,
  retry_not_safe, retry_claim_token_conflict,
}
use aegis_forge.Recovery.Updates.{
  Progress, leads, blank_or_none, same_token, check_claim, progress_to, move_to,
  update_retry_operation,
}
use aegis_forge.Recovery.ClaimLaws.{claim_or, claim_retry_lem}
use aegis_forge.Recovery.Fencing.{claim_exclusive}
use aegis_forge.Recovery.Tokens.{granted, claim_fences}
use aegis_forge.Recovery.ClaimRows.{Lasts as OperationLasts}
use aegis_forge.Recovery.ClaimHistory.{
  Reach as Claimed, here as nothing, next as later, claimed_by, one_retry_per_attempt,
  operations_last,
}

abbrev lost : Attempt
lost = record {
  attempt_id = "attempt_1";
  task_id = "task";
  grant_id = "grant-1";
  intent_hash = "hash";
  idempotency_key = "key";
  attempt_number = 1;
  state = running;
  created_at = 100;
  lease_expires_at = some 500;
  started_at = some 200;
  finished_at = none;
  executor_id = some "exec";
  executor_version = some "1";
  executor_identity_epoch = 1;
  receipt_id = none;
  error = none;
}

abbrev pending : Review
pending = as_row (new_review lost 1000 "recovery_1")

abbrev verdict : Verdict
verdict = record {
  verifier_id = some "probe";
  outcome_id = some "outcome_1";
  reason = some "absent";
  now = 2000;
}

abbrev cleared : Review
cleared = settled safe_to_retry verdict pending

opened_first :
    open_review lost 1000 "recovery_1" [] ≡ (ok (new_review lost 1000 "recovery_1"), pending ∷ [])
unfolding open_review open_new get_by_attempt insert_review state_eq has_text select has_key
opened_first = refl

cleared_first :
    resolve_to "recovery_1" safe_to_retry verdict (pending ∷ []) ≡ (ok cleared, cleared ∷ [])
unfolding resolve_to check_verdict str str_or_empty decision_eq is_positive is_blank get_review
    settle select update changes
cleared_first = refl

cleared_by_verifier :
    (resolve_verified "recovery_1"
      (record {
        status = some "SAFE_TO_RETRY";
        verifier = some " probe ";
        outcome_id = some "outcome_1";
      })
      2000
      (pending ∷ [])).1
    ≡ record cleared { reason = some "independent_outcome_verification" } ∷ []
unfolding resolve_verified of_decision strip resolve_to check_verdict str str_or_empty decision_eq
    is_positive is_blank get_review settle select update changes
cleared_by_verifier = refl

reviewed : Reach [] (cleared ∷ [])
unfolding open_review open_new get_by_attempt insert_review state_eq has_text select has_key
    resolve_to check_verdict str str_or_empty decision_eq is_positive is_blank get_review settle
    update changes
reviewed =
    next (next here (opened lost 1000 "recovery_1" refl))
      (resolved "recovery_1" safe_to_retry verdict refl)

reviews_last_example :
    (r' : Review) × (select Review.recovery_id "recovery_1" (cleared ∷ []) ≡ some r')
    × Lasts pending r'
unfolding resolve_to check_verdict str str_or_empty decision_eq is_positive is_blank get_review
    settle select update changes
reviews_last_example =
    reviews_last {t = pending ∷ []} "recovery_1" pending
      (next here (resolved "recovery_1" safe_to_retry verdict refl)) refl

resolve_to_lem_example :
    resolve_to "recovery_1" quarantined verdict (cleared ∷ [])
    ≡ verdict_or (refusal quarantined verdict) (cleared ∷ []) (
        resolution_or "recovery_1" quarantined verdict
          (cleared ∷ [])
          (select Review.recovery_id "recovery_1" (cleared ∷ [])))
resolve_to_lem_example =
    resolve_to_lem "recovery_1" quarantined verdict (cleared ∷ [])
      (Reach-IsValid IsValid-empty reviewed)

open_review_lem_example : open_review lost 3000 "recovery_2" (cleared ∷ []) ≡ (
    if not (state_eq running running)
    then (err recovery_requires_running_attempt, cleared ∷ [])
    else if has_text none
    then (err recovery_receipt_already_recorded, cleared ∷ [])
    else reopened lost 3000 "recovery_2"
        (cleared ∷ [])
        (select Review.attempt_id "attempt_1" (cleared ∷ [])))
open_review_lem_example =
    open_review_lem lost 3000 "recovery_2" (cleared ∷ []) (Reach-IsValid IsValid-empty reviewed)

abbrev by_first : Operation
by_first = new_operation cleared 3000 "claim_a"

claimed_first : claim_retry cleared 3000 "claim_a" [] ≡ (ok (by_first, true), by_first ∷ [])
unfolding claim_retry acquire decision_eq select has_key
claimed_first = refl

refused_unknown : claim_retry pending 3000 "claim_a" [] ≡ (err retry_not_safe, [])
unfolding claim_retry decision_eq
refused_unknown = refl

claim_retry_lem_example : claim_retry cleared 70000000 "claim_b" (by_first ∷ []) ≡ (
    if not (decision_eq safe_to_retry safe_to_retry)
    then (err retry_not_safe, by_first ∷ [])
    else claim_or cleared 70000000 "claim_b"
        (by_first ∷ [])
        (select Operation.recovery_id "recovery_1" (by_first ∷ [])))
unfolding has_key
claim_retry_lem_example = claim_retry_lem cleared 70000000 "claim_b" (by_first ∷ []) (refl, tt)

claim_exclusive_example :
    claim_retry cleared 3500 "claim_b" (by_first ∷ []) ≡ (ok (by_first, false), by_first ∷ [])
unfolding claim_retry acquire decision_eq select has_key
claim_exclusive_example =
    claim_exclusive cleared cleared 3000 3500 "claim_a" "claim_b" [] (by_first ∷ []) by_first tt
      refl refl refl (omega arith)

abbrev by_second : Operation
by_second = record by_first {
  claim_token = some "claim_b";
  lease_expires_at = some 130000000;
  updated_at = 70000000;
}

abbrev late_move : Progress
late_move = record { retry_attempt_id = none; now = 70000001; claim_token = some "claim_a" }

claim_fences_example :
    update_retry_operation "recovery_1" "AUTHORIZED" late_move (by_second ∷ [])
    ≡ granted "recovery_1" 70000000 "claim_b" by_second (by_second ∷ []) late_move
unfolding claim_retry acquire decision_eq select has_key operation_eq is_stale changes update
    same_lease
claim_fences_example =
    claim_fences cleared 70000000 "claim_b" (by_first ∷ []) (by_second ∷ []) by_second late_move
      (refl, tt) refl

-- The first worker comes back with its old token.
fenced_off :
    update_retry_operation "recovery_1" "AUTHORIZED" late_move (by_second ∷ [])
    ≡ (err retry_claim_token_conflict, by_second ∷ [])
unfolding update_retry_operation move_to of_text progress_to check_claim leads blank_or_none
    same_token is_blank operation_eq select
fenced_off = refl

claim_history : Claimed [] (by_first ∷ [])
unfolding claim_retry acquire decision_eq select has_key
claim_history = later nothing (claimed_by cleared 3000 "claim_a" refl)

one_retry_per_attempt_example : by_first ≡ by_first
one_retry_per_attempt_example =
    one_retry_per_attempt by_first by_first claim_history (Memᴰ.head refl) (Memᴰ.head refl) refl

operations_last_example :
    (o' : Operation) × (select Operation.recovery_id "recovery_1" (by_second ∷ []) ≡ some o')
    × OperationLasts by_first o'
unfolding claim_retry acquire decision_eq select has_key operation_eq is_stale changes update
    same_lease
operations_last_example =
    operations_last {t = by_first ∷ []} "recovery_1" by_first
      (later nothing (claimed_by cleared 70000000 "claim_b" refl)) refl
