-- ===== src/Recovery/Reviews.antt =====
-- shared/execution_recovery.py: the reviews of attempts whose executor was lost.
use aegis_forge.Prelude.{
  ℕ, String, Bool, true, false, not, ◌&&◌, ◌||◌, Option, none, some, List, [], ◌∷◌, ◌++◌, ◌==◌, ◌≡◌,
  ◌↔◌, arith, eqb, is_empty, if◌then◌else◌,
}
use aegis_forge.Prelude.Result.{Result, ok, err, Action, pure, raise, raise_if, lift, ◌>>=◌, ◌>>◌}
use aegis_forge.Prelude.Table.{select, has_key, update, changes}
use aegis_forge.Attempt.State.{running, state_eq}
use aegis_forge.Attempt.Defs.{Attempt}
use aegis_forge.Recovery.Blank.{is_blank, strip}

pub data RecoveryDecision : Type 0 where
  unknown side_effect_confirmed safe_to_retry quarantined : RecoveryDecision

order : RecoveryDecision → ℕ
order unknown = 0
order side_effect_confirmed = 1
order safe_to_retry = 2
order quarantined = 3

unfoldable pub decision_eq : RecoveryDecision → RecoveryDecision → Bool
unfolding order
decision_eq a b = eqb (order a) (order b)

pub decision_eq_iff : (a b : RecoveryDecision) → (decision_eq a b ≡ true) ↔ (a ≡ b)
unfolding decision_eq
decision_eq_iff a b = ground arith

-- `RecoveryDecision(text)`; `none` where it raises `ValueError`.
unfoldable pub of_decision : String → Option RecoveryDecision
of_decision s =
    if s == "UNKNOWN"
    then some unknown
    else if s == "SIDE_EFFECT_CONFIRMED"
    then some side_effect_confirmed
    else if s == "SAFE_TO_RETRY"
    then some safe_to_retry
    else if s == "QUARANTINED"
    then some quarantined
    else none

-- The last four columns are NULL until the review is resolved.
pub record Review : Type 0 where
  pub recovery_id : String
  pub attempt_id : String
  pub task_id : String
  pub idempotency_key : String
  pub decision : RecoveryDecision
  pub verifier_id : Option String
  pub outcome_id : Option String
  pub reason : Option String
  pub reviewed_at : ℕ

pub data RecoveryError : Type 0 where
  recovery_requires_running_attempt recovery_receipt_already_recorded : RecoveryError
  recovery_review_conflict recovery_not_found invalid_recovery_decision : RecoveryError
  retry_verifier_required outcome_verifier_required outcome_id_required : RecoveryError
  recovery_already_resolved recovery_state_conflict : RecoveryError
  invalid_recovery_verification_status recovery_verifier_required : RecoveryError
  recovery_outcome_id_required : RecoveryError

abbrev pub Reviews : Type 0
Reviews = List Review

abbrev pub ReviewAction : Type 0 → Type 0
ReviewAction A = Action RecoveryError Reviews A

found : Option Review → Result RecoveryError Review
found none = err recovery_not_found
found (some r) = ok r

unfoldable pub get_review : String → ReviewAction Review
unfolding found
get_review recovery_id t = (found (select Review.recovery_id recovery_id t), t)

get_row : Option Review → ReviewAction (Option Review)
unfolding get_review
get_row none = pure none
get_row (some r) = do a ← get_review r.recovery_id; pure (some a)

unfoldable pub get_by_attempt : String → ReviewAction (Option Review)
unfolding get_row
get_by_attempt attempt_id t = get_row (select Review.attempt_id attempt_id t) t

-- The review that `open` makes; in the table its last columns are NULL.
abbrev pub new_review : Attempt → ℕ → String → Review
new_review a now fresh = record {
  recovery_id = fresh;
  attempt_id = a.attempt_id;
  task_id = a.task_id;
  idempotency_key = a.idempotency_key;
  decision = unknown;
  verifier_id = some "";
  outcome_id = some "";
  reason = some "";
  reviewed_at = now;
}

abbrev pub as_row : Review → Review
as_row r = record r { verifier_id = none; outcome_id = none; reason = none }

-- Where the INSERT met a unique column: the review of the same attempt, if there is one.
unfoldable pub conflicting : Option Review → ReviewAction Review
conflicting none = raise recovery_review_conflict
conflicting (some r) = pure r

-- The INSERT; a taken id and a taken attempt are both an IntegrityError.
unfoldable pub insert_review : Review → ReviewAction Review
insert_review r t =
    if has_key Review.recovery_id r.recovery_id t || has_key Review.attempt_id r.attempt_id t
    then (get_by_attempt r.attempt_id >>= conflicting) t
    else (ok r, t ++ as_row r ∷ [])

-- `if attempt.receipt_id`
unfoldable pub has_text : Option String → Bool
has_text none = false
has_text (some s) = not (is_empty s)

unfoldable pub open_new : Attempt → ℕ → String → Option Review → ReviewAction Review
open_new a now fresh none = insert_review (new_review a now fresh)
open_new a now fresh (some r) = pure r

unfoldable pub open_review : Attempt → ℕ → String → ReviewAction Review
open_review a now fresh = do
  raise_if (not (state_eq a.state running)) recovery_requires_running_attempt
  raise_if (has_text a.receipt_id) recovery_receipt_already_recorded
  existing ← get_by_attempt a.attempt_id
  open_new a now fresh existing

-- What `resolve` is told beside the decision; a text may be None.
pub record Verdict : Type 0 where
  pub verifier_id : Option String
  pub outcome_id : Option String
  pub reason : Option String
  pub now : ℕ

-- `str(value)`
unfoldable pub str : Option String → String
str none = "None"
str (some s) = s

-- `str(value or "")`
unfoldable pub str_or_empty : Option String → String
str_or_empty none = ""
str_or_empty (some s) = s

unfoldable pub is_positive : RecoveryDecision → Bool
is_positive side_effect_confirmed = true
is_positive safe_to_retry = true
is_positive _ = false

unfoldable pub check_verdict : RecoveryDecision → Verdict → Result RecoveryError (Unit {0})
check_verdict d v =
    if decision_eq d safe_to_retry && is_blank (str v.verifier_id)
    then err retry_verifier_required
    else if decision_eq d side_effect_confirmed && is_blank (str v.verifier_id)
    then err outcome_verifier_required
    else if is_positive d && is_blank (str v.outcome_id)
    then err outcome_id_required
    else ok tt

abbrev pub settled : RecoveryDecision → Verdict → Review → Review
settled d v r = record r {
  decision = d;
  verifier_id = some (str_or_empty v.verifier_id);
  outcome_id = some (str_or_empty v.outcome_id);
  reason = some (str_or_empty v.reason);
  reviewed_at = v.now;
}

abbrev pub is_open : Review → Bool
is_open r = decision_eq r.decision unknown

-- The UPDATE with its guard, and the check of its row count.
unfoldable pub settle : String → RecoveryDecision → Verdict → ReviewAction Review
settle recovery_id d v t =
    if eqb (changes Review.recovery_id recovery_id is_open t) 1
    then get_review recovery_id (update Review.recovery_id recovery_id is_open (settled d v) t)
    else (err recovery_state_conflict, t)

unfoldable pub resolve_to : String → RecoveryDecision → Verdict → ReviewAction Review
resolve_to recovery_id d v = do
  lift (check_verdict d v)
  current ← get_review recovery_id
  raise_if (not (is_open current)) recovery_already_resolved
  settle recovery_id d v

decoded : Option RecoveryDecision → String → Verdict → ReviewAction Review
decoded none recovery_id v = raise invalid_recovery_decision
decoded (some d) recovery_id v = resolve_to recovery_id d v

unfoldable pub resolve : String → String → Verdict → ReviewAction Review
unfolding decoded
resolve recovery_id decision v = decoded (of_decision decision) recovery_id v

-- The keys of the verification that `resolve_verified` reads; `none` where one is missing.
pub record Verification : Type 0 where
  pub status : Option String
  pub verifier : Option String
  pub outcome_id : Option String

-- `str(value or "").strip()`
text_of : Option String → String
text_of none = ""
text_of (some s) = strip s

status_of : Option String → Option RecoveryDecision
status_of none = none
status_of (some s) = of_decision s

checked : Option RecoveryDecision → Result RecoveryError RecoveryDecision
checked none = err invalid_recovery_verification_status
checked (some unknown) = err invalid_recovery_verification_status
checked (some d) = ok d

unfoldable pub resolve_verified : String → Verification → ℕ → ReviewAction Review
unfolding checked status_of text_of
resolve_verified recovery_id x now = do
  d ← lift (checked (status_of x.status))
  raise_if (is_empty (text_of x.verifier)) recovery_verifier_required
  raise_if (is_empty (text_of x.outcome_id)) recovery_outcome_id_required
  resolve_to recovery_id d (record {
    verifier_id = some (text_of x.verifier);
    outcome_id = some (text_of x.outcome_id);
    reason = some "independent_outcome_verification";
    now = now;
  })

unfoldable pub can_retry : String → ReviewAction Bool
can_retry recovery_id = do r ← get_review recovery_id; pure (decision_eq r.decision safe_to_retry)
