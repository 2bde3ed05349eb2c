-- ===== src/Recovery/Resolving.antt =====
-- What `resolve` and `open` do on each branch, on a table that satisfies its invariant.
use aegis_forge.Prelude.{
  ℕ, String, ◌≡◌, refl, inl, inr, true, false, ap, ◌∙◌, Bool, arith, not, Option, none, some, [],
  ◌∷◌, ◌++◌, eq_refl, Bool-cases, Option-cases, if◌then◌else◌,
}
use aegis_forge.Prelude.Result.{Result, ok, err}
use aegis_forge.Prelude.Table.{select, has_key, update, IsKeyed}
use aegis_forge.Prelude.Table.Laws.{
  select-update, has_key-none, Mem-select, select-Mem, changes-select,
}
use aegis_forge.Attempt.State.{running, state_eq}
use aegis_forge.Attempt.Defs.{Attempt}
use aegis_forge.Recovery.Reviews.{
  RecoveryDecision, Review, Reviews, RecoveryError, Verdict, check_verdict, settled, is_open, str,
  str_or_empty, is_positive, decision_eq, retry_verifier_required, outcome_verifier_required,
  outcome_id_required, safe_to_retry, side_effect_confirmed, settle, resolve_to, get_review,
  get_by_attempt, insert_review, new_review, as_row, open_new, open_review,
  recovery_already_resolved, has_text, conflicting, recovery_not_found,
  recovery_requires_running_attempt, recovery_receipt_already_recorded, recovery_review_conflict,
}
use aegis_forge.Recovery.Blank.{is_blank}
use aegis_forge.Recovery.ReviewLaws.{IsValid}

-- How a text of the verdict is stored.
kept : Option String → Option String
kept none = some ""
kept (some s) = some s

-- The review with the verdict.
unfoldable pub decided : RecoveryDecision → Verdict → Review → Review
unfolding kept
decided d v r = record r {
  decision = d;
  verifier_id = kept v.verifier_id;
  outcome_id = kept v.outcome_id;
  reason = kept v.reason;
  reviewed_at = v.now;
}

str_or_empty-kept : (o : Option String) → some (str_or_empty o) ≡ kept o
unfolding str_or_empty kept
str_or_empty-kept none = refl
str_or_empty-kept (some s) = refl

settled-decided : (d : RecoveryDecision) (v : Verdict) → settled d v ≡ decided d v
unfolding decided
settled-decided d v =
    let with_texts = λ (x y z : Option String) (r : Review). record r {
      decision = d;
      verifier_id = x;
      outcome_id = y;
      reason = z;
      reviewed_at = v.now;
    } in
    let b = some (str_or_empty v.outcome_id) in
    let c = some (str_or_empty v.reason) in
    ap (λ x. with_texts x b c) (str_or_empty-kept v.verifier_id)
    ∙ ap (λ x. with_texts (kept v.verifier_id) x c) (str_or_empty-kept v.outcome_id)
    ∙ ap (with_texts (kept v.verifier_id) (kept v.outcome_id)) (str_or_empty-kept v.reason)

-- Which verdicts are refused, decision by decision: a text that is given is not blank.
blank_text : Option String → Bool
blank_text none = false
blank_text (some s) = is_blank s

unfoldable pub refusal : RecoveryDecision → Verdict → Option RecoveryError
unfolding blank_text
refusal safe_to_retry v =
    if blank_text v.verifier_id
    then some retry_verifier_required
    else if blank_text v.outcome_id
    then some outcome_id_required
    else none
refusal side_effect_confirmed v =
    if blank_text v.verifier_id
    then some outcome_verifier_required
    else if blank_text v.outcome_id
    then some outcome_id_required
    else none
refusal _ v = none

-- The result for the review that was found.
abbrev pub resolution :
    String → RecoveryDecision → Verdict → Reviews → Review → Result RecoveryError Review × Reviews
resolution i d v t r =
    if is_open r
    then (ok (decided d v r), update Review.recovery_id i is_open (decided d v) t)
    else (err recovery_already_resolved, t)

abbrev pub resolution_or :
    String
    → RecoveryDecision
    → Verdict
    → Reviews
    → Option Review
    → Result RecoveryError Review × Reviews
resolution_or i d v t none = (err recovery_not_found, t)
resolution_or i d v t (some r) = resolution i d v t r

abbrev pub verdict_or :
    Option RecoveryError
    → Reviews
    → Result RecoveryError Review × Reviews
    → Result RecoveryError Review × Reviews
verdict_or (some e) t rest = (err e, t)
verdict_or none t rest = rest

abbrev as_result : Option RecoveryError → Result RecoveryError (Unit {0})
as_result none = ok tt
as_result (some e) = err e

blank_text-str : (o : Option String) → is_blank (str o) ≡ blank_text o
unfolding str is_blank blank_text
blank_text-str none = refl
blank_text-str (some s) = refl

check_verdict-refusal :
    (d : RecoveryDecision) (v : Verdict) → check_verdict d v ≡ as_result (refusal d v)
unfolding check_verdict refusal decision_eq is_positive
check_verdict-refusal d v =
    let a = blank_text-str v.verifier_id in
    let b = blank_text-str v.outcome_id in ground (arith, a, b)

settle_open :
    (i : String) (d : RecoveryDecision) (v : Verdict) (t : Reviews) (r : Review)
    → IsKeyed Review.recovery_id t
    → select Review.recovery_id i t ≡ some r
    → is_open r ≡ true
    → settle i d v t ≡ (ok (settled d v r), update Review.recovery_id i is_open (settled d v) t)
unfolding settle get_review
settle_open i d v t r w e k = rw (changes-select Review.recovery_id i is_open t r w e) (
    rw k (
      rw (select-update Review.recovery_id i is_open (settled d v) (λ x. refl) i t r e)
        (rw k (rw (eq_refl i) refl))))

-- `resolve` on a table with its invariant: for SAFE_TO_RETRY and SIDE_EFFECT_CONFIRMED a blank
-- verifier, and then a blank outcome, is refused; then recovery_not_found, then
-- recovery_already_resolved, each writing nothing; else it gives back the review with the verdict,
-- where None is stored as the empty text, and writes that to its row alone. It never meets
-- recovery_state_conflict.
pub resolve_to_lem :
    (i : String) (d : RecoveryDecision) (v : Verdict) (t : Reviews)
    → IsValid t
    → resolve_to i d v t
      ≡ verdict_or (refusal d v) t (resolution_or i d v t (select Review.recovery_id i t))
unfolding resolve_to get_review
resolve_to_lem i d v t w = rw (check_verdict-refusal d v) (elim (Option-cases (refusal d v)) [
  | inr (e, h) ↦ rw h refl
  | inl h ↦ elim (Option-cases (select Review.recovery_id i t)) [
    | inl n ↦ rw h (rw n refl)
    | inr (r, n) ↦ elim (Bool-cases (is_open r)) [
      | inr k ↦ rw h (rw n (rw k refl))
      | inl k ↦ rw h (
          rw n (
            rw k (
              settle_open i d v t r w.keyed n k
              ∙ ap (λ f. (ok (f r), update Review.recovery_id i is_open f t))
                  (settled-decided d v))))
    ]
  ]
])

-- What `open` gives for the review of the attempt, if there is one.
abbrev pub reopened :
    Attempt → ℕ → String → Reviews → Option Review → Result RecoveryError Review × Reviews
reopened a now fresh t (some r) = (ok r, t)
reopened a now fresh t none =
    if has_key Review.recovery_id fresh t
    then (err recovery_review_conflict, t)
    else (ok (new_review a now fresh), t ++ as_row (new_review a now fresh) ∷ [])

get_by_attempt_lem :
    (a : String) (t : Reviews)
    → IsKeyed Review.recovery_id t
    → get_by_attempt a t ≡ (ok (select Review.attempt_id a t), t)
unfolding get_by_attempt get_review
get_by_attempt_lem a t w = elim (Option-cases (select Review.attempt_id a t)) [
  | inl n ↦ rw n refl
  | inr (r, n) ↦
      rw n (rw (select-Mem Review.recovery_id t r w (Mem-select Review.attempt_id a t r n)) refl)
]

insert_review_new :
    (r : Review) (t : Reviews)
    → IsKeyed Review.recovery_id t
    → select Review.attempt_id r.attempt_id t ≡ none
    → insert_review r t ≡ (
        if has_key Review.recovery_id r.recovery_id t
        then (err recovery_review_conflict, t)
        else (ok r, t ++ as_row r ∷ []))
unfolding insert_review conflicting
insert_review_new r t w n = elim (Bool-cases (has_key Review.recovery_id r.recovery_id t)) [
  | inl k ↦ rw k (rw (get_by_attempt_lem r.attempt_id t w) (rw n refl))
  | inr k ↦ rw k (rw (has_key-none Review.attempt_id r.attempt_id t n) refl)
]

-- `open` on a table with its invariant: an attempt that is not RUNNING, and one with a receipt, is
-- refused; an attempt with a review gets that review, and nothing is written; for any other a new
-- UNKNOWN review is added, unless the id that was drawn is taken.
pub open_review_lem :
    (a : Attempt) (now : ℕ) (fresh : String) (t : Reviews)
    → IsValid t
    → open_review a now fresh t ≡ (
        if not (state_eq a.state running)
        then (err recovery_requires_running_attempt, t)
        else if has_text a.receipt_id
        then (err recovery_receipt_already_recorded, t)
        else reopened a now fresh t (select Review.attempt_id a.attempt_id t))
unfolding open_review open_new
open_review_lem a now fresh t w = elim (Bool-cases (state_eq a.state running)) [
  | inr e ↦ rw e refl
  | inl e ↦ elim (Bool-cases (has_text a.receipt_id)) [
    | inl k ↦ rw e (rw k refl)
    | inr k ↦ elim (Option-cases (select Review.attempt_id a.attempt_id t)) [
      | inr (r, n) ↦ rw e (rw k (rw (get_by_attempt_lem a.attempt_id t w.keyed) (rw n refl)))
      | inl n ↦ rw e (
          rw k (
            rw (get_by_attempt_lem a.attempt_id t w.keyed)
              (rw n (insert_review_new (new_review a now fresh) t w.keyed n))))
    ]
  ]
]
