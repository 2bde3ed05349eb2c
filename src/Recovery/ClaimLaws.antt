-- ===== src/Recovery/ClaimLaws.antt =====
-- What `claim_retry` does on each branch, on a keyed table.
use aegis_forge.Prelude.{
  ℕ, String, ◌≡◌, refl, ◌∙◌, inl, inr, Bool, true, false, not, ◌&&◌, Option, none, some, [], ◌∷◌,
  ◌++◌, arith, eq_refl, Bool-cases, Option-cases, if◌then◌else◌,
}
use aegis_forge.Prelude.Result.{Result, ok, err}
use aegis_forge.Prelude.Table.{select, update, IsKeyed}
use aegis_forge.Prelude.Table.Laws.{select-update, select-append, changes-select}
use aegis_forge.Recovery.Reviews.{Review, safe_to_retry, decision_eq}
use aegis_forge.Recovery.Claims.{
  claimed, operation_eq, Operation, Operations, ClaimError, new_operation, is_stale, same_lease,
  renewed, is_lapsed_claim, clashes, acquire, claim_retry, retry_not_safe, integrity_error,
}

-- The claim of a retry that has a row: who may take it over, and what is returned.
abbrev pub reclaimed :
    Review → ℕ → String → Operations → Operation → Result ClaimError (Operation × Bool) × Operations
reclaimed r now token t o =
    if operation_eq o.state claimed && is_stale now o.lease_expires_at
    then (
      ok (
          if same_lease o.lease_expires_at o.lease_expires_at
          then (renewed now token o, true)
          else (o, false)),
      update Operation.recovery_id r.recovery_id (is_lapsed_claim o.lease_expires_at)
          (renewed now token) t,
    )
    else (ok (o, false), t)

abbrev pub claim_or :
    Review
    → ℕ
    → String
    → Operations
    → Option Operation
    → Result ClaimError (Operation × Bool) × Operations
claim_or r now token t none =
    if clashes (new_operation r now token) t
    then (err integrity_error, t)
    else (ok (new_operation r now token, true), t ++ new_operation r now token ∷ [])
claim_or r now token t (some o) = reclaimed r now token t o

module _ (r : Review) (now : ℕ) (token : String) (t : Operations) where
  claim_absent :
      decision_eq r.decision safe_to_retry ≡ true
      → select Operation.recovery_id r.recovery_id t ≡ none
      → claim_retry r now token t ≡ claim_or r now token t none
  unfolding claim_retry acquire
  claim_absent s n = elim (Bool-cases (clashes (new_operation r now token) t)) [
    | inl c ↦ rw s (rw n (rw c refl))
    | inr c ↦ rw s (
        rw n (
          rw c (
            rw
              (select-append Operation.recovery_id r.recovery_id t (new_operation r now token)
                (ground arith))
              (rw (eq_refl r.recovery_id) refl))))
  ]

  module _ (o : Operation) (w : IsKeyed Operation.recovery_id t)
      (s : decision_eq r.decision safe_to_retry ≡ true)
      (n : select Operation.recovery_id r.recovery_id t ≡ some o) where
    taken_over :
        operation_eq o.state claimed ≡ true
        → is_stale now o.lease_expires_at ≡ true
        → claim_retry r now token t ≡ reclaimed r now token t o
    unfolding claim_retry acquire
    taken_over c l =
        let changed =
          changes-select Operation.recovery_id r.recovery_id (is_lapsed_claim o.lease_expires_at) t
            o w n in
        let after =
          select-update Operation.recovery_id r.recovery_id (is_lapsed_claim o.lease_expires_at)
            (renewed now token) (λ x. refl) r.recovery_id t o n in
        elim (Bool-cases (same_lease o.lease_expires_at o.lease_expires_at)) [
          | inl k ↦ rw s (
              rw n (
                rw c
                  (rw l (rw changed (rw after (rw c (rw k (rw (eq_refl r.recovery_id) refl))))))))
          | inr k ↦ rw s (
              rw n (
                rw c
                  (rw l (rw changed (rw after (rw c (rw k (rw (eq_refl r.recovery_id) refl))))))))
        ]

    left_alone :
        (operation_eq o.state claimed && is_stale now o.lease_expires_at) ≡ false
        → claim_retry r now token t ≡ (ok (o, false), t)
    unfolding claim_retry acquire
    left_alone c = rw s (rw n (rw c (rw n refl)))

    claim_present : claim_retry r now token t ≡ claim_or r now token t (some o)
    claim_present =
        elim (Bool-cases (operation_eq o.state claimed && is_stale now o.lease_expires_at)) [
          | inl c ↦ taken_over (ground arith) (ground arith)
          | inr c ↦ left_alone c ∙ rw c refl
        ]

-- `claim_retry` on a keyed table of operations: it raises where the review does not allow a retry,
-- it adds the first claim, it takes over a claim whose lease is over, and else it gives back the
-- operation as it stands, unacquired, and writes nothing. It never meets retry_claim_conflict.
pub claim_retry_lem :
    (r : Review) (now : ℕ) (token : String) (t : Operations)
    → IsKeyed Operation.recovery_id t
    → claim_retry r now token t ≡ (
        if not (decision_eq r.decision safe_to_retry)
        then (err retry_not_safe, t)
        else claim_or r now token t (select Operation.recovery_id r.recovery_id t))
unfolding claim_retry
claim_retry_lem r now token t w = elim (Bool-cases (decision_eq r.decision safe_to_retry)) [
  | inr s ↦ refused s ∙ rw s refl
  | inl s ↦ elim (Option-cases (select Operation.recovery_id r.recovery_id t)) [
    | inl n ↦ claim_absent r now token t s n ∙ rw s (rw n refl)
    | inr (o, n) ↦ claim_present r now token t o w s n ∙ rw s (rw n refl)
  ]
]
  where
    refused :
        decision_eq r.decision safe_to_retry ≡ false
        → claim_retry r now token t ≡ (err retry_not_safe, t)
    refused s = rw s refl
