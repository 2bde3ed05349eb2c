-- ===== src/Recovery/Tokens.antt =====
-- The token of a claim shuts out the earlier holders, and its lease ends.
use aegis_forge.Prelude.{
  ℕ, ◌+◌, String, ◌≡◌, refl, ap, ◌∙◌, inl, inr, true, false, not, ◌||◌, Option, some, arith,
  eq_refl, Bool-cases, leb, if◌then◌else◌,
}
use aegis_forge.Prelude.Result.{Result, ok, err, lift, ◌>>=◌}
use aegis_forge.Prelude.Table.{select, update, IsKeyed}
use aegis_forge.Prelude.Table.Laws.{select-update, changes-select}
use aegis_forge.Recovery.Reviews.{Review}
use aegis_forge.Recovery.Claims.{
  OperationState, created, claimed, authorized, operation_eq, operation_eq_iff, of_text, Operation,
  Operations, ClaimError, claim_lease, claim_retry, retry_claim_token_conflict, retry_claim_expired,
}
use aegis_forge.Recovery.Updates.{
  Progress, update_retry_operation, move_to, progress_to, check_claim, leads, same_token,
  blank_or_none, advance, advanced, is_at, is_expired,
}
use aegis_forge.Recovery.Fencing.{IsHeld, claim_retry-IsHeld}

advanced-key :
    (into : OperationState) (p : Progress) (o : Operation)
    → (advanced into p o).recovery_id ≡ o.recovery_id
unfolding advanced
advanced-key into p o = refl

advance_lem :
    (i : String) (from into : OperationState) (p : Progress) (o : Operation) (u : Operations)
    → IsKeyed Operation.recovery_id u
    → select Operation.recovery_id i u ≡ some o
    → operation_eq o.state from ≡ true
    → advance i from into p u ≡ (
      ok (some (advanced into p o)),
      update Operation.recovery_id i (is_at from) (advanced into p) u,
    )
unfolding advance
advance_lem i from into p o u w n g =
    rw (changes-select Operation.recovery_id i (is_at from) u o w n) (
      rw g (
        rw
          (select-update Operation.recovery_id i (is_at from) (advanced into p)
            (advanced-key into p) i u o n)
          (rw g (rw (eq_refl i) refl))))

-- What the move to AUTHORIZED makes of a claim held with the token, for the token that is given.
abbrev pub granted :
    String
    → ℕ
    → String
    → Operation
    → Operations
    → Progress
    → Result ClaimError (Option Operation) × Operations
granted i now token o u p =
    if blank_or_none p.claim_token || not (same_token p.claim_token (some token))
    then (err retry_claim_token_conflict, u)
    else if leb (now + claim_lease) p.now
    then (err retry_claim_expired, u)
    else (
      ok (some (advanced authorized p o)),
      update Operation.recovery_id i (is_at claimed) (advanced authorized p) u,
    )

check_claim_held :
    (now : ℕ) (token : String) (o : Operation) (p : Progress)
    → operation_eq o.state claimed ≡ true
    → o.claim_token ≡ some token
    → o.lease_expires_at ≡ some (now + claim_lease)
    → check_claim p o ≡ (
        if blank_or_none p.claim_token || not (same_token p.claim_token (some token))
        then err retry_claim_token_conflict
        else if leb (now + claim_lease) p.now
        then err retry_claim_expired
        else ok tt)
unfolding check_claim is_expired
check_claim_held now token o p s c l = rw s (rw c (rw l refl))

from_claimed :
    (s : OperationState)
    → s ≡ claimed
    → (operation_eq authorized s ≡ false)
      × (leads s authorized ≡ true)
      × (operation_eq authorized created ≡ false)
unfolding operation_eq leads
from_claimed s e = (ground arith, ground arith, refl)

to_authorized :
    (i : String) (p : Progress) (o : Operation) (u : Operations)
    → select Operation.recovery_id i u ≡ some o
    → o.state ≡ claimed
    → update_retry_operation i "AUTHORIZED" p u
      ≡ (lift (check_claim p o) >>= λ _. advance i o.state authorized p) u
unfolding update_retry_operation move_to of_text progress_to
to_authorized i p o u n s = let (a, b, c) = from_claimed o.state s in rw n (rw a (rw b (rw c refl)))

-- From a claim that is held, the move to AUTHORIZED.
update_claimed :
    (i : String) (now : ℕ) (token : String) (o : Operation) (u : Operations) (p : Progress)
    → IsHeld i now token o u
    → update_retry_operation i "AUTHORIZED" p u ≡ granted i now token o u p
update_claimed i now token o u p h =
    let s : operation_eq o.state claimed ≡ true = (operation_eq_iff o.state claimed).1 h.state in
    let moved =
      advance_lem i o.state authorized p o u h.keyed h.there
        ((operation_eq_iff o.state o.state).1 refl) in
    to_authorized i p o u h.there h.state
    ∙ rw (check_claim_held now token o p s h.owner h.lease)
        (elim (Bool-cases
          (blank_or_none p.claim_token || not (same_token p.claim_token (some token)))) [
            | inl c ↦ rw c refl
            | inr c ↦ elim (Bool-cases (leb (now + claim_lease) p.now)) [
              | inl l ↦ rw c (rw l refl)
              | inr l ↦ rw c (
                  rw l (
                    moved
                    ∙ ap
                        (λ x. (
                          ok (some (advanced authorized p o)),
                          update Operation.recovery_id i (is_at x) (advanced authorized p) u,
                        ))
                        h.state))
            ]
          ])

-- Once a claim was acquired, on a keyed table: a move to AUTHORIZED with a blank token, with none,
-- or with any token but the one of this claim, raises retry_claim_token_conflict and writes
-- nothing; with this token it raises retry_claim_expired from sixty seconds on; and before, it
-- succeeds, and changes the operation alone, as `advanced` says.
pub claim_fences :
    (r : Review) (now : ℕ) (token : String) (t u : Operations) (o : Operation) (p : Progress)
    → IsKeyed Operation.recovery_id t
    → claim_retry r now token t ≡ (ok (o, true), u)
    → update_retry_operation r.recovery_id "AUTHORIZED" p u ≡ granted r.recovery_id now token o u p
claim_fences r now token t u o p w e =
    update_claimed r.recovery_id now token o u p (claim_retry-IsHeld r now token t u o w e)
