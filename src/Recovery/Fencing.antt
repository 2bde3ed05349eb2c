-- ===== src/Recovery/Fencing.antt =====
-- A claim excludes the other workers until its lease is over.
use aegis_forge.Prelude.{
  ℕ, ◌+◌, ◌<◌, String, ◌≡◌, refl, ◌∙◌, sym, subst, inl, inr, Bool, true, false, ◌&&◌, Option, none,
  some, [], ◌∷◌, ◌++◌, arith, eq_refl, Bool-cases, if◌then◌else◌,
}
use aegis_forge.Prelude.Result.{Result, ok}
use aegis_forge.Prelude.Table.{select, update, IsKeyed}
use aegis_forge.Prelude.Table.Laws.{select-update, select-append, IsKeyed-append, IsKeyed-update}
use aegis_forge.Recovery.Reviews.{Review, safe_to_retry, decision_eq}
use aegis_forge.Recovery.Claims.{
  claimed, operation_eq, operation_eq_iff, Operation, Operations, ClaimError, claim_lease,
  new_operation, is_stale, same_lease, renewed, is_lapsed_claim, clashes, claim_retry,
}
use aegis_forge.Recovery.ClaimLaws.{claim_or, claim_retry_lem}

-- The row of a claim that was acquired at `now` with the token.
pub record IsHeld (i : String) (now : ℕ) (token : String) (o : Operation) (u : Operations)
    : Type 0 where
  pub there : select Operation.recovery_id i u ≡ some o
  pub state : o.state ≡ claimed
  pub owner : o.claim_token ≡ some token
  pub lease : o.lease_expires_at ≡ some (now + claim_lease)
  pub keyed : IsKeyed Operation.recovery_id u

module _ (r : Review) (now : ℕ) (token : String) (t : Operations)
    (w : IsKeyed Operation.recovery_id t) where
  added-IsHeld :
      clashes (new_operation r now token) t ≡ false
      → IsHeld r.recovery_id now token
          (new_operation r now token)
          (t ++ new_operation r now token ∷ [])
  added-IsHeld c = record {
    there =
        select-append Operation.recovery_id r.recovery_id t (new_operation r now token)
          (ground arith)
        ∙ rw (eq_refl r.recovery_id) refl;
    state = refl;
    owner = refl;
    lease = refl;
    keyed = IsKeyed-append Operation.recovery_id t (new_operation r now token) w (ground arith);
  }

  renewed-IsHeld :
      (o : Operation)
      → select Operation.recovery_id r.recovery_id t ≡ some o
      → operation_eq o.state claimed ≡ true
      → same_lease o.lease_expires_at o.lease_expires_at ≡ true
      → IsHeld r.recovery_id now token (renewed now token o) (
          update Operation.recovery_id r.recovery_id
            (is_lapsed_claim o.lease_expires_at)
            (renewed now token)
            t)
  renewed-IsHeld o n c k = record {
    there =
        select-update Operation.recovery_id r.recovery_id (is_lapsed_claim o.lease_expires_at)
          (renewed now token) (λ x. refl) r.recovery_id t o n
        ∙ rw c (rw k (rw (eq_refl r.recovery_id) refl));
    state = (operation_eq_iff o.state claimed).0 c;
    owner = refl;
    lease = refl;
    keyed =
        IsKeyed-update Operation.recovery_id r.recovery_id (is_lapsed_claim o.lease_expires_at)
          (renewed now token) (λ x. refl) t w;
  }

-- What a claim gives back.
abbrev Claimed : Type 0
Claimed = Result ClaimError (Operation × Bool) × Operations

abbrev outcome : Operation × Bool → Operations → Claimed
outcome x u = (ok x, u)

same_result :
    (i : String) (now : ℕ) (token : String) (x o : Operation) (b : Bool) (v u : Operations)
    → outcome (x, b) v ≡ outcome (o, true) u
    → (b ≡ true → IsHeld i now token x v)
    → IsHeld i now token o u
same_result i now token x o b v u e f =
    let held : IsHeld i now token x v = f (cc) in
    let same : x ≡ o = cc in
    let after : v ≡ u = cc in
    subst (λ y. IsHeld i now token y u) same (subst (λ y. IsHeld i now token x y) after held)

-- Of the two results of a takeover the acquired one is the renewed row.
takeover-IsHeld :
    (r : Review) (now : ℕ) (token : String) (t u : Operations) (o q : Operation) (b : Bool)
    → same_lease q.lease_expires_at q.lease_expires_at ≡ b
    → IsKeyed Operation.recovery_id t
    → select Operation.recovery_id r.recovery_id t ≡ some q
    → operation_eq q.state claimed ≡ true
    → outcome (if b then (renewed now token q, true) else (q, false)) (
        update Operation.recovery_id r.recovery_id
          (is_lapsed_claim q.lease_expires_at)
          (renewed now token)
          t)
      ≡ outcome (o, true) u
    → IsHeld r.recovery_id now token o u
takeover-IsHeld r now token t u o q true k w n c e =
    same_result r.recovery_id now token _ o true _ u e (λ h. renewed-IsHeld r now token t w q n c k)
takeover-IsHeld r now token t u o q false k w n c e =
    same_result r.recovery_id now token _ o false _ u e (λ h. absurd (cc))

claim_or-IsHeld :
    (r : Review) (now : ℕ) (token : String) (t u : Operations) (o : Operation)
    (q : Option Operation)
    → IsKeyed Operation.recovery_id t
    → select Operation.recovery_id r.recovery_id t ≡ q
    → claim_or r now token t q ≡ (ok (o, true), u)
    → IsHeld r.recovery_id now token o u
claim_or-IsHeld r now token t u o none w n e =
    elim (Bool-cases (clashes (new_operation r now token) t)) [
      | inl c ↦ absurd (ground arith)
      | inr c ↦
          same_result r.recovery_id now token _ o true _ u (sym (rw c refl) ∙ e)
            (λ h. added-IsHeld r now token t w c)
    ]
claim_or-IsHeld r now token t u o (some q) w n e =
    elim (Bool-cases (operation_eq q.state claimed && is_stale now q.lease_expires_at)) [
      | inl c ↦ takeover-IsHeld r now token t u o q _ refl w n (ground arith) (sym (rw c refl) ∙ e)
      | inr c ↦
          same_result r.recovery_id now token q o false t u (sym (rw c refl) ∙ e) (λ h. absurd (cc))
    ]

pub claim_retry-IsHeld :
    (r : Review) (now : ℕ) (token : String) (t u : Operations) (o : Operation)
    → IsKeyed Operation.recovery_id t
    → claim_retry r now token t ≡ (ok (o, true), u)
    → IsHeld r.recovery_id now token o u
claim_retry-IsHeld r now token t u o w e =
    elim (Bool-cases (decision_eq r.decision safe_to_retry)) [
      | inr s ↦ absurd (ground (arith, claim_retry_lem r now token t w))
      | inl s ↦
          claim_or-IsHeld r now token t u o (select Operation.recovery_id r.recovery_id t) w refl
            (ground (arith, claim_retry_lem r now token t w, e))
    ]

-- Of any number of workers, on a keyed table, the one whose claim was acquired keeps it for sixty
-- seconds: any other claim of the same retry, from any copy of a review that allows it, is given
-- that operation unacquired, and writes nothing.
pub claim_exclusive :
    (r r' : Review) (now now' : ℕ) (token token' : String) (t u : Operations) (o : Operation)
    → IsKeyed Operation.recovery_id t
    → claim_retry r now token t ≡ (ok (o, true), u)
    → r'.recovery_id ≡ r.recovery_id
    → decision_eq r'.decision safe_to_retry ≡ true
    → now' < now + claim_lease
    → claim_retry r' now' token' u ≡ (ok (o, false), u)
unfolding is_stale
claim_exclusive r r' now now' token token' t u o w e same safe early =
    let held = claim_retry-IsHeld r now token t u o w e in
    claim_retry_lem r' now' token' u held.keyed
    ∙ rw safe (rw same (rw held.there (rw held.lease (ground arith))))
