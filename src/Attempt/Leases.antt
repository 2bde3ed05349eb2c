-- ===== src/Attempt/Leases.antt =====
-- shared/execution_attempt.py: `expire_leases` and `find_stale_running`.
use Prim.Native.String.{compare}
use Prim.Native.Nat.{Ordering}
use aegis_forge.Prelude.{
  ℕ, zero, suc, String, Bool, true, false, ◌&&◌, ◌||◌, Option, none, some, List, [], ◌∷◌, ltb, leb,
  eqb, is_empty, if◌then◌else◌,
}
use aegis_forge.Prelude.Result.{Result, ok, err, pure, raise_if, ◌>>=◌, ◌>>◌}
use aegis_forge.Attempt.State.{leased, running, timed_out, state_eq}
use aegis_forge.Attempt.Defs.{
  Attempt, Attempts, AttemptAction, AttemptError, limit_must_be_positive, Details, get,
  transition_to,
}

-- `lease_expires_at IS NOT NULL AND lease_expires_at <= ?`
unfoldable pub past : ℕ → Option ℕ → Bool
past now none = false
past now (some t) = leb t now

unfoldable pub is_lapsed : ℕ → Attempt → Bool
unfolding past
is_lapsed now r = state_eq r.state leased && past now r.lease_expires_at

-- The ids that the SELECT of `expire_leases` returns.
unfoldable pub lapsed_ids : ℕ → Attempts → List String
unfolding is_lapsed
lapsed_ids now [] = []
lapsed_ids now (r ∷ t) =
    let rest = lapsed_ids now t in if is_lapsed now r then r.attempt_id ∷ rest else rest

abbrev pub at_time : ℕ → Details
at_time now = record {
  now = now;
  error = "";
  executor_id = "";
  executor_version = "";
  executor_identity_epoch = 0;
  receipt_id = "";
}

-- `expired.append(...)`, and `except ExecutionAttemptError: pass`
unfoldable pub keep_ok : Result AttemptError Attempt → List Attempt → List Attempt
keep_ok (ok a) done = a ∷ done
keep_ok (err e) done = done

-- The loop, over a snapshot of the ids.
unfoldable pub expire_each : ℕ → List String → Attempts → List Attempt × Attempts
unfolding keep_ok
expire_each now [] t = ([], t)
expire_each now (i ∷ ids) t =
    let (r, t') = transition_to i timed_out (at_time now) t in
    let (done, t'') = expire_each now ids t' in (keep_ok r done, t'')

unfoldable pub expire_leases : ℕ → Attempts → List Attempt × Attempts
unfolding expire_each lapsed_ids
expire_leases now t = expire_each now (lapsed_ids now t) t

-- `COALESCE(receipt_id, '') = ''`
unfoldable pub no_receipt : Option String → Bool
no_receipt none = true
no_receipt (some r) = is_empty r

unfoldable pub is_stale : ℕ → Attempt → Bool
unfolding past no_receipt
is_stale now r = state_eq r.state running && past now r.lease_expires_at && no_receipt r.receipt_id

-- The lease's end; the rows that are sorted have one.
unfoldable pub lease_end : Attempt → ℕ
lease_end r = elim r.lease_expires_at [ none ↦ 0 | some t ↦ t ]

text_before : String → String → Bool
text_before a b = elim (compare a b) [ Ordering.lt ↦ true | _ ↦ false ]

-- ORDER BY lease_expires_at ASC, attempt_id ASC
unfoldable pub sorts_before : Attempt → Attempt → Bool
unfolding lease_end text_before
sorts_before r s =
    ltb (lease_end r) (lease_end s)
    || (eqb (lease_end r) (lease_end s) && text_before r.attempt_id s.attempt_id)

unfoldable pub place : Attempt → List Attempt → List Attempt
unfolding sorts_before
place r [] = r ∷ []
place r (s ∷ l) = if sorts_before s r then s ∷ place r l else r ∷ s ∷ l

unfoldable pub stale_sorted : ℕ → Attempts → List Attempt
unfolding place is_stale
stale_sorted now [] = []
stale_sorted now (r ∷ t) =
    let rest = stale_sorted now t in if is_stale now r then place r rest else rest

-- LIMIT
unfoldable pub take : ℕ → List Attempt → List Attempt
take zero l = []
take (suc n) [] = []
take (suc n) (r ∷ l) = r ∷ take n l

-- `[self.get(attempt_id) for ...]`
unfoldable pub get_each : List Attempt → AttemptAction (List Attempt)
get_each [] = pure []
get_each (r ∷ l) = do a ← get r.attempt_id; rest ← get_each l; pure (a ∷ rest)

unfoldable pub find_stale_running : ℕ → ℕ → AttemptAction (List Attempt)
unfolding take stale_sorted get_each
find_stale_running now limit = do
  raise_if (ltb limit 1) limit_must_be_positive
  λ t. get_each (take limit (stale_sorted now t)) t
