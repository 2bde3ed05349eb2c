-- ===== src/Grant/Store.antt =====
-- shared/capability_grant_store.py: whether a signed grant is still usable. The payload column holds
-- the canonical JSON of the signed grant, a text here.
use aegis_forge.Prelude.{
  ℕ, zero, suc, String, Bool, true, false, ◌||◌, Option, none, some, List, [], ◌∷◌, ◌++◌, eqb,
  if◌then◌else◌,
}
use aegis_forge.Prelude.Result.{Result, ok, err, Action, pure, ◌>>◌}
use aegis_forge.Prelude.Table.{select, has_key, update, changes}

pub data GrantStatus : Type 0 where
  active consumed revoked : GrantStatus

unfoldable pub is_active : GrantStatus → Bool
is_active active = true
is_active _ = false

-- What the store reads of a signed grant.
pub record SignedGrant : Type 0 where
  pub grant_id : String
  pub nonce : String
  pub task_id : String
  pub key_id : String
  pub payload : String
  pub issued_at : String
  pub expires_at : String

pub record GrantRow : Type 0 where
  pub grant_id : String
  pub nonce : String
  pub task_id : String
  pub key_id : String
  pub payload : String
  pub issued_at : String
  pub expires_at : String
  pub status : GrantStatus
  pub created_at : ℕ
  pub consumed_at : Option String
  pub revoked_at : Option ℕ
  pub revoke_reason : Option String

pub data GrantError : Type 0 where
  grant_already_finalized grant_not_found grant_not_active : GrantError
  grant_revoked grant_replayed grant_payload_invalid : GrantError

abbrev pub Grants : Type 0
Grants = List GrantRow

abbrev pub GrantAction : Type 0 → Type 0
GrantAction A = Action GrantError Grants A

abbrev pub new_row : SignedGrant → ℕ → GrantRow
new_row g now = record {
  grant_id = g.grant_id;
  nonce = g.nonce;
  task_id = g.task_id;
  key_id = g.key_id;
  payload = g.payload;
  issued_at = g.issued_at;
  expires_at = g.expires_at;
  status = active;
  created_at = now;
  consumed_at = none;
  revoked_at = none;
  revoke_reason = none;
}

-- `status`: SELECT status WHERE grant_id = ?
abbrev pub status_of : Option GrantRow → Option GrantStatus
status_of none = none
status_of (some r) = some r.status

unfoldable pub status : String → Grants → Option GrantStatus
status grant_id t = status_of (select GrantRow.grant_id grant_id t)

-- After an INSERT that met a UNIQUE column and was rolled back.
unfoldable pub registered_before : Option GrantStatus → Result GrantError Bool
registered_before (some active) = ok false
registered_before _ = err grant_already_finalized

unfoldable pub register_grant : SignedGrant → ℕ → GrantAction Bool
register_grant g now t =
    if has_key GrantRow.grant_id g.grant_id t || has_key GrantRow.nonce g.nonce t
    then (registered_before (status g.grant_id t), t)
    else (ok true, t ++ new_row g now ∷ [])

unfoldable pub status_or_register : SignedGrant → ℕ → Option GrantStatus → GrantAction GrantStatus
status_or_register g now none = do register_grant g now; pure active
status_or_register g now (some s) = pure s

unfoldable pub ensure_registered : SignedGrant → ℕ → GrantAction GrantStatus
ensure_registered g now t = status_or_register g now (status g.grant_id t) t

-- The first characters of a text.
clip : ℕ → String → String
clip zero s = String.[]
clip (suc n) String.[] = String.[]
clip (suc n) (String.◌∷◌ c s) = String.◌∷◌ c (clip n s)

-- `str(reason)[:500]`
unfoldable pub clipped : String → String
unfolding clip
clipped reason = clip 500 reason

abbrev pub usable : GrantRow → Bool
usable r = is_active r.status

abbrev pub revoked_row : String → ℕ → GrantRow → GrantRow
revoked_row reason now r = record r {
  status = revoked;
  revoked_at = some now;
  revoke_reason = some (clipped reason);
}

-- Where the row count is not 1.
not_revoked : Option GrantStatus → GrantError
not_revoked none = grant_not_found
not_revoked (some s) = grant_not_active

unfoldable pub revoke : String → String → ℕ → GrantAction Bool
unfolding not_revoked
revoke grant_id reason now t =
    let u = update GrantRow.grant_id grant_id usable (revoked_row reason now) t in
    if eqb (changes GrantRow.grant_id grant_id usable t) 1
    then (ok true, u)
    else (err (not_revoked (status grant_id u)), u)

abbrev pub consumed_row : String → GrantRow → GrantRow
consumed_row at r = record r { status = consumed; consumed_at = some at }

not_consumed : Option GrantStatus → GrantError
not_consumed (some revoked) = grant_revoked
not_consumed (some consumed) = grant_replayed
not_consumed _ = grant_not_found

unfoldable pub consume : String → String → GrantAction Bool
unfolding not_consumed
consume grant_id at t =
    let u = update GrantRow.grant_id grant_id usable (consumed_row at) t in
    if eqb (changes GrantRow.grant_id grant_id usable t) 1
    then (ok true, u)
    else (err (not_consumed (status grant_id u)), u)

-- `get_signed`, over the decoding of the payload: `none` where it raises.
module _ {A : Type 0} (decode : String → Option A) where
  decoded : Option A → Result GrantError (Option A)
  decoded none = err grant_payload_invalid
  decoded (some g) = ok (some g)

  signed_of : Option GrantRow → Result GrantError (Option A)
  unfolding decoded
  signed_of none = ok none
  signed_of (some r) = decoded (decode r.payload)

  get_signed : String → Grants → Result GrantError (Option A)
  unfolding signed_of
  get_signed grant_id t = signed_of (select GrantRow.grant_id grant_id t)
