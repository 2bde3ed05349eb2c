-- ===== src/Grant/Examples.antt =====
-- A grant that is registered and consumed, and one that is revoked.
use aegis_forge.Prelude.{◌≡◌, refl, true, [], ◌∷◌}
use aegis_forge.Prelude.Result.{ok, err}
use aegis_forge.Prelude.Table.{select, has_key, update, changes}
use aegis_forge.Grant.Store.{
  consumed, is_active, SignedGrant, GrantRow, new_row, status, register_grant, status_or_register,
  ensure_registered, revoked_row, revoke, consumed_row, consume, grant_replayed, grant_revoked,
  grant_not_active,
}
use aegis_forge.Grant.History.{Reach, here, next, registered}
use aegis_forge.Grant.Once.{consumption, revocation, finalize_lem, consumed_once, revoked_refused}

abbrev signed : SignedGrant
signed = record {
  grant_id = "grant-1";
  nonce = "nonce-1";
  task_id = "task";
  key_id = "key";
  payload = "{}";
  issued_at = "2026-01-01T00:00:00+00:00";
  expires_at = "2026-01-01T00:05:00+00:00";
}

abbrev usable_grant : GrantRow
usable_grant = new_row signed 100

abbrev used_grant : GrantRow
used_grant = consumed_row "2026-01-01T00:01:00+00:00" usable_grant

registered_first : register_grant signed 100 [] ≡ (ok true, usable_grant ∷ [])
unfolding register_grant has_key
registered_first = refl

ensured_again : ensure_registered signed 200 (used_grant ∷ []) ≡ (ok consumed, used_grant ∷ [])
unfolding ensure_registered status_or_register status select
ensured_again = refl

registration : Reach [] (usable_grant ∷ [])
unfolding register_grant has_key
registration = next here (registered signed 100 refl)

finalize_lem_example :
    (consume "grant-1" "now" (used_grant ∷ [])
      ≡ consumption "grant-1" "now" (used_grant ∷ []) (status "grant-1" (used_grant ∷ [])))
    × (revoke "grant-1" "late" 300 (used_grant ∷ [])
        ≡ revocation "grant-1" "late" 300 (used_grant ∷ []) (status "grant-1" (used_grant ∷ [])))
unfolding has_key
finalize_lem_example =
    finalize_lem "grant-1" "now" "late" 300 (used_grant ∷ [])
      (record { keyed = (refl, tt); fresh = (refl, tt) })

consumed_once_example :
    (consume "grant-1" "later" (used_grant ∷ []) ≡ (err grant_replayed, used_grant ∷ []))
    × (revoke "grant-1" "late" 300 (used_grant ∷ []) ≡ (err grant_not_active, used_grant ∷ []))
unfolding consume changes update is_active
consumed_once_example =
    consumed_once {t = usable_grant ∷ []} "grant-1" "2026-01-01T00:01:00+00:00" "later" "late" 300
      registration refl here

abbrev revoked_grant : GrantRow
revoked_grant = revoked_row "stolen" 150 usable_grant

revoked_refused_example :
    consume "grant-1" "later" (revoked_grant ∷ []) ≡ (err grant_revoked, revoked_grant ∷ [])
unfolding revoke changes update is_active
revoked_refused_example =
    revoked_refused {t = usable_grant ∷ []} "grant-1" "later" "stolen" 150 registration refl here
