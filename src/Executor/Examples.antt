-- ===== src/Executor/Examples.antt =====
-- An executor that is registered, and then revoked.
use aegis_forge.Prelude.{◌≤◌, ◌≡◌, refl, some, [], ◌∷◌}
use aegis_forge.Prelude.Result.{ok, err}
use aegis_forge.Executor.Identity.{
  Identity, revoked, new_identity, marked, find_identity, is_named, max_epoch, next_epoch, pinned,
  register_identity, mark, mark_found, set_status_to, set_status, of_status,
  executor_identity_conflict,
}
use aegis_forge.Executor.Pinning.{Reach, AllTimely, here, next, status_set, digest_pinned}

abbrev files : Identity
files = new_identity "filesystem" "1" "abc" 1

abbrev stopped : Identity
stopped = marked revoked 2 files

registered_first : register_identity "filesystem" "1" "abc" [] ≡ (ok files, files ∷ [])
unfolding register_identity pinned find_identity next_epoch max_epoch
registered_first = refl

replaced :
    register_identity "filesystem" "1" "xyz" (files ∷ [])
    ≡ (err executor_identity_conflict, files ∷ [])
unfolding register_identity pinned find_identity is_named
replaced = refl

stopped_first : set_status "filesystem" "1" "REVOKED" (files ∷ []) ≡ (ok stopped, stopped ∷ [])
unfolding set_status of_status set_status_to mark_found find_identity is_named mark next_epoch
    max_epoch
stopped_first = refl

stopping : Reach (files ∷ []) (stopped ∷ [])
unfolding set_status of_status set_status_to mark_found find_identity is_named mark next_epoch
    max_epoch
stopping = next here (status_set "filesystem" "1" "REVOKED" refl)

digest_pinned_example :
    (r' : Identity) × (find_identity "filesystem" "1" (stopped ∷ []) ≡ some r')
    × (r'.implementation_digest ≡ "abc")
    × (AllTimely stopping → (1 ≤ r'.registry_epoch) × (r'.registry_epoch ≡ 1 → r' ≡ files))
unfolding set_status of_status set_status_to mark_found find_identity is_named mark next_epoch
    max_epoch
digest_pinned_example = digest_pinned {t = files ∷ []} "filesystem" "1" files stopping refl
