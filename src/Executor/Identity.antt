-- ===== src/Executor/Identity.antt =====
-- shared/executor_identity.py: the registry that pins the implementation of an executor.
use aegis_forge.Prelude.{
  ℕ, ◌+◌, String, Bool, true, false, not, ◌&&◌, Option, none, some, List, [], ◌∷◌, ◌++◌, ◌==◌, ltb,
  is_empty, if◌then◌else◌,
}
use aegis_forge.Prelude.Result.{ok, err, Action, raise_if, ◌>>◌}

pub data ExecutorStatus : Type 0 where
  active suspended revoked : ExecutorStatus

unfoldable pub of_status : String → Option ExecutorStatus
of_status s =
    if s == "ACTIVE"
    then some active
    else if s == "SUSPENDED"
    then some suspended
    else if s == "REVOKED"
    then some revoked
    else none

pub record Identity : Type 0 where
  pub executor_id : String
  pub version : String
  pub implementation_digest : String
  pub status : ExecutorStatus
  pub registry_epoch : ℕ

pub data IdentityError : Type 0 where
  executor_id_required executor_version_required : IdentityError
  executor_implementation_digest_required executor_identity_conflict : IdentityError
  executor_identity_not_active invalid_executor_identity_status : IdentityError
  executor_identity_not_registered : IdentityError

abbrev pub Identities : Type 0
Identities = List Identity

abbrev pub IdentityAction : Type 0 → Type 0
IdentityAction A = Action IdentityError Identities A

-- WHERE executor_id = ? AND version = ?
unfoldable pub is_named : String → String → Identity → Bool
is_named i v r = r.executor_id == i && r.version == v

unfoldable pub find_identity : String → String → Identities → Option Identity
find_identity i v [] = none
find_identity i v (r ∷ t) = if is_named i v r then some r else find_identity i v t

-- SELECT MAX(registry_epoch), 0 on an empty table.
unfoldable pub max_epoch : Identities → ℕ
max_epoch [] = 0
max_epoch (r ∷ t) = let m = max_epoch t in if ltb m r.registry_epoch then r.registry_epoch else m

unfoldable pub next_epoch : Identities → ℕ
next_epoch t = max_epoch t + 1

unfoldable pub is_active : ExecutorStatus → Bool
is_active active = true
is_active _ = false

abbrev pub new_identity : String → String → String → ℕ → Identity
new_identity i v d epoch = record {
  executor_id = i;
  version = v;
  implementation_digest = d;
  status = active;
  registry_epoch = epoch;
}

-- `register` where the row is there, and where it is not.
unfoldable pub pinned : String → String → String → Option Identity → IdentityAction Identity
pinned i v d none t =
    (ok (new_identity i v d (next_epoch t)), t ++ new_identity i v d (next_epoch t) ∷ [])
pinned i v d (some r) t =
    if not (r.implementation_digest == d)
    then (err executor_identity_conflict, t)
    else if not (is_active r.status)
    then (err executor_identity_not_active, t)
    else (ok r, t)

unfoldable pub register_identity : String → String → String → IdentityAction Identity
register_identity i v d = do
  raise_if (is_empty i) executor_id_required
  raise_if (is_empty v) executor_version_required
  raise_if (is_empty d) executor_implementation_digest_required
  λ t. pinned i v d (find_identity i v t) t

abbrev pub marked : ExecutorStatus → ℕ → Identity → Identity
marked s epoch r = record r { status = s; registry_epoch = epoch }

-- The UPDATE of `set_status`.
unfoldable pub mark : String → String → ExecutorStatus → ℕ → Identities → Identities
mark i v s epoch [] = []
mark i v s epoch (r ∷ t) = (if is_named i v r then marked s epoch r else r) ∷ mark i v s epoch t

unfoldable pub mark_found :
    String → String → ExecutorStatus → Option Identity → IdentityAction Identity
mark_found i v s none t = (err executor_identity_not_registered, t)
mark_found i v s (some r) t = (ok (marked s (next_epoch t) r), mark i v s (next_epoch t) t)

unfoldable pub set_status_to : String → String → Option ExecutorStatus → IdentityAction Identity
set_status_to i v none t = (err invalid_executor_identity_status, t)
set_status_to i v (some s) t = mark_found i v s (find_identity i v t) t

unfoldable pub set_status : String → String → String → IdentityAction Identity
set_status i v status t = set_status_to i v (of_status status) t
