-- ===== src/Authority/Registry.antt =====
-- shared/agent_authority.py over the store of shared/authority_state.py. The database holds one row
-- of authority for an agent, its transitions in the order of their ids, and the registry row with
-- the policy version and the epoch. (`schema_version` is constant; `created_at` is never read.)
use aegis_forge.Prelude.{
  ℕ, ◌+◌, String, Bool, true, not, Option, none, some, List, [], ◌∷◌, ◌++◌, ◌==◌, is_empty, text_or,
  if◌then◌else◌,
}
use aegis_forge.Prelude.Result.{Result, ok, err, Action, pure, raise, raise_if, lift, ◌>>=◌, ◌>>◌}
use aegis_forge.Prelude.Table.{select, has_key, update}
use aegis_forge.Authority.Machine.{
  AuthorityState, AuthorityRecord, AuthorityError, TransitionPolicy, Transition, TrustDecision,
  Machine, MachineAction, state_eq, new_machine, apply_trust, promote, suspend, governance_reset,
  agent_id_required, agent_not_registered, reset_reason_required, policy_version_required,
}

pub record RegistryRow : Type 0 where
  pub agent_id : String
  pub policy_version : String
  pub authority_epoch : ℕ

pub record AuthorityDb : Type 0 where
  pub registry : List RegistryRow
  pub states : List AuthorityRecord
  pub transitions : List Transition

abbrev pub DbAction : Type 0 → Type 0
DbAction A = Action AuthorityError AuthorityDb A

-- SELECT ... FROM authority_transitions WHERE agent_id = ? ORDER BY id
unfoldable pub transitions_of : String → List Transition → List Transition
transitions_of agent_id [] = []
transitions_of agent_id (t ∷ ts) =
    let rest = transitions_of agent_id ts in if t.agent_id == agent_id then t ∷ rest else rest

-- DELETE FROM authority_transitions WHERE agent_id = ?
unfoldable pub without : String → List Transition → List Transition
without agent_id [] = []
without agent_id (t ∷ ts) =
    let rest = without agent_id ts in if t.agent_id == agent_id then rest else t ∷ rest

-- INSERT ... ON CONFLICT(agent_id) DO UPDATE
unfoldable pub upsert : AuthorityRecord → List AuthorityRecord → List AuthorityRecord
upsert r [] = r ∷ []
upsert r (x ∷ xs) = if x.agent_id == r.agent_id then r ∷ xs else x ∷ upsert r xs

-- `AuthorityStateStore.load`
loaded : String → Option AuthorityRecord → List Transition → Result AuthorityError Machine
loaded agent_id none ts = new_machine agent_id
loaded agent_id (some r) ts = ok (record { account = r; history = transitions_of agent_id ts })

unfoldable pub load : String → DbAction Machine
unfolding loaded
load agent_id db =
    if is_empty agent_id
    then (err agent_id_required, db)
    else (loaded agent_id (select AuthorityRecord.agent_id agent_id db.states) db.transitions, db)

-- `AuthorityStateStore.save`
unfoldable pub save : Machine → DbAction (Unit {0})
save m db = (
  ok tt,
  record db {
    states = upsert m.account db.states;
    transitions = without m.account.agent_id db.transitions ++ m.history;
  },
)

pub record AgentAuthority : Type 0 where
  pub agent_id : String
  pub policy_version : String
  pub state : AuthorityState
  pub trusted_outcomes : ℕ
  pub failed_outcomes : ℕ
  pub last_proof_id : String
  pub authority_epoch : ℕ

abbrev pub authority_of : RegistryRow → Machine → AgentAuthority
authority_of row m = record {
  agent_id = row.agent_id;
  policy_version = row.policy_version;
  state = m.account.state;
  trusted_outcomes = m.account.trusted_outcomes;
  failed_outcomes = m.account.failed_outcomes;
  last_proof_id = m.account.last_proof_id;
  authority_epoch = row.authority_epoch;
}

read_row : Option RegistryRow → DbAction RegistryRow
read_row none = raise agent_not_registered
read_row (some r) = pure r

find_row : String → DbAction RegistryRow
unfolding read_row
find_row agent_id db = read_row (select RegistryRow.agent_id agent_id db.registry) db

unfoldable pub get : String → DbAction AgentAuthority
unfolding find_row load
get agent_id = do
  raise_if (is_empty agent_id) agent_id_required
  row ← find_row agent_id
  m ← load agent_id
  pure (authority_of row m)

-- The INSERT of `register`, and what it returns.
unfoldable pub insert_row : RegistryRow → DbAction AgentAuthority
insert_row row db = get row.agent_id (record db { registry = db.registry ++ row ∷ [] })

-- The rest of `register`, where the agent has no row yet.
unfoldable pub enrol : String → String → DbAction AgentAuthority
unfolding save
enrol agent_id version = do
  m ← lift (new_machine agent_id)
  save m
  insert_row (record { agent_id = agent_id; policy_version = version; authority_epoch = 1 })

known : String → DbAction Bool
known agent_id db = (ok (has_key RegistryRow.agent_id agent_id db.registry), db)

-- `default_version` is the VERSION of the registry's policy.
unfoldable pub register : String → String → String → DbAction AgentAuthority
unfolding known
register default_version agent_id policy_version = do
  raise_if (is_empty agent_id) agent_id_required
  existing ← known agent_id
  if existing then get agent_id else enrol agent_id (text_or policy_version default_version)

unfoldable pub machine_of : String → DbAction Machine
machine_of agent_id = do get agent_id; load agent_id

-- UPDATE agent_authority_registry SET authority_epoch = authority_epoch + 1 WHERE agent_id = ?
abbrev pub bumped : RegistryRow → RegistryRow
bumped r = record r { authority_epoch = r.authority_epoch + 1 }

unfoldable pub increment_epoch : String → DbAction (Unit {0})
increment_epoch agent_id db = (
  ok tt,
  record db { registry = update RegistryRow.agent_id agent_id (λ _. true) bumped db.registry },
)

-- A method of the machine, run on the machine that was loaded; an error leaves the database alone.
with_machine :
    Result AuthorityError Transition → Machine → Result AuthorityError (Transition × Machine)
with_machine (ok t) m = ok (t, m)
with_machine (err e) m = err e

on_machine : MachineAction → Machine → DbAction (Transition × Machine)
unfolding with_machine
on_machine op m db = let (r, m') = op m in (with_machine r m', db)

-- `record_trust`, `governance_promote_elevated`, `suspend` and the end of `governance_reset`: load,
-- move, save, a new epoch where `renews` says so, and the authority that is read back.
unfoldable pub finish :
    (Transition → Bool) → String → Transition × Machine → DbAction (AgentAuthority × Transition)
finish renews agent_id moved = do
  save moved.1
  if renews moved.0 then increment_epoch agent_id else pure tt
  a ← get agent_id
  pure (a, moved.0)

unfoldable pub move_machine :
    (Transition → Bool) → MachineAction → String → DbAction (AgentAuthority × Transition)
unfolding on_machine with_machine
move_machine renews op agent_id = do
  m ← machine_of agent_id
  moved ← on_machine op m
  finish renews agent_id moved

unfoldable pub always : Transition → Bool
always t = true

-- `transition.new_state != previous_state`
unfoldable pub changes_state : Transition → Bool
changes_state t = not (state_eq t.new_state t.previous_state)

unfoldable pub record_trust : Option TrustDecision → String → DbAction (AgentAuthority × Transition)
record_trust d agent_id = move_machine changes_state (apply_trust d) agent_id

unfoldable pub governance_promote_elevated :
    TransitionPolicy → String → String → String → DbAction (AgentAuthority × Transition)
governance_promote_elevated p reason proof_id agent_id =
    move_machine always (promote p reason proof_id) agent_id

unfoldable pub suspend_agent : String → String → DbAction (AgentAuthority × Transition)
suspend_agent reason agent_id = move_machine always (suspend reason) agent_id

unfoldable pub reset_agent : String → String → DbAction (AgentAuthority × Transition)
reset_agent reason agent_id = do
  raise_if (is_empty reason) reset_reason_required
  move_machine always governance_reset agent_id

unfoldable pub rotated : String → RegistryRow → RegistryRow
rotated version r = record r { policy_version = version; authority_epoch = r.authority_epoch + 1 }

unfoldable pub set_version : String → String → DbAction (Unit {0})
unfolding rotated
set_version agent_id version db = (
  ok tt,
  record db {
    registry = update RegistryRow.agent_id agent_id (λ _. true) (rotated version) db.registry;
  },
)

unfoldable pub rotate_policy : String → String → DbAction AgentAuthority
unfolding rotated
rotate_policy version agent_id = do
  raise_if (is_empty version) policy_version_required
  get agent_id
  set_version agent_id version
  get agent_id
