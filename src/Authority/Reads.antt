-- ===== src/Authority/Reads.antt =====
-- What the registry reads back: the machine and the row of an agent, and what a move writes.
use aegis_forge.Prelude.{
  String, ◌≡◌, refl, ◌⊎◌, inl, inr, Bool, true, false, Option, none, some, List, [], ◌++◌, arith,
  Bool-cases, Option-cases, is_empty, if◌then◌else◌,
}
use aegis_forge.Prelude.Result.{Result-cases, ok, err, pure, ◌>>=◌}
use aegis_forge.Prelude.Table.{select, update}
use aegis_forge.Authority.Machine.{
  probation, AuthorityRecord, AuthorityError, Transition, Machine, MachineAction, new_machine,
  agent_id_required, agent_not_registered,
}
use aegis_forge.Authority.Registry.{
  RegistryRow, AuthorityDb, AgentAuthority, authority_of, transitions_of, upsert, load, save, get,
  machine_of, bumped, increment_epoch, finish, move_machine, without,
}

abbrev pub fresh_machine : String → Machine
fresh_machine agent_id = record {
  account = record {
    agent_id = agent_id;
    state = probation;
    trusted_outcomes = 0;
    failed_outcomes = 0;
    last_proof_id = "";
  };
  history = [];
}

abbrev pub machine_or : String → Option AuthorityRecord → List Transition → Machine
machine_or agent_id none ts = fresh_machine agent_id
machine_or agent_id (some r) ts = record { account = r; history = transitions_of agent_id ts }

-- The machine that the database holds for an agent.
abbrev pub machine_in : String → AuthorityDb → Machine
machine_in agent_id db =
    machine_or agent_id (select AuthorityRecord.agent_id agent_id db.states) db.transitions

pub load_lem :
    (i : String) (db : AuthorityDb) → is_empty i ≡ false → load i db ≡ (ok (machine_in i db), db)
unfolding load new_machine
load_lem i db h = ground arith

pub get_lem :
    (i : String) (db : AuthorityDb) (row : RegistryRow)
    → is_empty i ≡ false
    → select RegistryRow.agent_id i db.registry ≡ some row
    → get i db ≡ (ok (authority_of row (machine_in i db)), db)
unfolding get new_machine
get_lem i db row h e = ground arith

-- Reading writes nothing.
pub get-reads : (i : String) (db : AuthorityDb) → (get i db).1 ≡ db
unfolding get new_machine
get-reads i db = ground arith

-- What a successful move of the machine writes.
abbrev pub saved : (Transition → Bool) → String → Transition → Machine → AuthorityDb → AuthorityDb
saved renews i t m db = record db {
  states = upsert m.account db.states;
  transitions = without m.account.agent_id db.transitions ++ m.history;
  registry =
      if renews t
      then update RegistryRow.agent_id i (λ _. true) bumped db.registry
      else db.registry;
}

get_refused :
    (i : String) (db : AuthorityDb)
    → (is_empty i ≡ true) ⊎ (select RegistryRow.agent_id i db.registry ≡ none)
    → (e : AuthorityError) × (get i db ≡ (err e, db))
unfolding get
get_refused i db (inl e) = (agent_id_required, rw e)
get_refused i db (inr n) = elim (Bool-cases (is_empty i)) [
  | inl e ↦ (agent_id_required, rw e)
  | inr e ↦ (agent_not_registered, rw e (rw n))
]

machine_of_refused :
    (i : String) (db : AuthorityDb)
    → (e : AuthorityError) × (get i db ≡ (err e, db))
    → (e : AuthorityError) × (machine_of i db ≡ (err e, db))
unfolding machine_of
machine_of_refused i db (e, h) = (e, rw h)

pub machine_of_cases :
    (i : String) (db : AuthorityDb)
    → (machine_of i db ≡ (ok (machine_in i db), db))
      ⊎ ((e : AuthorityError) × (machine_of i db ≡ (err e, db)))
unfolding machine_of
machine_of_cases i db = elim (Bool-cases (is_empty i)) [
  | inl e ↦ inr (machine_of_refused i db (get_refused i db (inl e)))
  | inr e ↦ elim (Option-cases (select RegistryRow.agent_id i db.registry)) [
    | inl n ↦ inr (machine_of_refused i db (get_refused i db (inr n)))
    | inr (row, f) ↦ inl (rw (get_lem i db row e f) (load_lem i db e))
  ]
]

get_then :
    (i : String) (t : Transition) (db : AuthorityDb)
    → (◌>>=◌ {B = AgentAuthority × Transition} (get i) (λ a. pure (a, t)) db).1 ≡ db
get_then i t db = elim (Result-cases (get i db).0) [
  | inl (a, e) ↦ rw e (get-reads i db)
  | inr (x, e) ↦ rw e (get-reads i db)
]

pub finish_lem :
    (renews : Transition → Bool) (i : String) (t : Transition) (m : Machine) (db : AuthorityDb)
    → (finish renews i (t, m) db).1 ≡ saved renews i t m db
unfolding finish save increment_epoch
finish_lem renews i t m db = elim (Bool-cases (renews t)) [
  | inl e ↦ rw e (get_then i t _)
  | inr e ↦ rw e (get_then i t _)
]

-- A move either leaves the database alone, or the machine moved, and the move is saved.
pub move_machine_cases :
    (renews : Transition → Bool) (op : MachineAction) (i : String) (db : AuthorityDb)
    → ((move_machine renews op i db).1 ≡ db)
      ⊎ ((t : Transition) × (m : Machine) × (op (machine_in i db) ≡ (ok t, m))
          × ((move_machine renews op i db).1 ≡ saved renews i t m db))
unfolding move_machine
move_machine_cases renews op i db = elim (machine_of_cases i db) [
  | inr (e, h) ↦ rw h (inl refl)
  | inl h ↦ elim (Result-cases (op (machine_in i db)).0) [
    | inr (e, k) ↦ rw h (rw k (inl refl))
    | inl (t, k) ↦ rw h (
        rw k (
          inr
            (t, (op (machine_in i db)).1, refl, finish_lem renews i t (op (machine_in i db)).1 db)))
  ]
]
