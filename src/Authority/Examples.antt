-- ===== src/Authority/Examples.antt =====
-- An agent that is registered, trusted, suspended and reset, and the theorems at those databases.
use aegis_forge.Prelude.{
  String, ◌≡◌, ◌≢◌, refl, ◌⊎◌, true, false, some, [], ◌∷◌, arith, if◌then◌else◌, is_empty,
}
use aegis_forge.Prelude.Result.{ok, err}
use aegis_forge.Prelude.Table.{select, has_key, update}
use aegis_forge.Authority.Machine.{
  probation, limited, standard, elevated, suspended, AuthorityRecord, TransitionPolicy,
  default_transition_policy, TrustDecision, Transition, Machine, new_machine, apply_trust, promote,
  logged, evaluate_trusted, can_promote, is_suspended, state_eq,
  suspended_requires_governance_reset,
}
use aegis_forge.Authority.Registry.{
  RegistryRow, AuthorityDb, register, enrol, insert_row, get, load, save, upsert, without,
  transitions_of, record_trust, move_machine, machine_of, finish, changes_state, increment_epoch,
}
use aegis_forge.Authority.Reads.{machine_in}
use aegis_forge.Authority.Moves.{
  trust, promotion, run_move, elevated_by_governance, suspended_released,
}
use aegis_forge.Authority.Persistence.{load-save}

abbrev no_rows : AuthorityDb
no_rows = record { registry = []; states = []; transitions = [] }

abbrev row : RegistryRow
row = record { agent_id = "developer"; policy_version = "v1"; authority_epoch = 1 }

abbrev start : AuthorityRecord
start = record {
  agent_id = "developer";
  state = probation;
  trusted_outcomes = 0;
  failed_outcomes = 0;
  last_proof_id = "";
}

abbrev enrolled_db : AuthorityDb
enrolled_db = record { registry = row ∷ []; states = start ∷ []; transitions = [] }

abbrev proof : TrustDecision
proof = record { status = "TRUSTED"; proof_id = "proof-1" }

abbrev first_log : Transition
first_log = record {
  previous_state = probation;
  new_state = standard;
  reason = "trusted_attested_outcome";
  proof_id = "proof-1";
  agent_id = "developer";
}

abbrev trusted_db : AuthorityDb
trusted_db = record {
  registry = record row { authority_epoch = 2 } ∷ [];
  states = record start { state = standard; trusted_outcomes = 1; last_proof_id = "proof-1" } ∷ [];
  transitions = first_log ∷ [];
}

abbrev proven : Machine
proven = record {
  account = record start { state = standard; trusted_outcomes = 3; last_proof_id = "proof-3" };
  history = [];
}

abbrev halted : Machine
halted = record { account = record start { state = suspended }; history = [] }

registered_first : (register "v1" "developer" "" no_rows).1 ≡ enrolled_db
unfolding register enrol insert_row get load save upsert without select has_key new_machine
    transitions_of
registered_first = refl

trusted_first : (record_trust (some proof) "developer" enrolled_db).1 ≡ trusted_db
unfolding record_trust move_machine machine_of finish get load save upsert without select
    increment_epoch update changes_state state_eq apply_trust evaluate_trusted logged transitions_of
trusted_first = refl

promoted_first :
    (promote default_transition_policy "board decision" "" proven).1.account
    ≡ record start { state = elevated; trusted_outcomes = 3; last_proof_id = "proof-3" }
unfolding promote can_promote is_suspended logged
promoted_first = refl

halted_stays :
    promote default_transition_policy "board decision" "" halted
    ≡ (err suspended_requires_governance_reset, halted)
unfolding promote can_promote is_suspended logged
halted_stays = refl

elevated_by_governance_example :
    (p : TransitionPolicy) × (reason : String) × (proof_id : String) × (promotion
        default_transition_policy "board" ""
      ≡ promotion p reason proof_id)
    × (is_empty reason ≡ false)
    × (standard ≢ suspended)
    × (can_promote p 3 0 ≡ true)
unfolding promote can_promote is_suspended logged
elevated_by_governance_example =
    elevated_by_governance (promotion default_transition_policy "board" "") proven
      (λ e. ground arith) refl

abbrev failing : TrustDecision
failing = record { status = "UNTRUSTED"; proof_id = "proof-2" }

suspended_released_example :
    (failing.status ≡ "TRUSTED"
      → (run_move (trust (some failing)) halted).1.account.state ≡ suspended)
    × ((failing.status ≡ "UNTRUSTED") ⊎ (failing.status ≡ "EXPIRED")
        → (run_move (trust (some failing)) halted).1.account.state ≡ limited)
suspended_released_example = suspended_released failing halted refl refl

load-save_example :
    load "developer" (save proven trusted_db).1
    ≡ (ok (if true then proven else machine_in "developer" trusted_db), (save proven trusted_db).1)
load-save_example = load-save proven trusted_db tt "developer" refl
