-- ===== src/Authority/Epochs.antt =====
-- The authority epoch: a grant that names an epoch names the state and the policy version with it.
use aegis_forge.Prelude.{
  ◌≤◌, String, ◌≡◌, refl, ap, ◌∙◌, sym, inl, inr, Bool, true, false, ◌&&◌, Option, none, some, List,
  [], ◌∷◌, arith, ◌==◌, eq_iff, Bool-cases, Option-cases, if◌then◌else◌,
}
use aegis_forge.Prelude.Table.{select, update}
use aegis_forge.Prelude.Table.Laws.{select-update, select-key}
use aegis_forge.Authority.Machine.{AuthorityState, AuthorityRecord, Transition, Machine}
use aegis_forge.Authority.Registry.{RegistryRow, AuthorityDb, bumped, upsert, move_machine}
use aegis_forge.Authority.Reads.{machine_or, machine_in, saved, move_machine_cases}
use aegis_forge.Authority.Moves.{Move, run_move, Logs, run_move-Logs}

pub select-upsert :
    (j : String) (r : AuthorityRecord) (xs : List AuthorityRecord)
    → select AuthorityRecord.agent_id j (upsert r xs)
      ≡ (if r.agent_id == j then some r else select AuthorityRecord.agent_id j xs)
unfolding select upsert
select-upsert j r [] = refl
select-upsert j r (x ∷ xs) = ground (
  arith,
  eq_iff x.agent_id j,
  eq_iff r.agent_id j,
  eq_iff x.agent_id r.agent_id,
  select-upsert j r xs,
)

-- The state that the database holds for an agent.
abbrev pub state_in : String → AuthorityDb → AuthorityState
state_in a db = (machine_in a db).account.state

-- From `db` to `u` each registered agent stays registered, its epoch does not fall, and as long as
-- its epoch stands, so do its policy version and its state.
abbrev pub Binds : AuthorityDb → AuthorityDb → Type 0
Binds db u =
    (a : String) (r : RegistryRow)
    → select RegistryRow.agent_id a db.registry ≡ some r
    → (r' : RegistryRow) × (select RegistryRow.agent_id a u.registry ≡ some r')
      × (r.authority_epoch ≤ r'.authority_epoch)
      × (r'.authority_epoch ≡ r.authority_epoch
          → (r'.policy_version ≡ r.policy_version) × (state_in a u ≡ state_in a db))

machine_in-agent : (a : String) (db : AuthorityDb) → (machine_in a db).account.agent_id ≡ a
machine_in-agent a db = elim (Option-cases (select AuthorityRecord.agent_id a db.states)) [
  | inl e ↦ rw e
  | inr (r, e) ↦ rw e (select-key AuthorityRecord.agent_id a db.states r e)
]

pub state_after :
    (a : String) (acc : AuthorityRecord) (xs : List AuthorityRecord) (ts ts' : List Transition)
    → (machine_or a (select AuthorityRecord.agent_id a (upsert acc xs)) ts').account.state ≡ (
        if acc.agent_id == a
        then acc.state
        else (machine_or a (select AuthorityRecord.agent_id a xs) ts).account.state)
state_after a acc xs ts ts' = rw (select-upsert a acc xs) (by_agent (acc.agent_id == a))
  where
    by_found :
        (o : Option AuthorityRecord)
        → (machine_or a o ts').account.state ≡ (machine_or a o ts).account.state
    by_found none = refl
    by_found (some r) = refl

    by_agent :
        (b : Bool)
        → (machine_or a
            (if b then some acc else select AuthorityRecord.agent_id a xs)
            ts').account.state
          ≡ (if b
              then acc.state
              else (machine_or a (select AuthorityRecord.agent_id a xs) ts).account.state)
    by_agent true = refl
    by_agent false = by_found (select AuthorityRecord.agent_id a xs)

-- Moves that renew the epoch whenever they change the state.
module _ (renews : Transition → Bool) (i : String) (t : Transition) (m : Machine) (db : AuthorityDb)
    (l : Logs (machine_in i db) t m)
    (keeps : renews t ≡ false → t.new_state ≡ t.previous_state) where
  owner : m.account.agent_id ≡ i
  owner = l.agent ∙ machine_in-agent i db

  state_elsewhere :
      (a : String) → (i == a) ≡ false → state_in a (saved renews i t m db) ≡ state_in a db
  state_elsewhere a n = state_after a m.account db.states db.transitions _ ∙ rw owner (rw n)

  state_kept : (a : String) → renews t ≡ false → state_in a (saved renews i t m db) ≡ state_in a db
  state_kept a n = elim (Bool-cases (i == a)) [
    | inr e ↦ state_elsewhere a e
    | inl e ↦
        state_after a m.account db.states db.transitions _
        ∙ rw owner
            (rw e (sym l.into ∙ keeps n ∙ l.from ∙ ap (λ x. state_in x db) ((eq_iff i a).0 e)))
  ]

  saved-Binds : Binds db (saved renews i t m db)
  saved-Binds a r e = elim (Bool-cases (renews t)) [
    | inr n ↦ (r, rw n e, omega arith, λ same. (refl, state_kept a n))
    | inl n ↦ elim (Bool-cases (a == i)) [
      | inl h ↦ (bumped r, rw n (renewed ∙ rw h), omega arith, λ same. absurd (omega arith))
      | inr h ↦ (
        r,
        rw n (renewed ∙ rw h),
        omega arith,
        λ same. (refl, state_elsewhere a (ground (arith, eq_iff i a, eq_iff a i))),
      )
    ]
  ]
    where
      renewed :
          select RegistryRow.agent_id a
            (update RegistryRow.agent_id i (λ _. true) bumped db.registry)
          ≡ some (if a == i && true then bumped r else r)
      renewed =
          select-update RegistryRow.agent_id i (λ _. true) bumped (λ x. refl) a db.registry r e

-- The same without the state.
abbrev pub Numbers : AuthorityDb → AuthorityDb → Type 0
Numbers db u =
    (a : String) (r : RegistryRow)
    → select RegistryRow.agent_id a db.registry ≡ some r
    → (r' : RegistryRow) × (select RegistryRow.agent_id a u.registry ≡ some r')
      × (r.authority_epoch ≤ r'.authority_epoch)
      × (r'.authority_epoch ≡ r.authority_epoch → r'.policy_version ≡ r.policy_version)

pub Binds-Numbers : (db u : AuthorityDb) → Binds db u → Numbers db u
Binds-Numbers db u b a r e = let (r', e', le, same) = b a r e in (r', e', le, λ k. (same k).0)

-- Whatever machine is saved, the epoch is kept or renewed.
pub saved-Numbers :
    (renews : Transition → Bool) (i : String) (t : Transition) (m : Machine) (db : AuthorityDb)
    → Numbers db (saved renews i t m db)
saved-Numbers renews i t m db a r e = elim (Bool-cases (renews t)) [
  | inr n ↦ (r, rw n e, omega arith, λ same. refl)
  | inl n ↦ elim (Bool-cases (a == i)) [
    | inl h ↦ (bumped r, rw n (renewed ∙ rw h), omega arith, λ same. absurd (omega arith))
    | inr h ↦ (r, rw n (renewed ∙ rw h), omega arith, λ same. refl)
  ]
]
  where
    renewed :
        select RegistryRow.agent_id a (update RegistryRow.agent_id i (λ _. true) bumped db.registry)
        ≡ some (if a == i && true then bumped r else r)
    renewed = select-update RegistryRow.agent_id i (λ _. true) bumped (λ x. refl) a db.registry r e

pub Binds-refl : (db : AuthorityDb) → Binds db db
Binds-refl db a r e = (r, e, omega arith, λ same. (refl, refl))

pub move_machine-Binds :
    (renews : Transition → Bool) (v : Move) (i : String) (db : AuthorityDb)
    → ((t : Transition) → renews t ≡ false → t.new_state ≡ t.previous_state)
    → Binds db (move_machine renews (run_move v) i db).1
move_machine-Binds renews v i db keeps = elim (move_machine_cases renews (run_move v) i db) [
  | inl e ↦ rw e (Binds-refl db)
  | inr (t, m, moved, e) ↦
      rw e (saved-Binds renews i t m db (run_move-Logs v (machine_in i db) m t moved) (keeps t))
]
