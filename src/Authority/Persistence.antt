-- ===== src/Authority/Persistence.antt =====
-- `AuthorityStateStore`: what is saved is what is loaded.
use mathlib.Core.List.{append-nil}
use aegis_forge.Prelude.{
  String, ◌≡◌, refl, ap, ◌∙◌, sym, inl, inr, false, Option, none, some, List, [], ◌∷◌, ◌++◌, arith,
  ◌==◌, eq_iff, Bool-cases, is_empty, if◌then◌else◌,
}
use aegis_forge.Prelude.Result.{ok}
use aegis_forge.Prelude.Table.{select}
use aegis_forge.Authority.Machine.{AuthorityRecord, Transition, Machine}
use aegis_forge.Authority.Registry.{AuthorityDb, transitions_of, without, upsert, load, save}
use aegis_forge.Authority.Reads.{machine_or, machine_in, load_lem}
use aegis_forge.Authority.Epochs.{select-upsert}

-- Every transition in the list is in the agent's name.
abbrev pub AllNamed : String → List Transition → Type 0
AllNamed a [] = Unit {0}
AllNamed a (t ∷ ts) = (t.agent_id ≡ a) × AllNamed a ts

transitions_of-append :
    (a : String) (xs ys : List Transition)
    → transitions_of a (xs ++ ys) ≡ transitions_of a xs ++ transitions_of a ys
unfolding transitions_of
transitions_of-append a [] ys = refl
transitions_of-append a (x ∷ xs) ys = ground (arith, transitions_of-append a xs ys)

transitions_of-without : (a : String) (xs : List Transition) → transitions_of a (without a xs) ≡ []
unfolding transitions_of without
transitions_of-without a [] = refl
transitions_of-without a (x ∷ xs) = ground (arith, transitions_of-without a xs)

transitions_of_other :
    (a b : String) (xs : List Transition)
    → (a == b) ≡ false
    → transitions_of b (without a xs) ≡ transitions_of b xs
unfolding transitions_of without
transitions_of_other a b [] h = refl
transitions_of_other a b (x ∷ xs) h =
    ground
      (arith, eq_iff x.agent_id a, eq_iff x.agent_id b, eq_iff a b, transitions_of_other a b xs h)

transitions_of-AllNamed :
    (a : String) (ts : List Transition) → AllNamed a ts → transitions_of a ts ≡ ts
unfolding transitions_of
transitions_of-AllNamed a [] n = refl
transitions_of-AllNamed a (t ∷ ts) n =
    ground (arith, eq_iff t.agent_id a, transitions_of-AllNamed a ts n.1)

transitions_of_none :
    (a b : String) (ts : List Transition)
    → (a == b) ≡ false
    → AllNamed a ts
    → transitions_of b ts ≡ []
unfolding transitions_of
transitions_of_none a b [] h n = refl
transitions_of_none a b (t ∷ ts) h n =
    ground (arith, eq_iff t.agent_id b, eq_iff a b, transitions_of_none a b ts h n.1)

machine_or_same :
    (a : String) (o : Option AuthorityRecord) (xs ys : List Transition)
    → transitions_of a xs ≡ transitions_of a ys
    → machine_or a o xs ≡ machine_or a o ys
machine_or_same a none xs ys e = refl
machine_or_same a (some r) xs ys e = rw e

module _ (m : Machine) (db : AuthorityDb) (named : AllNamed m.account.agent_id m.history) where
  kept : List Transition
  kept = without m.account.agent_id db.transitions ++ m.history

  own_log : transitions_of m.account.agent_id kept ≡ m.history
  unfolding kept
  own_log =
      transitions_of-append m.account.agent_id (without m.account.agent_id db.transitions) m.history
      ∙ rw transitions_of-without (transitions_of-AllNamed m.account.agent_id m.history named)

  other_log :
      (a : String)
      → (m.account.agent_id == a) ≡ false
      → transitions_of a kept ≡ transitions_of a db.transitions
  unfolding kept
  other_log a h =
      transitions_of-append a (without m.account.agent_id db.transitions) m.history
      ∙ rw (transitions_of_other m.account.agent_id a db.transitions h)
          (rw (transitions_of_none m.account.agent_id a m.history h named) (append-nil _))

  reads_back :
      (a : String)
      → machine_or a (select AuthorityRecord.agent_id a (upsert m.account db.states)) kept
        ≡ (if m.account.agent_id == a then m else machine_in a db)
  reads_back a =
      rw (select-upsert a m.account db.states) (elim (Bool-cases (m.account.agent_id == a)) [
        | inl e ↦ rw e (
            ap (λ h. record m { history = h })
              (ap (λ b. transitions_of b kept) (sym ((eq_iff m.account.agent_id a).0 e)) ∙ own_log))
        | inr e ↦ rw e (
            machine_or_same a (select AuthorityRecord.agent_id a db.states) kept db.transitions
              (other_log a e))
      ])

  -- Loading an agent after a machine was saved, whose log is in its own name, gives back that machine
  -- with its whole log; every other agent loads as before; and loading writes nothing.
  pub load-save :
      (a : String)
      → is_empty a ≡ false
      → load a (save m db).1
        ≡ (ok (if m.account.agent_id == a then m else machine_in a db), (save m db).1)
  unfolding save kept
  load-save a full = load_lem a (save m db).1 full ∙ ap (λ x. (ok x, (save m db).1)) (reads_back a)
