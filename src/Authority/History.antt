-- ===== src/Authority/History.antt =====
-- Histories of the authority database: any registrations, trust decisions and governance, in any
-- order, for any agents.
use aegis_forge.Prelude.{Bool, String, ◌≡◌, Option, [], ◌∷◌, ◌++◌}
use aegis_forge.Authority.Machine.{TransitionPolicy, TrustDecision, Transition, Machine}
use aegis_forge.Authority.Registry.{
  RegistryRow, AuthorityDb, upsert, without, register, record_trust, governance_promote_elevated,
  suspend_agent, reset_agent, rotate_policy, finish,
}
use aegis_forge.Authority.Reads.{fresh_machine}

-- What `register` writes for an agent that has no row.
abbrev enrolled : String → RegistryRow → AuthorityDb → AuthorityDb
enrolled i row db = record {
  registry = db.registry ++ row ∷ [];
  states = upsert (fresh_machine i).account db.states;
  transitions = without i db.transitions ++ [];
}

pub data Step (db : AuthorityDb) : AuthorityDb → Type 0 where
  registered :
      {u : AuthorityDb} (default i version : String)
      → u ≡ (register default i version db).1
      → Step db u
  trusted :
      {u : AuthorityDb} (d : Option TrustDecision) (i : String)
      → u ≡ (record_trust d i db).1
      → Step db u
  promoted :
      {u : AuthorityDb} (p : TransitionPolicy) (reason proof_id i : String)
      → u ≡ (governance_promote_elevated p reason proof_id i db).1
      → Step db u
  suspended_by :
      {u : AuthorityDb} (reason i : String) → u ≡ (suspend_agent reason i db).1 → Step db u
  reset_by : {u : AuthorityDb} (reason i : String) → u ≡ (reset_agent reason i db).1 → Step db u
  rotated_to :
      {u : AuthorityDb} (version i : String) → u ≡ (rotate_policy version i db).1 → Step db u
  -- the writes of a move whose machine was loaded some time ago
  saved_late :
      {u : AuthorityDb} (renews : Transition → Bool) (i : String) (t : Transition) (m : Machine)
      → u ≡ (finish renews i (t, m) db).1
      → Step db u

pub data Reach (db : AuthorityDb) : AuthorityDb → Type 0 where
  here : Reach db db
  next : {u w : AuthorityDb} → Reach db u → Step u w → Reach db w

-- No move of the history saved later than it loaded.
abbrev pub IsTimely : {db u : AuthorityDb} → Step db u → Type 0
IsTimely (saved_late renews i t m e) = ⊥
IsTimely _ = Unit {0}

unfoldable pub AllTimely : {db u : AuthorityDb} → Reach db u → Type 0
AllTimely here = Unit {0}
AllTimely (next h s) = AllTimely h × IsTimely s
