-- ===== src/Gate/Interleaved.antt =====
-- One call of `execute`, with whatever other connections, and the executor, write between its stages.
use aegis_forge.Prelude.{◌≡◌, ◌⊎◌, true, false, some, [], ◌∷◌, ◌++◌}
use aegis_forge.Prelude.Result.{Result, ok, err}
use aegis_forge.Prelude.Triple.{Triple}
use aegis_forge.Prelude.Table.{has_key}
use aegis_forge.Attempt.Defs.{Attempt, AttemptError}
use aegis_forge.Grant.Store.{active, consumed, status}
use aegis_forge.Grant.History
use aegis_forge.Grant.Once
use aegis_forge.Gate.Artifacts.{CapabilityGrant, Library}
use aegis_forge.Gate.World.{Consumption, World, Gate, Call, Receipt, GateError, attempt_raised}
use aegis_forge.Gate.Execute.{Others, authorize, check_executor, open_attempt, receipt_of, run_of}
use aegis_forge.Gate.Taken.{Kept, NoClaim}

-- The executor was called once, for a grant that was ACTIVE until then, and is CONSUMED now, under a
-- nonce that was new and is taken.
pub record HasRun (lib : Library) (c : Call) (w : World) (g : CapabilityGrant) (s : World)
    : Type 0 where
  pub before : World
  pub until : Kept w before
  pub was_active : status g.grant_id before.grants ≡ some active
  pub was_new : has_key Consumption.nonce g.nonce before.consumptions ≡ false
  pub ran : s.ran ≡ w.ran ++ run_of lib c g ∷ []
  pub is_consumed : status g.grant_id s.grants ≡ some consumed
  pub is_taken : has_key Consumption.nonce g.nonce s.consumptions ≡ true

-- Why a call raised before it called an executor.
pub data Cause (lib : Library) (gate : Gate) (c : Call) (w : World) (e : GateError) : Type 0 where
  unauthorized : (authorize lib gate c w).0 ≡ err e → Cause lib gate c w e
  unfit_executor : check_executor lib c ≡ err e → Cause lib gate c w e
  unopened :
      (g : CapabilityGrant) (t : World)
      → (authorize lib gate c w).0 ≡ ok g
      → Kept w t
      → (open_attempt lib c g t).0 ≡ err e
      → Cause lib gate c w e
  unclaimed :
      (g : CapabilityGrant) (t : World)
      → (authorize lib gate c w).0 ≡ ok g
      → Kept w t
      → NoClaim g t e
      → Cause lib gate c w e

-- What the others write: they call no executor in this call, free no nonce, and move the grants by
-- steps of their store.
pub record IsOther (o : Others) : Type 0 where
  pub opening : (x : World) → Kept x (o.before_open x)
  pub claiming : (x : World) → Kept x (o.before_claim x)
  pub ending : (x : World) → Kept x (o.before_end x)

module _ (o : Others) (lib : Library) (gate : Gate) (c : Call) (w : World)
    (v : History.IsValid w.grants) (k : IsOther o) where
  abbrev pub Done : Receipt → World → Type 0
  Done r s =
      (g : CapabilityGrant) × ((authorize lib gate c w).0 ≡ ok g)
      × (r ≡ receipt_of lib c g c.executor)
      × HasRun lib c w g s

  -- The executor was called, but the attempt was moved before its end.
  abbrev pub Overtaken : GateError → World → Type 0
  Overtaken e s =
      (g : CapabilityGrant) × ((authorize lib gate c w).0 ≡ ok g)
      × HasRun lib c w g s
      × ((y : AttemptError) × (e ≡ attempt_raised y))

  abbrev pub Failed : GateError → World → Type 0
  Failed e s = (Kept w s × Cause lib gate c w e) ⊎ Overtaken e s

  abbrev Granted : CapabilityGrant → World → Type 0
  Granted g s = Kept w s × ((authorize lib gate c w).0 ≡ ok g)
