-- ===== src/Recovery/ClaimHistory.antt =====
-- Histories of the operations table: any workers, in any order, that claim retries and move them on,
-- also from what they read some time ago.
use aegis_forge.Prelude.{ℕ, String, ◌≡◌, sym, subst, inl, inr, true, some, [], Memᴰ, arith}
use aegis_forge.Prelude.Table.{select}
use aegis_forge.Prelude.Table.Laws.{select-Mem}
use aegis_forge.Recovery.Reviews.{Review}
use aegis_forge.Recovery.Claims.{OperationState, Operation, Operations, claim_retry}
use aegis_forge.Recovery.Updates.{Progress, update_retry_operation, leads, advance}
use aegis_forge.Recovery.ClaimRows.{
  IsValid, Lasts, Keeps, Keeps-refl, Keeps-trans, acquire-Keeps, claim_retry_cases, advance-Keeps,
  update_retry_operation-Keeps,
}

pub data Step (t : Operations) : Operations → Type 0 where
  claimed_by :
      {u : Operations} (r : Review) (now : ℕ) (token : String)
      → u ≡ (claim_retry r now token t).1
      → Step t u
  updated :
      {u : Operations} (i state : String) (p : Progress)
      → u ≡ (update_retry_operation i state p t).1
      → Step t u
  -- the UPDATE of an `update_retry_operation` that read, and checked, the operation some time ago
  advanced_late :
      {u : Operations} (i : String) (from into : OperationState) (p : Progress)
      → leads from into ≡ true
      → u ≡ (advance i from into p t).1
      → Step t u

pub data Reach (t : Operations) : Operations → Type 0 where
  here : Reach t t
  next : {u w : Operations} → Reach t u → Step u w → Reach t w

Step-Keeps : {t u : Operations} → Step t u → Keeps t u
Step-Keeps {t} (claimed_by r now token e) =
    subst (Keeps t) (sym e) (elim (claim_retry_cases r now token t) [
      | inl h ↦ rw h (Keeps-refl t)
      | inr h ↦ rw h (acquire-Keeps r now token (select Operation.recovery_id r.recovery_id t) t)
    ])
Step-Keeps {t} (updated i state p e) =
    subst (Keeps t) (sym e) (update_retry_operation-Keeps i state p t)
Step-Keeps {t} (advanced_late i from into p l e) =
    subst (Keeps t) (sym e) (advance-Keeps i from into p t l)

Reach-Keeps : {t u : Operations} → Reach t u → Keeps t u
Reach-Keeps {t} here = Keeps-refl t
Reach-Keeps (next h s) = Keeps-trans (Reach-Keeps h) (Step-Keeps s)

IsValid-empty : IsValid []
IsValid-empty = record { keyed = tt; single = tt; named = tt }

-- In every history of the operations table, whatever interleaving of workers made it, an attempt has
-- at most one retry operation, so at most one retry grant.
pub one_retry_per_attempt :
    {t : Operations} (o q : Operation)
    → Reach [] t
    → Memᴰ o t
    → Memᴰ q t
    → o.attempt_id ≡ q.attempt_id
    → o ≡ q
one_retry_per_attempt {t} o q h m n e =
    let w = Keeps.valid (Reach-Keeps h) IsValid-empty in
    ground (
      arith,
      select-Mem Operation.attempt_id t o w.single m,
      select-Mem Operation.attempt_id t q w.single n,
      e,
    )

-- Through any history of the operations table, every operation stays, under its attempt, its key
-- and its retry grant; its state only moves on, from CLAIMED to AUTHORIZED to CREATED; and once it
-- is CREATED nothing of it changes.
pub operations_last :
    {t u : Operations} (i : String) (o : Operation)
    → Reach t u
    → select Operation.recovery_id i t ≡ some o
    → (o' : Operation) × (select Operation.recovery_id i u ≡ some o') × Lasts o o'
operations_last i o h e = Keeps.rows (Reach-Keeps h) i o e
