-- ===== src/Gate/Success.antt =====
-- When a call of `execute` succeeds.
use Prim.Native.String
use aegis_forge.Prelude.{String, refl, some, ◌≡◌, ◌≢◌, sym, ap, ◌∙◌, inl, inr, false, none, arith}
use aegis_forge.Prelude.Result.{ok_injective, Result, Result-cases, ok, err}
use aegis_forge.Prelude.Triple.{of_ok, of_err}
use aegis_forge.Prelude.Table.{select, has_key}
use aegis_forge.Attempt.Defs.{Attempt, create, required, latest}
use aegis_forge.Attempt.CreateLaws.{create_lem, admitted}
use aegis_forge.Attempt.Invariant
use aegis_forge.Attempt.State.{succeeded, failed}
use aegis_forge.Grant.Store.{clipped}
use aegis_forge.Grant.History
use aegis_forge.Gate.Artifacts.{CapabilityGrant, Library}
use aegis_forge.Gate.World.{Consumption, World, Gate, Raised, Receipt, Call, GateError}
use aegis_forge.Gate.Execute.{
  authorize, check_executor, receipt_of, execute, request, terminal, status_text, result_of,
  error_of,
}
use aegis_forge.Gate.Executed.{
  Refusal, unauthorized, unfit_executor, unopened, replayed, execute_all_or_nothing,
}

ok_err : {E A : Type 0} {r : Result E A} {a : A} {e : E} → r ≡ ok a → r ≢ err e
ok_err h k = absurd (cc)

no-Refusal :
    (lib : Library) (gate : Gate) (c : Call) (w : World) (g : CapabilityGrant) (e : GateError)
    → Invariant.IsValid w.attempts
    → (authorize lib gate c w).0 ≡ ok g
    → check_executor lib c ≡ ok tt
    → required (request lib c g) ≡ ok tt
    → latest (request lib c g).idempotency_key w.attempts ≡ none
    → has_key Attempt.attempt_id c.fresh w.attempts ≡ false
    → has_key Consumption.nonce g.nonce w.consumptions ≡ false
    → ¬ (Refusal lib gate c w e)
no-Refusal lib gate c w g e v by fit full first new unspent (unauthorized h) = absurd (cc)
no-Refusal lib gate c w g e v by fit full first new unspent (unfit_executor h) = absurd (cc)
no-Refusal lib gate c w g e v by fit full first new unspent (unopened g' x by' h same) =
    let created =
      create_lem (request lib c g) w.attempts v full new
      ∙ ap (λ o. admitted (request lib c g) o w.attempts) first in
    ok_err (ap (λ r. r.0) created)
      (ap (λ k. (create (request lib c k) w.attempts).0) (ok_injective (sym by ∙ by')) ∙ h)
no-Refusal lib gate c w g e v by fit full first new unspent (replayed g' by' h same) =
    let taken =
      ap (λ k. has_key Consumption.nonce k.nonce w.consumptions) (ok_injective (sym by ∙ by'))
      ∙ h in
    absurd (ground (arith, taken, unspent))

-- What the executor did, as the receipt and the state of the attempt tell it.
unfoldable pub Tells : Result Raised String → Receipt → Attempt → Type 0
Tells (ok v) r a =
    (r.status ≡ "EXECUTED") × ((r.result ≡ some v) × ((r.error ≡ "") × (a.state ≡ succeeded)))
Tells (err x) r a =
    (r.status ≡ "FAILED")
    × ((r.result ≡ none)
        × ((r.error ≡ String.◌++◌ x.kind (String.◌++◌ ": " (clipped x.message)))
            × (a.state ≡ failed)))

-- A receipt for the grant and the call, and the attempt's row.
pub record IsReceipt (c : Call) (g : CapabilityGrant) (w : World) (r : Receipt) : Type 0 where
  pub id : r.receipt_id ≡ c.receipt_id
  pub grant : (r.grant_id ≡ g.grant_id) × (r.nonce ≡ g.nonce)
  pub task : (r.task_id ≡ g.task_id) × (r.intent_hash ≡ g.intent_hash)
  pub act : (r.action ≡ c.intent.action) × (r.target ≡ c.intent.target)
  pub agent : (r.agent_id ≡ g.agent_id) × (r.authority_epoch ≡ g.authority_epoch)
  pub executor : (r.executor_id ≡ c.executor_id) × (r.executor_version ≡ c.executor_version)
  pub row : Attempt
  pub there : select Attempt.attempt_id c.fresh w.attempts ≡ some row
  pub told : Tells c.executor r row

receipt-Tells :
    (lib : Library) (c : Call) (g : CapabilityGrant) (x : Result Raised String) (a : Attempt)
    → a.state ≡ terminal lib (receipt_of lib c g x)
    → Tells x (receipt_of lib c g x) a
unfolding Tells terminal status_text result_of error_of
receipt-Tells lib c g (ok v) a e = (refl, (refl, (refl, e)))
receipt-Tells lib c g (err x) a e = (refl, (refl, (refl, e)))

-- A call succeeds, with a receipt that is for the call and the grant and tells what the executor did:
-- EXECUTED with its result, and the attempt SUCCEEDED, or FAILED with its error, and the attempt
-- FAILED; where the grant is authorized, the executor is named, the texts of the attempt are not
-- empty, its key and its id are new, and the nonce was not consumed.
pub execute_succeeds :
    (lib : Library) (gate : Gate) (c : Call) (w : World) (g : CapabilityGrant)
    → Invariant.IsValid w.attempts
    → History.IsValid w.grants
    → (authorize lib gate c w).0 ≡ ok g
    → check_executor lib c ≡ ok tt
    → required (request lib c g) ≡ ok tt
    → latest (request lib c g).idempotency_key w.attempts ≡ none
    → has_key Attempt.attempt_id c.fresh w.attempts ≡ false
    → has_key Consumption.nonce g.nonce w.consumptions ≡ false
    → (r : Receipt) × ((execute lib gate c w).0 ≡ ok r) × IsReceipt c g (execute lib gate c w).1 r
execute_succeeds lib gate c w g v u by fit full first new unspent =
    let t = execute_all_or_nothing lib gate c w v u in
    elim (Result-cases (execute lib gate c w).0) [
      | inl (x, e) ↦
          let (g', h) = of_ok _ _ t x e in
          let same : g' ≡ g = ok_injective (sym h.granted ∙ by) in
          let own : receipt_of lib c g c.executor ≡ x =
            sym (h.receipt ∙ ap (λ k. receipt_of lib c k c.executor) same) in
          (
            receipt_of lib c g c.executor,
            e ∙ ap ok (sym own),
            record {
              id = refl;
              grant = (refl, refl);
              task = (refl, refl);
              act = (refl, refl);
              agent = (refl, refl);
              executor = (refl, refl);
              row = h.row;
              there = h.there;
              told = receipt-Tells lib c g c.executor h.row (h.over ∙ ap (terminal lib) (sym own));
            },
          )
      | inr (x, e) ↦
          absurd (no-Refusal lib gate c w g x v by fit full first new unspent (of_err _ _ t x e).1)
    ]
