-- ===== src/Gate/Binding.antt =====
-- shared/capability_grant.py: a grant is issued for one intent, one set of evidence and one
-- authority, and is bound to them when it is used.
use aegis_forge.Prelude.{
  ℕ, String, Bool, true, false, not, Option, none, some, List, [], ◌∷◌, ◌&&◌, ◌==◌, leb,
}
use aegis_forge.Prelude.Sort.{sorted}
use aegis_forge.Prelude.Result.{Result, ok, err, map_err}
use aegis_forge.Prelude.Checks.{◌>>=◌, ◌>>◌, raise_if, require}
use aegis_forge.Capability.Policy.{ActionIntent}
use aegis_forge.Gate.Json.{Json, object, Object, end, lookup, json_eq}
use aegis_forge.Gate.Contract.{ContractError, validate_outcome_contract}
use aegis_forge.Gate.Artifacts.{
  EmbeddedIntent, absent, malformed, embedded, CapabilityGrant, Library,
}
use aegis_forge.Gate.Signatures.{verify_intent}

pub data BindingError : Type 0 where
  grant_not_active intent_hash_mismatch : BindingError
  signed_action_intent_invalid signed_action_intent_hash_mismatch : BindingError
  evidence_hash_mismatch evidence_ids_mismatch : BindingError
  authorized_action_mismatch authorized_target_mismatch : BindingError
  outcome_contract_mismatch invalid_expiry grant_expired : BindingError
  authority_agent_id_required authority_epoch_required : BindingError
  authority_state_mismatch authority_policy_version_mismatch invalid_ttl : BindingError
  authority_blocked : String → BindingError
  -- an OutcomeContractError, which is not caught
  contract_error : ContractError → BindingError

-- Python's `==` on two tuples of texts.
unfoldable pub texts_eq : List String → List String → Bool
texts_eq [] [] = true
texts_eq (x ∷ xs) (y ∷ ys) = x == y && texts_eq xs ys
texts_eq _ _ = false

-- `parameters.get("outcome_contract", {})`
unfoldable pub or_no_contract : Option Json → Json
or_no_contract none = object end
or_no_contract (some v) = v

module _ (lib : Library) where
  unfoldable pub intent_contract : ActionIntent → Json
  intent_contract i = or_no_contract (lookup "outcome_contract" (lib.parameters_of i.parameters))

  unfoldable pub evidence_hash : List String → String
  evidence_hash ids = lib.digest (sorted ids)

  unfoldable pub validate : Json → ActionIntent → Result BindingError Object
  validate contract i = map_err contract_error (validate_outcome_contract contract (some i.action))

  -- The embedded intent of the grant, where there is one, read by the clock of the machine.
  unfoldable pub check_embedded : EmbeddedIntent → String → ℕ → Result BindingError (Unit {0})
  check_embedded absent wanted clock = ok tt
  check_embedded malformed wanted clock = err signed_action_intent_invalid
  check_embedded (embedded s) wanted clock = do
    map_err (λ _. signed_action_intent_invalid) (verify_intent lib s clock)
    raise_if (not (s.intent_hash == wanted)) signed_action_intent_hash_mismatch

  -- `verify_binding`; `clock` is the machine's, whatever `now` the gate was given.
  unfoldable pub verify_binding :
      CapabilityGrant → ActionIntent → List String → ℕ → Result BindingError (Unit {0})
  verify_binding g i ids clock = do
    raise_if (not (g.status == "ACTIVE")) grant_not_active
    raise_if (not (g.intent_hash == lib.intent_hash i)) intent_hash_mismatch
    check_embedded g.signed_action_intent g.intent_hash clock
    raise_if (not (g.evidence_hash == evidence_hash ids)) evidence_hash_mismatch
    raise_if (not (texts_eq (sorted ids) (sorted g.evidence_ids))) evidence_ids_mismatch
    raise_if (not (g.authorized_action == i.action)) authorized_action_mismatch
    raise_if (not (g.authorized_target == i.target)) authorized_target_mismatch
    validate (intent_contract i) i
    validate (object g.outcome_contract) i
    raise_if (not (json_eq (intent_contract i) (object g.outcome_contract)))
        outcome_contract_mismatch

  unfoldable pub consume_capability_grant :
      CapabilityGrant → ActionIntent → List String → ℕ → ℕ → Result BindingError (Unit {0})
  consume_capability_grant g i ids now clock = do
    verify_binding g i ids clock
    expires ← require (lib.fromisoformat g.expires_at) invalid_expiry
    raise_if (leb expires now) grant_expired
