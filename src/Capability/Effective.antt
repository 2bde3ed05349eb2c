-- ===== src/Capability/Effective.antt =====
-- shared/effective_capability.py: the static policy narrowed by the agent's current authority.
use Prim.Native.String.{◌++◌}
use aegis_forge.Prelude.{
  String, Bool, true, false, not, ◌&&◌, ◌||◌, List, [], ◌∷◌, one_of, if◌then◌else◌,
}
use aegis_forge.Authority.Machine.{AuthorityState, probation, limited, suspended}
use aegis_forge.Prelude.Result.{pure, ◌>>=◌}
use aegis_forge.Authority.Registry.{DbAction, get}
use aegis_forge.Capability.Policy.{
  ActionIntent, Policy, Decision, allow, block, require_evidence, Check, check,
}

pub record EffectiveCapability : Type 0 where
  pub decision : Decision
  pub reason : String
  pub state : AuthorityState
  pub action : String

abbrev pub safe_actions : List String
safe_actions =
    "research" ∷ "read_public_docs" ∷ "analyze" ∷ "inspect_evidence" ∷ "inspect_code"
    ∷ "security_scan" ∷ "verify" ∷ "validate" ∷ "identify_opportunities" ∷ "model_research"
    ∷ "run_tests" ∷ []

unfoldable pub is_safe_action : String → Bool
is_safe_action action = one_of action safe_actions

-- What PROBATION and LIMITED may not do.
unfoldable pub is_restricted : ActionIntent → Bool
is_restricted i =
    not (is_safe_action i.action)
    || not i.read_only
    || i.irreversible
    || i.financial
    || i.privileged
    || i.requires_network
    || i.requires_shell
    || i.requires_filesystem

-- `state in {PROBATION, LIMITED}`
is_junior : AuthorityState → Bool
is_junior probation = true
is_junior limited = true
is_junior _ = false

is_suspended : AuthorityState → Bool
is_suspended suspended = true
is_suspended _ = false

answer : Decision → String → AuthorityState → ActionIntent → EffectiveCapability
answer d reason s i = record { decision = d; reason = reason; state = s; action = i.action }

narrow : Check → ActionIntent → AuthorityState → EffectiveCapability
unfolding answer is_junior is_suspended
narrow base i s = elim (base.decision) [
  | block ↦ answer block ("static_policy:" ++ base.reason) s i
  | other ↦
      if is_suspended s
      then answer block "authority_suspended" s i
      else if is_junior s && is_restricted i
      then answer block "dynamic_authority_restricted" s i
      else elim other [
        | require_evidence ↦ answer require_evidence base.reason s i
        | _ ↦ answer allow "effective_authority_allowed" s i
      ]
]

unfoldable pub evaluate_effective_capability :
    Policy → ActionIntent → AuthorityState → EffectiveCapability
unfolding narrow
evaluate_effective_capability p i s = narrow (check p i) i s

-- `AgentAuthorityRegistry.evaluate`
unfoldable pub evaluate : Policy → ActionIntent → String → DbAction EffectiveCapability
evaluate p i agent_id = do
  authority ← get agent_id
  pure (evaluate_effective_capability p i authority.state)
