-- ===== src/Capability/Examples.antt =====
-- Intents of a developer and of a researcher, and the theorems at them.
use aegis_forge.Prelude.{◌≤◌, ◌≡◌, refl, true, false, [], ◌∷◌, arith, one_of}
use aegis_forge.Authority.Machine.{probation, standard}
use aegis_forge.Capability.Policy.{
  ActionIntent, block, require_evidence, default_policy, check, wants_evidence, is_sensitive,
  sensitive_requirements, role_allowed_actions, required_evidence, pick, base_requires, or_explicit,
}
use aegis_forge.Capability.Effective.{evaluate_effective_capability, is_restricted, is_safe_action}
use aegis_forge.Capability.Laws.{level, IsHarmless, authority_monotone, allow-IsHarmless}
use aegis_forge.Capability.Evidence.{evidence_gap, AllVouched, required_evidence-AllVouched}

abbrev read_code : ActionIntent
read_code = record {
  role = "developer";
  action = "inspect_code";
  agent_id = "dev-1";
  target = "repository";
  resource = "";
  destination = "";
  data_scope = "";
  irreversible = false;
  requires_network = false;
  requires_shell = false;
  requires_filesystem = false;
  financial = false;
  privileged = false;
  read_only = true;
  evidence_required = false;
  parameters = "";
}

abbrev change_code : ActionIntent
change_code = record read_code { action = "modify_code"; read_only = false }

abbrev write_report : ActionIntent
write_report = record read_code { action = "run_tests"; read_only = false }

abbrev pay : ActionIntent
pay = record read_code { action = "transfer"; financial = true; read_only = false }

pay_evidence :
    required_evidence pay
    ≡ "authorization_confirmed" ∷ "destination_allowed" ∷ "financial_authorization"
      ∷ "simulation_passed" ∷ []
unfolding required_evidence pick base_requires or_explicit sensitive_requirements one_of
pay_evidence = refl

change_in_probation :
    (evaluate_effective_capability default_policy change_code probation).decision ≡ block
unfolding evaluate_effective_capability check is_restricted is_safe_action one_of
    role_allowed_actions wants_evidence is_sensitive
change_in_probation = refl

change_in_standard :
    (evaluate_effective_capability default_policy change_code standard).decision ≡ require_evidence
unfolding evaluate_effective_capability check is_restricted is_safe_action one_of
    role_allowed_actions wants_evidence is_sensitive
change_in_standard = refl

authority_monotone_example :
    (level (evaluate_effective_capability default_policy change_code probation).decision
      ≤ level (evaluate_effective_capability default_policy change_code standard).decision)
    × (level (evaluate_effective_capability default_policy change_code standard).decision
        ≤ level (check default_policy change_code).decision)
authority_monotone_example =
    authority_monotone default_policy change_code probation standard (omega arith)

allow-IsHarmless_example : IsHarmless default_policy read_code probation
unfolding evaluate_effective_capability check is_restricted is_safe_action one_of
    role_allowed_actions wants_evidence is_sensitive
allow-IsHarmless_example = allow-IsHarmless default_policy read_code probation refl

evidence_gap_example : (required_evidence write_report ≡ []) × (false ≡ false)
unfolding check one_of role_allowed_actions wants_evidence is_sensitive
evidence_gap_example = evidence_gap default_policy write_report refl refl refl refl refl refl

required_evidence-AllVouched_example : AllVouched "validator" (required_evidence pay)
required_evidence-AllVouched_example = required_evidence-AllVouched pay
