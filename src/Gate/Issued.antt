-- ===== src/Gate/Issued.antt =====
-- A grant that is issued and signed is one that `authorize` lets through.
use aegis_forge.Prelude.{
  ℕ, ◌+◌, ◌<◌, String, ◌≡◌, refl, ap, ◌∙◌, inl, inr, true, false, some, List, [], ◌∷◌, arith, ◌==◌,
  eq_iff, eq_refl, Option-cases, leb, eqb,
}
use Prim.Native.Nat.{◌*◌}
use aegis_forge.Prelude.Sort.{sorted}
use aegis_forge.Prelude.SortLaws.{sorted-sorted}
use aegis_forge.Prelude.Result.{Result-cases, ok}
use aegis_forge.Authority.Registry.{AgentAuthority}
use aegis_forge.Capability.Policy.{ActionIntent, Policy}
use aegis_forge.Gate.Json.{Json, object, Object, json_eq}
use aegis_forge.Gate.Artifacts.{SignedActionIntent, CapabilityGrant, Library}
use aegis_forge.Gate.Signatures.{verify_intent}
use aegis_forge.Gate.Binding.{
  texts_eq, intent_contract, evidence_hash, validate, check_embedded, verify_binding,
  consume_capability_grant,
}
use aegis_forge.Gate.World.{state_text}
use aegis_forge.Gate.Admission.{scope, check_authority, check_intent}
use aegis_forge.Gate.Issue.{
  IssueRequest, or_contract, as_object, embed, check_signed_intent, issued, issue_capability_grant,
}

texts_eq_refl : (xs : List String) → texts_eq xs xs ≡ true
unfolding texts_eq
texts_eq_refl [] = refl
texts_eq_refl (x ∷ xs) = ground (arith, eq_refl x, texts_eq_refl xs)

module _ (lib : Library) (policy : Policy) where
  -- What the checks of the issue tell.
  pub record IsIssued (q : IssueRequest) (a : AgentAuthority) (g : CapabilityGrant) : Type 0 where
    pub contract : Object
    pub version : q.policy_version ≡ a.policy_version
    pub intent : check_signed_intent lib policy q.signed_action_intent q.intent q.now ≡ ok tt
    pub own : Object
    pub own_valid : validate lib (intent_contract lib q.intent) q.intent ≡ ok own
    pub given : Object
    pub given_valid :
        validate lib (or_contract q.outcome_contract (intent_contract lib q.intent)) q.intent
        ≡ ok given
    pub fields :
        as_object (or_contract q.outcome_contract (intent_contract lib q.intent)) ≡ some contract
    pub made : g ≡ issued lib policy q a contract

  pub issue-IsIssued :
      (q : IssueRequest) (a : AgentAuthority) (g : CapabilityGrant)
      → q.authority_context ≡ some a
      → issue_capability_grant lib policy q ≡ ok g
      → IsIssued q a g
  unfolding issue_capability_grant
  issue-IsIssued q a g here h =
      elim (Result-cases (check_signed_intent lib policy q.signed_action_intent q.intent q.now)) [
        | inr (x, i) ↦ absurd (ground (arith, h, here, i))
        | inl (u, i) ↦ elim (Result-cases (validate lib (intent_contract lib q.intent) q.intent)) [
          | inr (x, j) ↦ absurd (ground (arith, h, here, i, j))
          | inl (own, j) ↦
              elim (Result-cases (
                validate lib (or_contract q.outcome_contract (intent_contract lib q.intent))
                  q.intent)) [
                    | inr (x, k) ↦ absurd (ground (arith, h, here, i, j, k))
                    | inl (given, k) ↦
                        elim (Option-cases (
                          as_object
                            (or_contract q.outcome_contract (intent_contract lib q.intent)))) [
                              | inl l ↦ absurd (ground (arith, h, here, i, j, k, l))
                              | inr (o, l) ↦ record {
                                contract = o;
                                version =
                                    ground
                                      (arith, h, here, eq_iff q.policy_version a.policy_version);
                                intent = i;
                                own = own;
                                own_valid = j;
                                given = given;
                                given_valid = k;
                                fields = l;
                                made = ground (arith, h, here, i, j, k, l);
                              }
                            ]
                  ]
        ]
      ]

eqb_refl : (n : ℕ) → eqb n n ≡ true
eqb_refl n = ground arith

leb_no : (a b : ℕ) → a < b → leb b a ≡ false
leb_no a b h = ground arith

pub signed_hash :
    (lib : Library) (policy : Policy) (s : SignedActionIntent) (i : ActionIntent) (now : ℕ)
    {u : Unit {0}}
    → check_signed_intent lib policy (some s) i now ≡ ok u
    → s.intent_hash ≡ lib.intent_hash i
unfolding check_signed_intent
signed_hash lib policy s i now h = ground (arith, h, eq_iff s.intent_hash (lib.intent_hash i))

pub as_object-object : (v : Json) (o : Object) → as_object v ≡ some o → v ≡ object o
unfolding as_object
as_object-object v o h = ground arith

module _ (lib : Library) (policy : Policy) (q : IssueRequest) (a : AgentAuthority)
    (s : SignedActionIntent) (o : Object) (now clock : ℕ) where
  abbrev pub G : CapabilityGrant
  G = issued lib policy q a o

  module _ (by : q.signed_action_intent ≡ some s)
      (hash : s.intent_hash ≡ lib.intent_hash q.intent) where
    -- The embedded intent, by the gate's clock and by the machine's.
    pub intent_passes :
        verify_intent lib s now ≡ ok tt
        → s.agent_identity.identity.agent_id ≡ a.agent_id
        → check_intent lib G.signed_action_intent G now ≡ ok tt
    unfolding check_intent embed
    intent_passes v own = rw by (
        rw v (rw own (rw (eq_refl a.agent_id) (rw hash (rw (eq_refl (lib.intent_hash q.intent)))))))

    pub embedded_passes :
        verify_intent lib s clock ≡ ok tt
        → check_embedded lib G.signed_action_intent G.intent_hash clock ≡ ok tt
    unfolding check_embedded embed
    embedded_passes v = rw by (rw v (rw hash (rw (eq_refl (lib.intent_hash q.intent)))))

  evidence_passes : (G.evidence_hash == evidence_hash lib q.evidence_ids) ≡ true
  unfolding evidence_hash
  evidence_passes =
      ap (λ l. lib.digest l == lib.digest (sorted q.evidence_ids)) (sorted-sorted q.evidence_ids)
      ∙ eq_refl (lib.digest (sorted q.evidence_ids))

  ids_pass : texts_eq (sorted q.evidence_ids) (sorted G.evidence_ids) ≡ true
  ids_pass = rw (sorted-sorted q.evidence_ids) (texts_eq_refl (sorted q.evidence_ids))

  pub binding_passes :
      check_embedded lib G.signed_action_intent G.intent_hash clock ≡ ok tt
      → {p r : Object} → validate lib (intent_contract lib q.intent) q.intent ≡ ok p
      → validate lib (object o) q.intent ≡ ok r
      → json_eq (intent_contract lib q.intent) (object o) ≡ true
      → verify_binding lib G q.intent q.evidence_ids clock ≡ ok tt
  unfolding verify_binding
  binding_passes e p r same = rw (eq_refl (lib.intent_hash q.intent)) (
      rw e (
        rw evidence_passes (
          rw ids_pass
            (rw (eq_refl q.intent.action) (rw (eq_refl q.intent.target) (rw p (rw r (rw same))))))))

  pub grant_passes :
      verify_binding lib G q.intent q.evidence_ids clock ≡ ok tt
      → ((t : ℕ) → lib.fromisoformat (lib.isoformat t) ≡ some t)
      → now < q.now + q.ttl_seconds * 1000000
      → consume_capability_grant lib G q.intent q.evidence_ids now clock ≡ ok tt
  unfolding consume_capability_grant
  grant_passes b clocks early = rw b (
      rw (clocks (q.now + q.ttl_seconds * 1000000))
        (rw (leb_no now (q.now + q.ttl_seconds * 1000000) early)))

  pub authority_passes : q.policy_version ≡ a.policy_version → check_authority G a ≡ ok tt
  unfolding check_authority
  authority_passes e =
      rw (eqb_refl a.authority_epoch)
        (rw (eq_refl (state_text a.state)) (rw e (rw (eq_refl a.policy_version))))

  pub scope_passes :
      q.authorized_scope ≡ scope q.intent → (G.authorized_scope == scope q.intent) ≡ true
  scope_passes e = rw e (eq_refl (scope q.intent))
