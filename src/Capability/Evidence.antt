-- ===== src/Capability/Evidence.antt =====
-- `required_evidence`: which claims an intent must be backed by.
use aegis_forge.Prelude.{
  String, ◌≡◌, ◌≢◌, refl, ◌⊎◌, inl, inr, Bool, true, false, List, [], ◌∷◌, arith, ◌==◌, Bool-cases,
  one_of,
}
use aegis_forge.Capability.Policy.{
  ActionIntent, Policy, require_evidence, check, is_sensitive, sensitive_requirements,
  wants_evidence, base_requires, pick, claims, or_explicit, required_evidence, blocked,
  evidence_source_allowed, evidence_source_roles,
}

no_requirements :
    (action : String) → is_sensitive action ≡ false → sensitive_requirements action ≡ []
unfolding is_sensitive sensitive_requirements one_of
no_requirements action h = ground arith

pick-none : (p : String → Bool) (cs : List String) → ((c : String) → p c ≡ false) → pick p cs ≡ []
unfolding pick
pick-none p [] h = refl
pick-none p (c ∷ cs) h = rw (h c) (pick-none p cs h)

base_requires_no :
    (i : ActionIntent) (c : String)
    → is_sensitive i.action ≡ false
    → i.irreversible ≡ false
    → i.financial ≡ false
    → i.privileged ≡ false
    → base_requires i c ≡ false
unfolding base_requires one_of
base_requires_no i c s n1 n2 n3 = rw (no_requirements i.action s) (rw n1 (rw n2 (rw n3)))

-- An intent that needs evidence for no other reason than that it is not read-only is asked for no
-- claim at all: the decision is REQUIRE_EVIDENCE, and the list of required evidence is empty.
pub evidence_gap :
    (p : Policy) (i : ActionIntent)
    → (check p i).decision ≡ require_evidence
    → is_sensitive i.action ≡ false
    → i.irreversible ≡ false
    → i.financial ≡ false
    → i.privileged ≡ false
    → i.evidence_required ≡ false
    → (required_evidence i ≡ []) × (i.read_only ≡ false)
unfolding required_evidence check blocked wants_evidence
evidence_gap p i d s n1 n2 n3 n4 = (
  rw (pick-none (base_requires i) claims (λ c. base_requires_no i c s n1 n2 n3)) (rw n4),
  ground arith,
)

-- No claim of the list passes the test.
abbrev NonePass : (String → Bool) → List String → Type 0
NonePass p [] = Unit {0}
NonePass p (c ∷ cs) = (p c ≡ false) × NonePass p cs

pick-NonePass : (p : String → Bool) (cs : List String) → pick p cs ≡ [] → NonePass p cs
unfolding pick
pick-NonePass p [] e = tt
pick-NonePass p (c ∷ cs) e = elim (Bool-cases (p c)) [
  | inl h ↦ absurd (ground arith)
  | inr h ↦ (h, pick-NonePass p cs (ground arith))
]

abbrev Without : String → List String → Type 0
Without c cs = one_of c cs ≡ false

sensitive_needs :
    (action : String)
    → is_sensitive action ≡ true
    → Without "tests_passed" (sensitive_requirements action)
    → Without "recovery_ready" (sensitive_requirements action)
    → Without "destination_allowed" (sensitive_requirements action)
    → ⊥
unfolding is_sensitive sensitive_requirements one_of
sensitive_needs action h a b c = ground arith

not_base :
    (i : ActionIntent) (c : String)
    → base_requires i c ≡ false
    → Without c (sensitive_requirements i.action)
      × (i.financial ≡ true → (c == "financial_authorization") ≡ false)
      × (i.privileged ≡ true → (c == "privilege_scope_verified") ≡ false)
      × (i.irreversible ≡ true → (c == "rollback_or_recovery_ready") ≡ false)
unfolding base_requires
not_base i c h = ground arith

empty_parts :
    (i : ActionIntent)
    → required_evidence i ≡ []
    → NonePass (base_requires i) claims × (i.evidence_required ≡ false)
unfolding required_evidence
empty_parts i e = parts (pick (base_requires i) claims) refl e
  where
    parts :
        (l : List String)
        → pick (base_requires i) claims ≡ l
        → or_explicit i l ≡ []
        → NonePass (base_requires i) claims × (i.evidence_required ≡ false)
    parts [] h k = (pick-NonePass (base_requires i) claims h, ground arith)
    parts (c ∷ l) h k = absurd (ground arith)

differs : true ≡ false → ⊥
differs e = cc

-- With any other reason to need evidence, there is a claim to show.
pub required_evidence-ne :
    (i : ActionIntent)
    → (is_sensitive i.action ≡ true)
      ⊎ (i.irreversible ≡ true)
      ⊎ (i.financial ≡ true)
      ⊎ (i.privileged ≡ true)
      ⊎ (i.evidence_required ≡ true)
    → required_evidence i ≢ []
required_evidence-ne i h e =
    let (n, r) = empty_parts i e in
    elim h [
      | inl s ↦
          sensitive_needs i.action s (not_base i "tests_passed" (n.1.1.1.1.1.1.1.1.1.1.1.0)).0
            (not_base i "recovery_ready" (n.1.1.1.1.1.1.0)).0
            (not_base i "destination_allowed" (n.1.1.0)).0
      | inr (inl s) ↦ differs ((not_base i "rollback_or_recovery_ready" (n.1.1.1.1.1.1.1.0)).3 s)
      | inr (inr (inl s)) ↦ differs ((not_base i "financial_authorization" (n.1.1.1.1.0)).1 s)
      | inr (inr (inr (inl s))) ↦
          differs ((not_base i "privilege_scope_verified" (n.1.1.1.1.1.0)).2 s)
      | inr (inr (inr (inr s))) ↦ absurd (cc)
    ]

-- All claims of a list have a role that may vouch for them.
abbrev pub AllVouched : String → List String → Type 0
AllVouched role [] = Unit {0}
AllVouched role (c ∷ cs) = (evidence_source_allowed c role ≡ true) × AllVouched role cs

-- The validator may vouch for every claim that the policy knows.
validator_vouches : AllVouched "validator" claims
unfolding evidence_source_allowed evidence_source_roles one_of
validator_vouches = (
  refl,
  (refl, (refl, (refl, (refl, (refl, (refl, (refl, (refl, (refl, (refl, (refl, tt))))))))))),
)

pick-AllVouched :
    (p : String → Bool) (cs : List String)
    → AllVouched "validator" cs
    → AllVouched "validator" (pick p cs)
unfolding pick
pick-AllVouched p [] h = tt
pick-AllVouched p (c ∷ cs) h = elim (Bool-cases (p c)) [
  | inl e ↦ rw e (h.0, pick-AllVouched p cs h.1)
  | inr e ↦ rw e (pick-AllVouched p cs h.1)
]

or_explicit-AllVouched :
    (i : ActionIntent) (cs : List String)
    → AllVouched "validator" cs
    → AllVouched "validator" (or_explicit i cs)
unfolding or_explicit evidence_source_allowed evidence_source_roles one_of
or_explicit-AllVouched i [] h = elim (Bool-cases i.evidence_required) [
  | inl e ↦ rw e (refl, tt)
  | inr e ↦ rw e tt
]
or_explicit-AllVouched i (c ∷ cs) h = h

-- Whatever an intent is, the validator may vouch for every piece of evidence it must show: no
-- intent asks for a claim that nobody could make.
pub required_evidence-AllVouched : (i : ActionIntent) → AllVouched "validator" (required_evidence i)
unfolding required_evidence
required_evidence-AllVouched i =
    or_explicit-AllVouched i (pick (base_requires i) claims)
      (pick-AllVouched (base_requires i) claims validator_vouches)
