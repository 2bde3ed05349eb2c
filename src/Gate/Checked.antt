-- ===== src/Gate/Checked.antt =====
-- What the checks of the gate tell where they pass.
use aegis_forge.Prelude.{ℕ, ◌<◌, ◌≡◌, refl, inl, inr, true, some, arith, eq_iff, Option-cases}
use aegis_forge.Prelude.Result.{ok}
use aegis_forge.Authority.Registry.{AgentAuthority}
use aegis_forge.Grant.Store.{GrantStatus, active, consumed, revoked}
use aegis_forge.Gate.Artifacts.{
  EmbeddedIntent, absent, malformed, embedded, SignedActionIntent, CapabilityGrant,
  SignedCapabilityGrant, Library,
}
use aegis_forge.Gate.Signatures.{verify_identity, verify_intent, verify_grant}
use aegis_forge.Gate.Binding.{evidence_hash, verify_binding, consume_capability_grant}
use aegis_forge.Gate.World.{Gate, Call, state_text}
use aegis_forge.Gate.Admission.{check_status, check_authority, verified, check_intent}

module _ (lib : Library) where
  -- The grant is the one in the envelope, which the signer's key signs.
  pub verified-ok :
      (gate : Gate) (s : SignedCapabilityGrant) (g : CapabilityGrant)
      → verified lib gate s ≡ ok g
      → (gate.signer ≡ some s.key_id) × (lib.signs_grant s ≡ true) × (s.grant ≡ g)
  unfolding verified verify_grant
  verified-ok gate s g h = elim (Option-cases gate.signer) [
    | inl e ↦ absurd (ground arith)
    | inr (key_id, e) ↦ ground (arith, eq_iff s.key_id key_id)
  ]

  identity_key :
      (g : CapabilityGrant) (s : SignedActionIntent) (now : ℕ) {u : Unit {0}}
      → check_intent lib (embedded s) g now ≡ ok u
      → lib.key_id_of s.agent_identity.public_key ≡ some s.agent_identity.key_id
  unfolding check_intent verify_intent verify_identity
  identity_key g s now h = elim (Option-cases (lib.key_id_of s.agent_identity.public_key)) [
    | inl e ↦ absurd (ground arith)
    | inr (k, e) ↦ ground (arith, eq_iff k s.agent_identity.key_id)
  ]

  pub check_intent-ok :
      (e : EmbeddedIntent) (g : CapabilityGrant) (now : ℕ) {u : Unit {0}}
      → check_intent lib e g now ≡ ok u
      → (s : SignedActionIntent) × (e ≡ embedded s)
        × (lib.signs_intent s ≡ true)
        × (lib.intent_hash s.intent ≡ g.intent_hash)
        × (s.intent.agent_id ≡ g.agent_id)
        × (lib.key_id_of s.agent_identity.public_key ≡ some s.agent_identity.key_id)
        × (lib.signs_identity s.agent_identity ≡ true)
        × (s.agent_identity.identity.agent_id ≡ g.agent_id)
  unfolding check_intent verify_intent verify_identity
  check_intent-ok absent g now h = absurd (cc)
  check_intent-ok malformed g now h = absurd (cc)
  check_intent-ok (embedded s) g now h = (
    s,
    refl,
    ground arith,
    ground (
      arith,
      eq_iff s.intent_hash (lib.intent_hash s.intent),
      eq_iff s.intent_hash g.intent_hash,
    ),
    ground (
      arith,
      eq_iff s.agent_identity.identity.agent_id s.intent.agent_id,
      eq_iff s.agent_identity.identity.agent_id g.agent_id,
    ),
    identity_key g s now h,
    ground arith,
    ground (arith, eq_iff s.agent_identity.identity.agent_id g.agent_id),
  )

  pub check_authority-ok :
      (g : CapabilityGrant) (a : AgentAuthority) {u : Unit {0}}
      → check_authority g a ≡ ok u
      → (g.authority_epoch ≡ a.authority_epoch)
        × (g.authority_state ≡ state_text a.state)
        × (g.policy_version ≡ a.policy_version)
  unfolding check_authority
  check_authority-ok g a h = (
    ground arith,
    ground (arith, eq_iff g.authority_state (state_text a.state)),
    ground (arith, eq_iff g.policy_version a.policy_version),
  )

  pub check_status-ok : (s : GrantStatus) {u : Unit {0}} → check_status s ≡ ok u → s ≡ active
  unfolding check_status
  check_status-ok active h = refl
  check_status-ok consumed h = absurd (cc)
  check_status-ok revoked h = absurd (cc)

  -- The grant is for this intent, this evidence and this time.
  pub consume_capability_grant-ok :
      (g : CapabilityGrant) (c : Call) {u : Unit {0}}
      → consume_capability_grant lib g c.intent c.evidence_ids c.now c.clock ≡ ok u
      → (g.intent_hash ≡ lib.intent_hash c.intent)
        × (g.evidence_hash ≡ evidence_hash lib c.evidence_ids)
        × (g.authorized_action ≡ c.intent.action)
        × (g.authorized_target ≡ c.intent.target)
        × ((t : ℕ) × (lib.fromisoformat g.expires_at ≡ some t) × (c.now < t))
  unfolding consume_capability_grant verify_binding
  consume_capability_grant-ok g c h = (
    ground (arith, eq_iff g.intent_hash (lib.intent_hash c.intent)),
    ground (arith, eq_iff g.evidence_hash (evidence_hash lib c.evidence_ids)),
    ground (arith, eq_iff g.authorized_action c.intent.action),
    ground (arith, eq_iff g.authorized_target c.intent.target),
    elim (Option-cases (lib.fromisoformat g.expires_at)) [
      | inl e ↦ absurd (ground arith)
      | inr (t, e) ↦ (t, e, ground arith)
    ],
  )
