-- ===== src/Gate/Signatures.antt =====
-- `verify_identity` of shared/agent_identity_signing.py, `SignedActionIntent.verify` of
-- shared/signed_action_intent.py and `CapabilitySigner.verify` of shared/capability_signing.py.
use aegis_forge.Prelude.{ℕ, String, not, Option, none, some, ◌==◌, leb, is_empty, if◌then◌else◌}
use aegis_forge.Prelude.Result.{Result, ok, map_err}
use aegis_forge.Prelude.Checks.{◌>>=◌, ◌>>◌, raise_if, require}
use aegis_forge.Gate.Artifacts.{
  AgentIdentity, SignedAgentIdentity, SignedActionIntent, CapabilityGrant, SignedCapabilityGrant,
  Library,
}

pub data IdentityError : Type 0 where
  agent_identity_key_id_mismatch agent_identity_signature_invalid : IdentityError

pub data IntentError : Type 0 where
  agent_identity_mismatch intent_hash_mismatch signature_invalid : IntentError
  invalid_expiry intent_expired : IntentError
  identity_error : IdentityError → IntentError

pub data SignatureError : Type 0 where
  unsupported_signature_algorithm signer_key_id_mismatch : SignatureError
  agent_identity_mismatch signature_invalid : SignatureError
  identity_error : IdentityError → SignatureError

module _ (lib : Library) where
  unfoldable pub verify_identity : SignedAgentIdentity → Result IdentityError AgentIdentity
  verify_identity s = do
    expected_key_id ← require (lib.key_id_of s.public_key) agent_identity_signature_invalid
    raise_if (not (expected_key_id == s.key_id)) agent_identity_key_id_mismatch
    raise_if (not (lib.signs_identity s)) agent_identity_signature_invalid
    ok s.identity

  read_expiry : String → ℕ → Result IntentError (Unit {0})
  read_expiry expires_at now = do
    expiry ← require (lib.fromisoformat expires_at) invalid_expiry
    raise_if (leb expiry now) intent_expired

  unfoldable pub check_expiry : String → ℕ → Result IntentError (Unit {0})
  unfolding read_expiry
  check_expiry expires_at now = if is_empty expires_at then ok tt else read_expiry expires_at now

  -- `SignedActionIntent.verify`
  unfoldable pub verify_intent : SignedActionIntent → ℕ → Result IntentError (Unit {0})
  verify_intent s now = do
    raise_if (not (s.agent_identity.identity.agent_id == s.intent.agent_id))
        IntentError.agent_identity_mismatch
    raise_if (not (s.intent_hash == lib.intent_hash s.intent)) intent_hash_mismatch
    map_err IntentError.identity_error (verify_identity s.agent_identity)
    raise_if (not (lib.signs_intent s)) IntentError.signature_invalid
    check_expiry s.expires_at now

  -- The identity that goes with a grant, where there is one.
  unfoldable pub check_identity :
      Option SignedAgentIdentity → String → Result SignatureError (Unit {0})
  check_identity none agent_id = ok tt
  check_identity (some s) agent_id = do
    map_err SignatureError.identity_error (verify_identity s)
    raise_if (not (s.identity.agent_id == agent_id)) SignatureError.agent_identity_mismatch

  -- `CapabilitySigner.verify`; `key_id` is the signer's.
  unfoldable pub verify_grant :
      String → SignedCapabilityGrant → Result SignatureError CapabilityGrant
  verify_grant key_id s = do
    raise_if (not (s.algorithm == "Ed25519")) unsupported_signature_algorithm
    raise_if (not (s.key_id == key_id)) signer_key_id_mismatch
    check_identity s.agent_identity s.grant.agent_id
    raise_if (not (lib.signs_grant s)) SignatureError.signature_invalid
    ok s.grant
