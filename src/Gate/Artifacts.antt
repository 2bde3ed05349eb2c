-- ===== src/Gate/Artifacts.antt =====
-- The signed artifacts that the gate reads: shared/agent_identity.py and agent_identity_signing.py,
-- signed_action_intent.py, and the grants of capability_grant.py and capability_signing.py. An
-- artifact is taken after its `from_dict`; the intent embedded in a grant, a dict there, is absent,
-- or one that `from_dict` refuses, or a signed intent.
use aegis_forge.Prelude.{ℕ, String, Bool, Option, List}
use aegis_forge.Capability.Policy.{ActionIntent}
use aegis_forge.Gate.Json.{Object}

pub record AgentIdentity : Type 0 where
  pub agent_id : String
  pub role : String
  pub schema_version : String

pub record SignedAgentIdentity : Type 0 where
  pub identity : AgentIdentity
  pub public_key : String
  pub key_id : String
  pub signature : String

pub record SignedActionIntent : Type 0 where
  pub intent : ActionIntent
  pub intent_hash : String
  pub agent_identity : SignedAgentIdentity
  pub issued_at : String
  pub nonce : String
  pub signature : String
  pub expires_at : String

pub data EmbeddedIntent : Type 0 where
  absent malformed : EmbeddedIntent
  embedded : SignedActionIntent → EmbeddedIntent

pub record CapabilityGrant : Type 0 where
  pub grant_id : String
  pub task_id : String
  pub agent_id : String
  pub authority_epoch : ℕ
  pub authority_state : String
  pub intent_hash : String
  pub policy_version : String
  pub evidence_ids : List String
  pub evidence_hash : String
  pub authorized_action : String
  pub authorized_target : String
  pub authorized_scope : String
  pub issued_at : String
  pub expires_at : String
  pub nonce : String
  pub status : String
  pub outcome_contract : Object
  pub signed_action_intent : EmbeddedIntent

pub record SignedCapabilityGrant : Type 0 where
  pub grant : CapabilityGrant
  pub key_id : String
  pub signature : String
  pub agent_identity : Option SignedAgentIdentity
  pub algorithm : String

-- What the code takes from libraries: Ed25519, SHA-256, base64, JSON and ISO timestamps.
pub record Library : Type 0 where
  -- "agent-ed25519-" with the hash of the decoded key; `none` where it does not decode to a key
  pub key_id_of : String → Option String
  -- the signature of an artifact is one of its payload, by the key that it names (a grant: by the
  -- key of the gate's signer)
  pub signs_identity : SignedAgentIdentity → Bool
  pub signs_intent : SignedActionIntent → Bool
  pub signs_grant : SignedCapabilityGrant → Bool
  -- SHA-256 of the canonical JSON
  pub intent_hash : ActionIntent → String
  pub digest : List String → String
  -- the canonical JSON of a signed grant
  pub canonical : SignedCapabilityGrant → String
  -- the fields of an intent's `parameters`
  pub parameters_of : String → Object
  -- `datetime.fromisoformat` on a time with its zone, `none` where it raises ValueError, and
  -- `isoformat`
  pub fromisoformat : String → Option ℕ
  pub isoformat : ℕ → String
