-- ===== src/Gate/RoundTrip.antt =====
-- From the issue of a grant, by its signature, to `authorize`.
use aegis_forge.Prelude.{String, Option, some}
use aegis_forge.Capability.Policy.{Policy}
use aegis_forge.Gate.Artifacts.{
  SignedAgentIdentity, CapabilityGrant, SignedCapabilityGrant, Library,
}
use aegis_forge.Gate.World.{World, Gate, Call}
use aegis_forge.Gate.Issue.{IssueRequest, unsigned}

module _ (lib : Library) (gate : Gate) (key_id : String)
    (sign_payload : SignedCapabilityGrant → String) where
  abbrev envelope : CapabilityGrant → Option SignedAgentIdentity → SignedCapabilityGrant
  envelope g i = record (unsigned lib key_id sign_payload g i) {
    signature = sign_payload (unsigned lib key_id sign_payload g i);
  }

-- The call that uses a signed grant for what it was issued for.
abbrev pub use_of : Call → IssueRequest → SignedCapabilityGrant → Call
use_of c q s = record c { grant = some s; intent = q.intent; evidence_ids = q.evidence_ids }
