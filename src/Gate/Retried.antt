-- ===== src/Gate/Retried.antt =====
-- What the authority for a retry binds the worker to.
use aegis_forge.Prelude.{
  String, ◌≡◌, ◌≢◌, refl, ap, sym, ◌∙◌, inl, inr, true, false, some, arith, ◌==◌, eq_iff,
  Option-cases,
}
use aegis_forge.Prelude.Result.{Result-cases, ok}
use aegis_forge.Authority.Registry.{AgentAuthority, AuthorityDb, get}
use aegis_forge.Capability.Policy.{Policy}
use aegis_forge.Attempt.Defs.{Attempt}
use aegis_forge.Gate.Artifacts.{embedded, CapabilityGrant, SignedCapabilityGrant, Library}
use aegis_forge.Gate.Signatures.{verify_intent, check_identity}
use aegis_forge.Gate.Issue.{embed, issue_capability_grant, sign}
use aegis_forge.Gate.Issued.{signed_hash, issue-IsIssued}
use aegis_forge.Gate.Retry.{
  RetryRequest, reissue, retry_agent, intent_eq, reissued, authorize_retry,
}

module _ (lib : Library) (policy : Policy) (key_id : String)
    (sign_payload : SignedCapabilityGrant → String) where
  -- A grant for the retry of an attempt.
  pub record IsRetry (q : RetryRequest) (db : AuthorityDb) (s : SignedCapabilityGrant)
      : Type 0 where
    pub attempt : Attempt
    pub given : q.attempt ≡ some attempt
    pub authority : AgentAuthority
    pub current : (get (retry_agent q) db).0 ≡ ok authority
    pub verified : verify_intent lib q.signed_action_intent q.now ≡ ok tt
    pub same :
        intent_eq lib policy key_id sign_payload q.signed_action_intent.intent q.intent ≡ true
    pub task : s.grant.task_id ≡ attempt.task_id
    pub agent : s.grant.agent_id ≡ authority.agent_id
    pub epoch : s.grant.authority_epoch ≡ authority.authority_epoch
    pub version : s.grant.policy_version ≡ authority.policy_version
    pub hash : s.grant.intent_hash ≡ attempt.intent_hash
    pub carried : s.grant.signed_action_intent ≡ embedded q.signed_action_intent
    pub is_new : s.grant.grant_id ≢ attempt.grant_id

  reissued-issue :
      (q : RetryRequest) (a : Attempt) (b : AgentAuthority) (s : SignedCapabilityGrant)
      → reissued lib policy key_id sign_payload q a b ≡ ok s
      → issue_capability_grant lib policy (reissue q a b) ≡ ok s.grant
  unfolding reissued sign check_identity
  reissued-issue q a b s h =
      elim (Result-cases (issue_capability_grant lib policy (reissue q a b))) [
        | inr (x, e) ↦ absurd (ground (arith, h, e))
        | inl (g, e) ↦ ground (arith, h, e)
      ]

  new_id : (a b : String) → (a == b) ≡ false → a ≢ b
  new_id a b h e = ground (arith, h, e, eq_iff a b)

  reissued-IsRetry :
      (q : RetryRequest) (db : AuthorityDb) (s : SignedCapabilityGrant) (a : Attempt)
      (b : AgentAuthority)
      → q.attempt ≡ some a
      → (get (retry_agent q) db).0 ≡ ok b
      → verify_intent lib q.signed_action_intent q.now ≡ ok tt
      → (q.signed_action_intent.intent_hash == a.intent_hash) ≡ true
      → intent_eq lib policy key_id sign_payload q.signed_action_intent.intent q.intent ≡ true
      → reissued lib policy key_id sign_payload q a b ≡ ok s
      → (s.grant.grant_id == a.grant_id) ≡ false
      → IsRetry q db s
  unfolding embed
  reissued-IsRetry q db s a b e c v k same r n =
      let i = issue-IsIssued lib policy (reissue q a b) b s.grant refl (reissued-issue q a b s r) in
      let own = signed_hash lib policy q.signed_action_intent q.intent q.clock i.intent in
      record {
        attempt = a;
        given = e;
        authority = b;
        current = c;
        verified = v;
        same = same;
        task = ap CapabilityGrant.task_id i.made;
        agent = ap CapabilityGrant.agent_id i.made;
        epoch = ap CapabilityGrant.authority_epoch i.made;
        version = ap CapabilityGrant.policy_version i.made;
        hash =
            ap CapabilityGrant.intent_hash i.made
            ∙ sym own
            ∙ (eq_iff q.signed_action_intent.intent_hash a.intent_hash).0 k;
        carried = ap CapabilityGrant.signed_action_intent i.made;
        is_new = new_id s.grant.grant_id a.grant_id n;
      }

  -- Where a retry is authorized, the attempt is there, and the grant is for its task and its intent
  -- hash, and carries the signed intent, which verifies and is for the given intent; the grant has the
  -- agent, the epoch and the policy version of the authority that the registry has now, and an id that
  -- the lost attempt's grant did not have.
  pub authorize_retry_lem :
      (q : RetryRequest) (db : AuthorityDb) (s : SignedCapabilityGrant)
      → authorize_retry lib policy key_id sign_payload q db ≡ ok s
      → IsRetry q db s
  unfolding authorize_retry
  authorize_retry_lem q db s h = elim (Option-cases q.attempt) [
    | inl e ↦ absurd (ground (arith, h, e))
    | inr (a, e) ↦ elim (Result-cases (verify_intent lib q.signed_action_intent q.now)) [
      | inr (x, v) ↦ absurd (ground (arith, h, e, v))
      | inl (u, v) ↦ elim (Result-cases ((get (retry_agent q) db).0)) [
        | inr (x, c) ↦ absurd (ground (arith, h, e, v, c))
        | inl (b, c) ↦ elim (Result-cases (reissued lib policy key_id sign_payload q a b)) [
          | inr (x, r) ↦ absurd (ground (arith, h, e, v, c, r))
          | inl (t, r) ↦
              reissued-IsRetry q db s a b e c v (ground (arith, h, e, v, c, r))
                (ground (arith, h, e, v, c, r)) (ground (arith, h, e, v, c, r))
                (ground (arith, h, e, v, c, r))
        ]
      ]
    ]
  ]
