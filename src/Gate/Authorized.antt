-- ===== src/Gate/Authorized.antt =====
-- What a grant satisfies that `authorize` lets through, and what the call may have changed.
use aegis_forge.Prelude.{
  ℕ, ◌<◌, String, ◌≡◌, refl, sym, ap, ◌∙◌, subst, Bool, true, false, not, some, arith, ◌==◌, eq_iff,
}
use aegis_forge.Prelude.Result.{Result, ok, map_err, lift, raise_if}
use aegis_forge.Prelude.Checks.{require-ok}
use aegis_forge.Prelude.Triple.{
  weaken, Triple, Post, bind, lift-Triple, raise_if-Triple, cases_of, map_err-ok,
}
use aegis_forge.Authority.Registry.{AgentAuthority, get}
use aegis_forge.Authority.Reads.{get-reads}
use aegis_forge.Grant.Store.{SignedGrant, active, status, ensure_registered}
use aegis_forge.Grant.History.{Reach, here, next, ensured}
use aegis_forge.Grant.Once.{ensure_registered-status}
use aegis_forge.Gate.Artifacts.{
  embedded, SignedActionIntent, CapabilityGrant, SignedCapabilityGrant, Library,
}
use aegis_forge.Gate.Binding.{evidence_hash, consume_capability_grant}
use aegis_forge.Gate.World.{
  World, Gate, Call, GateError, grant_required, policy_version_mismatch,
  authority_registry_required, authorized_scope_mismatch, on_authority, on_grants, state_text,
}
use aegis_forge.Gate.Admission.{scope, check_status, check_authority, verified, check_intent}
use aegis_forge.Gate.Execute.{stored, authorize}
use aegis_forge.Prelude.Checks.{require}
use aegis_forge.Gate.Checked.{
  verified-ok, check_intent-ok, check_authority-ok, check_status-ok, consume_capability_grant-ok,
}

-- Nothing but the grant table has changed, and that by steps of its store.
pub record Quiet (w w' : World) : Type 0 where
  pub ran : w'.ran ≡ w.ran
  pub consumptions : w'.consumptions ≡ w.consumptions
  pub attempts : w'.attempts ≡ w.attempts
  pub authority : w'.authority ≡ w.authority
  pub grants : Reach w.grants w'.grants

pub Quiet-refl : (w : World) → Quiet w w
Quiet-refl w = record {
  ran = refl;
  consumptions = refl;
  attempts = refl;
  authority = refl;
  grants = here;
}

-- What `authorize` stands for: an envelope that the gate's key signs, an intent that is
-- signed, under an identity that its own key signs and that names the grant's agent, the authority that the agent has now, a grant that is ACTIVE in the store, and for this intent,
-- evidence, scope and time.
pub record IsAuthorized (lib : Library) (gate : Gate) (c : Call) (g : CapabilityGrant) (w : World)
    : Type 0 where
  pub envelope : SignedCapabilityGrant
  pub given : c.grant ≡ some envelope
  pub inside : envelope.grant ≡ g
  pub key : gate.signer ≡ some envelope.key_id
  pub signed : lib.signs_grant envelope ≡ true
  pub intent : SignedActionIntent
  pub intent_given : g.signed_action_intent ≡ embedded intent
  pub intent_signed : lib.signs_intent intent ≡ true
  pub intent_of : intent.intent.agent_id ≡ g.agent_id
  pub identity_key :
      lib.key_id_of intent.agent_identity.public_key ≡ some intent.agent_identity.key_id
  pub identity_signed : lib.signs_identity intent.agent_identity ≡ true
  pub identity_of : intent.agent_identity.identity.agent_id ≡ g.agent_id
  pub same_intent : lib.intent_hash intent.intent ≡ lib.intent_hash c.intent
  pub authority : AgentAuthority
  pub registered : (get g.agent_id w.authority).0 ≡ ok authority
  pub epoch : g.authority_epoch ≡ authority.authority_epoch
  pub state : g.authority_state ≡ state_text authority.state
  pub version : (g.policy_version ≡ authority.policy_version) × (g.policy_version ≡ gate.version)
  pub usable : status g.grant_id w.grants ≡ some active
  pub evidence : g.evidence_hash ≡ evidence_hash lib c.evidence_ids
  pub action : g.authorized_action ≡ c.intent.action
  pub target : g.authorized_target ≡ c.intent.target
  pub scope_fits : g.authorized_scope ≡ scope c.intent
  pub expires : ℕ
  pub expiry : lib.fromisoformat g.expires_at ≡ some expires
  pub in_time : c.now < expires

-- Nothing changes but the grant table, and what each check tells is kept.
module _ (w : World) where
  abbrev pub Unharmed : GateError → World → Type 0
  Unharmed e s = Quiet w s

  pub check_Triple :
      {A : Type 0} {P : World → Type 0} (r : Result GateError A)
      → Triple (λ s. Quiet w s × P s) (lift r) (λ a s. Quiet w s × (P s × (r ≡ ok a))) Unharmed
  check_Triple r =
      weaken (λ s p. p) (λ a s p. (p.0.0, (p.0.1, p.1))) (λ e s q. q) (lift-Triple r (λ e s p. p.0))

  pub test_Triple :
      {P : World → Type 0} (b : Bool) (e : GateError)
      → Triple
          (λ s. Quiet w s × P s)
          (raise_if b e)
          (λ u s. Quiet w s × (P s × (b ≡ false)))
          Unharmed
  test_Triple b e =
      weaken (λ s p. p) (λ a s p. (p.0.0, (p.0.1, p.1))) (λ e s q. q)
        (raise_if-Triple b e (λ e s p. p.0))

  on_authority-Quiet : (i : String) (s : World) → Quiet w s → Quiet w (on_authority (get i) s).1
  unfolding on_authority
  on_authority-Quiet i s q = record {
    ran = q.ran;
    consumptions = q.consumptions;
    attempts = q.attempts;
    authority = get-reads i s.authority ∙ q.authority;
    grants = q.grants;
  }

  on_grants-Quiet :
      (g : SignedGrant) (now : ℕ) (s : World)
      → Quiet w s
      → Quiet w (on_grants (ensure_registered g now) s).1
  unfolding on_grants
  on_grants-Quiet g now s q = record {
    ran = q.ran;
    consumptions = q.consumptions;
    attempts = q.attempts;
    authority = q.authority;
    grants = next q.grants (ensured g now refl);
  }

  get-Triple :
      {P : Type 0} (i : String)
      → Triple
          (λ s. Quiet w s × P)
          (on_authority (get i))
          (λ a s. Quiet w s × (P × ((get i w.authority).0 ≡ ok a)))
          Unharmed
  unfolding on_authority
  get-Triple i =
      cases_of (on_authority (get i))
        (λ s p a e. (
          on_authority-Quiet i s p.0,
          (p.1, subst (λ db. (get i db).0 ≡ ok a) (Quiet.authority p.0) (map_err-ok _ _ e)),
        ))
        (λ s p e h. on_authority-Quiet i s p.0)

  ensure-Triple :
      {P : Type 0} (g : SignedGrant) (now : ℕ)
      → Triple
          (λ s. Quiet w s × P)
          (on_grants (ensure_registered g now))
          (λ a s. Quiet w s × (P × (status g.grant_id s.grants ≡ some a)))
          Unharmed
  unfolding on_grants
  ensure-Triple g now =
      cases_of (on_grants (ensure_registered g now))
        (λ s p a e. (
          on_grants-Quiet g now s p.0,
          (p.1, ensure_registered-status g now s.grants a (map_err-ok _ _ e)),
        ))
        (λ s p e h. on_grants-Quiet g now s p.0)

-- In a call that authorizes a grant, the grant satisfies all of that; and, whether it does or raises,
-- nothing but the grant table has changed.
pub authorize-Triple :
    (lib : Library) (gate : Gate) (c : Call) (w : World)
    → Triple
        (λ s. Quiet w s × Unit {0})
        (authorize lib gate c)
        (λ g s. Quiet w s × IsAuthorized lib gate c g s)
        (Unharmed w)
unfolding authorize
authorize-Triple lib gate c w = bind (check_Triple w (require c.grant grant_required)) (λ s.
    bind (check_Triple w (verified lib gate s)) (λ g.
      bind (check_Triple w (check_intent lib g.signed_action_intent g c.now)) (λ _.
        bind (test_Triple w (not (g.policy_version == gate.version)) policy_version_mismatch) (λ _.
          bind (test_Triple w (not gate.has_registry) authority_registry_required) (λ _.
            bind (get-Triple w g.agent_id) (λ a. bind (check_Triple w (check_authority g a)) (λ _.
              bind (ensure-Triple w (stored lib s) c.clock) (λ st.
                bind (check_Triple w (check_status st)) (λ _.
                  bind
                    (check_Triple w (
                      map_err GateError.binding
                        (consume_capability_grant lib g c.intent c.evidence_ids c.now c.clock)))
                    (λ _.
                      bind
                        (test_Triple w (not (g.authorized_scope == scope c.intent))
                          authorized_scope_mismatch)
                        (λ _. record {
                          holds = λ t p.
                              let (
                                q,
                                (
                                  ((((((((((_, k1), k2), k3), k4), k5), k6), k7), k8), k9), k10),
                                  k11,
                                ),
                              ) =
                                p in
                              let (key, signed, inside) = verified-ok lib gate s g k2 in
                              let (i, given, by_agent, same, of_agent, its_key, its_own, its_name) =
                                check_intent-ok lib g.signed_action_intent g c.now k3 in
                              let (epoch, state, version) = check_authority-ok lib g a k7 in
                              let (hash, evidence, action, target, (expires, expiry, in_time)) =
                                consume_capability_grant-ok lib g c (map_err-ok _ _ k10) in
                              (
                                q,
                                record {
                                  envelope = s;
                                  given = require-ok c.grant _ k1;
                                  inside = inside;
                                  key = key;
                                  signed = signed;
                                  intent = i;
                                  intent_given = given;
                                  intent_signed = by_agent;
                                  intent_of = of_agent;
                                  identity_key = its_key;
                                  identity_signed = its_own;
                                  identity_of = its_name;
                                  same_intent = same ∙ hash;
                                  authority = a;
                                  registered =
                                      ap (λ db. (get g.agent_id db).0) (Quiet.authority q) ∙ k6;
                                  epoch = epoch;
                                  state = state;
                                  version = (
                                    version,
                                    ground (arith, k4, eq_iff g.policy_version gate.version),
                                  );
                                  usable =
                                      ap (λ x. status x.grant_id t.grants) (sym inside)
                                      ∙ k8
                                      ∙ ap some (check_status-ok lib st k9);
                                  evidence = evidence;
                                  action = action;
                                  target = target;
                                  scope_fits =
                                      ground
                                        (arith, k11, eq_iff g.authorized_scope (scope c.intent));
                                  expires = expires;
                                  expiry = expiry;
                                  in_time = in_time;
                                },
                              );
                        })))))))))))

-- `authorize` on every path. A grant that it gives back satisfies all that IsAuthorized lists, in the
-- tables as they are then; and, whether it does or raises, nothing has changed but the grant table,
-- where the grant may be registered now.
pub authorize_lem :
    (lib : Library) (gate : Gate) (c : Call) (w : World)
    → Post
        (λ g s. Quiet w s × IsAuthorized lib gate c g s)
        (λ e s. Quiet w s)
        (authorize lib gate c w)
authorize_lem lib gate c w = Triple.holds (authorize-Triple lib gate c w) w (Quiet-refl w, tt)
