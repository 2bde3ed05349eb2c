-- ===== src/Capability/Laws.antt =====
-- What the policy and the narrowing by authority promise.
use aegis_forge.Prelude.{
  ℕ, ◌≤◌, String, ◌≡◌, ◌≢◌, refl, Bool, true, false, not, ◌&&◌, arith, one_of, if◌then◌else◌,
}
use aegis_forge.Authority.Machine.{
  AuthorityState, probation, limited, standard, elevated, suspended,
}
use aegis_forge.Capability.Policy.{
  ActionIntent, Policy, Decision, allow, block, require_evidence, Check, check, blocked,
  is_sensitive, role_allowed_actions, wants_evidence,
}
use aegis_forge.Capability.Effective.{evaluate_effective_capability, is_restricted, is_safe_action}

-- How much a decision lets through.
abbrev pub level : Decision → ℕ
level block = 0
level require_evidence = 1
level allow = 2

-- How much authority a state carries.
abbrev pub rank : AuthorityState → ℕ
rank suspended = 0
rank probation = 1
rank limited = 1
rank standard = 2
rank elevated = 2

-- Dynamic authority only narrows: whatever the state, the effective decision lets no more through
-- than the static policy does; and of two states the one with less authority lets no more through.
pub authority_monotone :
    (p : Policy) (i : ActionIntent) (s s' : AuthorityState)
    → rank s ≤ rank s'
    → (level (evaluate_effective_capability p i s).decision
        ≤ level (evaluate_effective_capability p i s').decision)
      × (level (evaluate_effective_capability p i s').decision ≤ level (check p i).decision)
unfolding evaluate_effective_capability
authority_monotone p i s s' h = ground arith

-- An intent that the effective policy lets through without evidence: the state is not SUSPENDED, the
-- role has the action, which is not a sensitive one, and the intent is read-only, reversible, not
-- financial, not privileged and asks for no evidence; in PROBATION and LIMITED the action is also a
-- safe one, without network, shell and file system.
pub record IsHarmless (p : Policy) (i : ActionIntent) (s : AuthorityState) : Type 0 where
  pub active : s ≢ suspended
  pub role : one_of i.action (role_allowed_actions i.role) ≡ true
  pub target : one_of i.target p.blocked_targets ≡ false
  pub destination : one_of i.destination p.blocked_destinations ≡ false
  pub data_scope : one_of i.data_scope p.blocked_data_scopes ≡ false
  pub routine : is_sensitive i.action ≡ false
  pub read_only : i.read_only ≡ true
  pub reversible : i.irreversible ≡ false
  pub not_financial : i.financial ≡ false
  pub not_privileged : i.privileged ≡ false
  pub no_evidence : i.evidence_required ≡ false
  pub shell : i.requires_shell ≡ true → (p.shell_allowed ≡ true) × (rank s ≡ 2)
  pub network : i.requires_network ≡ true → (p.network_allowed ≡ true) × (rank s ≡ 2)
  pub filesystem : i.requires_filesystem ≡ true → (p.filesystem_allowed ≡ true) × (rank s ≡ 2)
  pub safe : rank s ≡ 1 → is_safe_action i.action ≡ true

-- A test that blocks did not fire.
passed :
    (b : Bool) (reason : String) (rest : Check)
    → (if b then blocked reason else rest).decision ≡ allow
    → (b ≡ false) × (rest.decision ≡ allow)
unfolding blocked
passed true reason rest h = absurd (cc)
passed false reason rest h = (refl, h)

last_test :
    (b : Bool) (x y : Check)
    → x.decision ≡ require_evidence
    → (if b then x else y).decision ≡ allow
    → b ≡ false
last_test true x y e h = cc
last_test false x y e h = refl

wants_evidence_no :
    (i : ActionIntent)
    → wants_evidence i ≡ false
    → (is_sensitive i.action ≡ false)
      × (i.read_only ≡ true)
      × (i.irreversible ≡ false)
      × (i.financial ≡ false)
      × (i.privileged ≡ false)
      × (i.evidence_required ≡ false)
unfolding wants_evidence
wants_evidence_no i h = ground arith

clash : {b : Bool} → b ≡ true → b ≡ false → ⊥
clash p q = cc

senior : (s : AuthorityState) → s ≢ suspended → (rank s ≡ 1 → ⊥) → rank s ≡ 2
senior suspended n j = absurd (n refl)
senior probation n j = absurd (j refl)
senior limited n j = absurd (j refl)
senior standard n j = refl
senior elevated n j = refl

not_no : (a : Bool) → not a ≡ false → a ≡ true
not_no a h = ground arith

both_no : (a b : Bool) → (a && not b) ≡ false → a ≡ true → b ≡ true
both_no a b h e = ground arith

is_restricted_no :
    (i : ActionIntent)
    → is_restricted i ≡ false
    → (is_safe_action i.action ≡ true)
      × (i.requires_network ≡ false)
      × (i.requires_shell ≡ false)
      × (i.requires_filesystem ≡ false)
unfolding is_restricted
is_restricted_no i h = ground arith

effective_allow :
    (p : Policy) (i : ActionIntent) (s : AuthorityState)
    → (evaluate_effective_capability p i s).decision ≡ allow
    → ((check p i).decision ≡ allow) × (s ≢ suspended) × (rank s ≡ 1 → is_restricted i ≡ false)
unfolding evaluate_effective_capability
effective_allow p i s h = ground arith

pub allow-IsHarmless :
    (p : Policy) (i : ActionIntent) (s : AuthorityState)
    → (evaluate_effective_capability p i s).decision ≡ allow
    → IsHarmless p i s
unfolding check
allow-IsHarmless p i s h =
    let (h0, active, junior) = effective_allow p i s h in
    let (e1, h1) = passed (one_of i.target p.blocked_targets) _ _ h0 in
    let (e2, h2) = passed (one_of i.destination p.blocked_destinations) _ _ h1 in
    let (e3, h3) = passed (one_of i.data_scope p.blocked_data_scopes) _ _ h2 in
    let (e4, h4) = passed (not (one_of i.action (role_allowed_actions i.role))) _ _ h3 in
    let (e5, h5) = passed (i.requires_shell && not p.shell_allowed) _ _ h4 in
    let (e6, h6) = passed (i.requires_network && not p.network_allowed) _ _ h5 in
    let (e7, h7) = passed (i.requires_filesystem && not p.filesystem_allowed) _ _ h6 in
    let (n1, n2, n3, n4, n5, n6) = wants_evidence_no i (last_test (wants_evidence i) _ _ refl h7) in
    record {
      active = active;
      role = not_no (one_of i.action (role_allowed_actions i.role)) e4;
      target = e1;
      destination = e2;
      data_scope = e3;
      routine = n1;
      read_only = n2;
      reversible = n3;
      not_financial = n4;
      not_privileged = n5;
      no_evidence = n6;
      shell = λ e. (
        both_no _ _ e5 e,
        senior s active (λ r. let f = is_restricted_no i (junior r) in clash e f.2),
      );
      network = λ e. (
        both_no _ _ e6 e,
        senior s active (λ r. let f = is_restricted_no i (junior r) in clash e f.1),
      );
      filesystem = λ e. (
        both_no _ _ e7 e,
        senior s active (λ r. let f = is_restricted_no i (junior r) in clash e f.3),
      );
      safe = λ r. (is_restricted_no i (junior r)).0;
    }
