-- ===== src/Evidence/Examples.antt =====
-- A chain of two events, under a digest that is the chain itself.
use aegis_forge.Prelude.{
  some, ◌≡◌, ◌≢◌, refl, ◌↔◌, Bool, true, false, ◌&&◌, [], ◌∷◌, arith, ◌==◌, eq_iff,
}
use aegis_forge.Recovery.Blank.{is_blank}
use aegis_forge.Evidence.Chain.{
  broken_prev_hash, check_chain, Body, Event, count, events, head_from, find_event, check_chain,
  verify, insert_event, next_event, append,
}
use aegis_forge.Evidence.Integrity.{Grows, here, next}
use aegis_forge.Evidence.Binding.{head_determines}
use aegis_forge.Evidence.Artifact.{
  Artifact, valid_artifact, head_hash_mismatch, all_of, pack, pack_verified, export_artifact,
  check_events, verify_artifact, verify_artifact-export_artifact,
}

data Digest : Type 0 where
  start : Digest
  node : Body → Digest → Digest

unfoldable body_eq : Body → Body → Bool
body_eq a b =
    a.recovery_id == b.recovery_id
    && a.attempt_id == b.attempt_id
    && a.event_type == b.event_type
    && a.payload == b.payload
    && a.occurred_at == b.occurred_at

body_eq_iff : (a b : Body) → (body_eq a b ≡ true) ↔ (a ≡ b)
unfolding body_eq
body_eq_iff a b = ground (
  arith,
  eq_iff a.recovery_id b.recovery_id,
  eq_iff a.attempt_id b.attempt_id,
  eq_iff a.event_type b.event_type,
  eq_iff a.payload b.payload,
  eq_iff a.occurred_at b.occurred_at,
)

unfoldable digest_eq : Digest → Digest → Bool
digest_eq start start = true
digest_eq start (node b d) = false
digest_eq (node a d) start = false
digest_eq (node a d) (node b e) = body_eq a b && digest_eq d e

digest_eq_iff : (a b : Digest) → (digest_eq a b ≡ true) ↔ (a ≡ b)
unfolding digest_eq
digest_eq_iff start start = (λ h. refl, λ h. refl)
digest_eq_iff start (node b d) = (λ h. absurd (cc), λ h. absurd (cc))
digest_eq_iff (node a d) start = (λ h. absurd (cc), λ h. absurd (cc))
digest_eq_iff (node a d) (node b e) = ground (arith, body_eq_iff a b, digest_eq_iff d e)

node_injective : (b b' : Body) (p p' : Digest) → node b p ≡ node b' p' → (b ≡ b') × (p ≡ p')
node_injective b b' p p' e = (cc, cc)

node_ne_start : (b : Body) (p : Digest) → node b p ≢ start
node_ne_start b p e = cc

abbrev opening : Body
opening = record {
  recovery_id = "recovery_1";
  attempt_id = "attempt_1";
  event_type = "recovery_opened";
  payload = "{}";
  occurred_at = "2026-01-01T00:00:00+00:00";
}

abbrev first_event : Event Digest
first_event = record { body = opening; prev_hash = start; event_hash = node opening start }

appended : (append digest_eq start node opening []).1 ≡ first_event ∷ []
unfolding append insert_event find_event next_event head_from events is_blank
appended = refl

log : Grows digest_eq start node digest_eq_iff [] (first_event ∷ [])
unfolding append insert_event find_event next_event head_from events is_blank
log = next opening here refl

-- Two connections that read the same head fork the chain, which `verify` finds broken.
abbrev second_body : Body
second_body = record opening { event_type = "retry_claimed" }

forked :
    verify digest_eq start node "recovery_1"
      (insert_event digest_eq start node
        (record { body = second_body; prev_hash = start; event_hash = node second_body start })
        (first_event ∷ [])).1
    ≡ broken_prev_hash 2 (node second_body start)
unfolding verify events check_chain insert_event find_event digest_eq body_eq count
forked = refl

head_determines_example : (first_event ∷ []) ≡ (first_event ∷ [])
unfolding check_chain digest_eq body_eq
head_determines_example =
    head_determines digest_eq start node digest_eq_iff node_injective node_ne_start
      (first_event ∷ []) (first_event ∷ []) 1 1 1 1 (node opening start) refl refl

abbrev portable : Artifact Digest
portable = record {
  schema_version = "recovery-evidence-v1";
  recovery_id = "recovery_1";
  attempt_id = some "attempt_1";
  listed = first_event ∷ [];
  head_hash = node opening start;
}

-- An artifact that was cut short is told from a whole one by its head.
cut_short :
    verify_artifact digest_eq start node (record portable { listed = [] }) ≡ head_hash_mismatch 0
unfolding verify_artifact check_events count digest_eq is_blank
cut_short = refl

verify_artifact-export_artifact_example :
    verify_artifact digest_eq start node portable
    ≡ valid_artifact (count (first_event ∷ [])) (node opening start)
unfolding export_artifact pack_verified pack all_of verify check_chain events count digest_eq
    body_eq is_blank
verify_artifact-export_artifact_example =
    verify_artifact-export_artifact digest_eq start node digest_eq_iff "recovery_1"
      (first_event ∷ []) portable refl refl
