-- ===== src/Evidence/Chain.antt =====
-- shared/recovery_evidence.py: the chain of evidence of a recovery. The digest, SHA-256 of canonical
-- JSON in the source, is a parameter, and so is the type of the digests, with its test of equality;
-- a payload is its canonical text.
use aegis_forge.Prelude.{
  ℕ, ◌+◌, String, Bool, not, Option, none, some, List, [], ◌∷◌, ◌++◌, ◌==◌, if◌then◌else◌,
}
use aegis_forge.Prelude.Result.{Result, ok, err, Action, raise_if, ◌>>◌}
use aegis_forge.Recovery.Blank.{is_blank}

-- What is hashed beside the previous hash.
pub record Body : Type 0 where
  pub recovery_id : String
  pub attempt_id : String
  pub event_type : String
  pub payload : String
  pub occurred_at : String

pub record Event (Hash : Type 0) : Type 0 where
  pub body : Body
  pub prev_hash : Hash
  pub event_hash : Hash

-- The answer of `verify`: the number of events, and the head or the event that is wrong.
pub data Verdict (Hash : Type 0) : Type 0 where
  valid : ℕ → Hash → Verdict Hash
  broken_prev_hash : ℕ → Hash → Verdict Hash
  event_hash_mismatch : ℕ → Hash → Verdict Hash

pub data EvidenceError : Type 0 where
  recovery_id_required attempt_id_required event_type_required : EvidenceError
  evidence_append_conflict evidence_event_not_found cannot_export_invalid_chain : EvidenceError

unfoldable pub count : {A : Type 0} → List A → ℕ
count [] = 0
count (x ∷ xs) = count xs + 1

-- The parameters: the digests, their equality, the genesis hash and the digest itself.
module _ {Hash : Type 0} (same : Hash → Hash → Bool) (genesis : Hash)
    (digest : Body → Hash → Hash) where
  -- `events`: WHERE recovery_id = ? ORDER BY event_id
  unfoldable pub events : String → List (Event Hash) → List (Event Hash)
  events i [] = []
  events i (e ∷ t) = let rest = events i t in if e.body.recovery_id == i then e ∷ rest else rest

  -- The hash of the last event, `before` if there is none.
  unfoldable pub head_from : Hash → List (Event Hash) → Hash
  head_from before [] = before
  head_from before (e ∷ t) = head_from e.event_hash t

  unfoldable pub find_event : Hash → List (Event Hash) → Option (Event Hash)
  find_event h [] = none
  find_event h (e ∷ t) = if same e.event_hash h then some e else find_event h t

  -- The loop of `verify`, from the expected previous hash.
  unfoldable pub check_chain : Hash → ℕ → List (Event Hash) → Verdict Hash
  check_chain expected n [] = valid n expected
  check_chain expected n (e ∷ t) =
      let rest = check_chain e.event_hash n t in
      if not (same e.prev_hash expected)
      then broken_prev_hash n e.event_hash
      else if not (same e.event_hash (digest e.body e.prev_hash))
      then event_hash_mismatch n e.event_hash
      else rest

  unfoldable pub verify : String → List (Event Hash) → Verdict Hash
  verify i t = check_chain genesis (count (events i t)) (events i t)

  found : Option (Event Hash) → Result EvidenceError (Event Hash)
  found none = err evidence_event_not_found
  found (some e) = ok e

  -- The INSERT under the UNIQUE hash, and `get_event`.
  unfoldable pub insert_event : Event Hash → Action EvidenceError (List (Event Hash)) (Event Hash)
  unfolding found
  insert_event e t = elim (find_event e.event_hash t) [
    | some x ↦ (err evidence_append_conflict, t)
    | none ↦ (found (find_event e.event_hash (t ++ e ∷ [])), t ++ e ∷ [])
  ]

  unfoldable pub next_event : Body → List (Event Hash) → Event Hash
  next_event b t =
      let prev = head_from genesis (events b.recovery_id t) in
      record { body = b; prev_hash = prev; event_hash = digest b prev }

  unfoldable pub append : Body → Action EvidenceError (List (Event Hash)) (Event Hash)
  append b = do
    raise_if (is_blank b.recovery_id) recovery_id_required
    raise_if (is_blank b.attempt_id) attempt_id_required
    raise_if (is_blank b.event_type) event_type_required
    λ t. insert_event (next_event b t) t
