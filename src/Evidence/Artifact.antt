-- ===== src/Evidence/Artifact.antt =====
-- shared/recovery_evidence.py: the portable artifact of a chain, and its check without a database.
use aegis_forge.Prelude.{
  ℕ, String, ◌≡◌, refl, ap, ◌∙◌, sym, subst, ◌↔◌, inl, inr, Bool, true, false, not, ◌&&◌, Option,
  none, some, List, [], ◌∷◌, arith, ◌==◌, eq_iff, eq_refl, Bool-cases, if◌then◌else◌,
}
use aegis_forge.Prelude.Result.{Result, ok, err}
use aegis_forge.Recovery.Blank.{is_blank}
use aegis_forge.Evidence.Chain.{
  Body, Event, Verdict, valid, broken_prev_hash, event_hash_mismatch, count, events, head_from,
  check_chain, verify,
}
use aegis_forge.Evidence.Integrity.{Links, Links-valid}

pub record Artifact (Hash : Type 0) : Type 0 where
  pub schema_version : String
  pub recovery_id : String
  pub attempt_id : Option String
  pub listed : List (Event Hash)
  pub head_hash : Hash

pub data ExportError : Type 0 where
  cannot_export_invalid_chain inconsistent_recovery_chain : ExportError

pub data ArtifactVerdict (Hash : Type 0) : Type 0 where
  valid_artifact : ℕ → Hash → ArtifactVerdict Hash
  unsupported_schema_version recovery_id_required : ArtifactVerdict Hash
  recovery_id_mismatch attempt_id_mismatch : ArtifactVerdict Hash
  broken_link : ℕ → Hash → ArtifactVerdict Hash
  hash_mismatch : ℕ → Hash → ArtifactVerdict Hash
  head_hash_mismatch : ℕ → ArtifactVerdict Hash

abbrev pub schema : String
schema = "recovery-evidence-v1"

-- `attempt_id is not None and event.get("attempt_id") != attempt_id`
unfoldable pub other_attempt : Option String → String → Bool
other_attempt none a = false
other_attempt (some x) a = not (a == x)

module _ {Hash : Type 0} (same : Hash → Hash → Bool) (genesis : Hash)
    (digest : Body → Hash → Hash) where
  -- All events are of one recovery and of one attempt.
  unfoldable pub all_of : String → String → List (Event Hash) → Bool
  all_of i a [] = true
  all_of i a (e ∷ t) = e.body.recovery_id == i && e.body.attempt_id == a && all_of i a t

  unfoldable pub pack : String → Hash → List (Event Hash) → Result ExportError (Artifact Hash)
  pack i head [] = err inconsistent_recovery_chain
  pack i head (e ∷ t) =
      if all_of e.body.recovery_id e.body.attempt_id t
      then ok (record {
        schema_version = schema;
        recovery_id = i;
        attempt_id = some e.body.attempt_id;
        listed = e ∷ t;
        head_hash = head;
      })
      else err inconsistent_recovery_chain

  unfoldable pub pack_verified :
      String → List (Event Hash) → Verdict Hash → Result ExportError (Artifact Hash)
  pack_verified i t (valid n head) = pack i head t
  pack_verified i t _ = err cannot_export_invalid_chain

  unfoldable pub export_artifact : String → List (Event Hash) → Result ExportError (Artifact Hash)
  export_artifact i t =
      pack_verified i (events same genesis digest i t) (verify same genesis digest i t)

  -- The loop of `verify_artifact`, and its last test.
  unfoldable pub check_events :
      String → Option String → Hash → Hash → ℕ → List (Event Hash) → ArtifactVerdict Hash
  check_events i a head expected n [] =
      if same head expected then valid_artifact n expected else head_hash_mismatch n
  check_events i a head expected n (e ∷ t) =
      let rest = check_events i a head e.event_hash n t in
      if not (e.body.recovery_id == i)
      then recovery_id_mismatch
      else if other_attempt a e.body.attempt_id
      then attempt_id_mismatch
      else if not (same e.prev_hash expected)
      then broken_link n e.event_hash
      else if not (same e.event_hash (digest e.body e.prev_hash))
      then hash_mismatch n e.event_hash
      else rest

  unfoldable pub verify_artifact : Artifact Hash → ArtifactVerdict Hash
  verify_artifact x =
      if not (x.schema_version == schema)
      then unsupported_schema_version
      else if is_blank x.recovery_id
      then recovery_id_required
      else check_events x.recovery_id x.attempt_id x.head_hash genesis (count x.listed) x.listed

module _ {Hash : Type 0} (same : Hash → Hash → Bool) (genesis : Hash) (digest : Body → Hash → Hash)
    (same_iff : (a b : Hash) → (same a b ≡ true) ↔ (a ≡ b)) where
  check_events-Links :
      (i a : String) (head before : Hash) (n : ℕ) (t : List (Event Hash))
      → all_of same genesis digest i a t ≡ true
      → Links same genesis digest same_iff before t
      → head_from same genesis digest before t ≡ head
      → check_events same genesis digest i (some a) head before n t ≡ valid_artifact n head
  unfolding check_events head_from Links all_of other_attempt
  check_events-Links i a head before n [] c l h =
      rw ((same_iff head before).1 (sym h)) (ap (valid_artifact n) h)
  check_events-Links i a head before n (e ∷ t) c (p, d, l) h =
      let r : (e.body.recovery_id == i) ≡ true = ground arith in
      let s : (e.body.attempt_id == a) ≡ true = ground arith in
      let rest : all_of same genesis digest i a t ≡ true = ground arith in
      rw r (
        rw s (
          rw ((same_iff e.prev_hash before).1 p) (
            rw
              ((same_iff e.event_hash (digest e.body e.prev_hash)).1
                (d ∙ ap (digest e.body) (sym p)))
              (check_events-Links i a head e.event_hash n t rest l h))))

  IsOwn : String → List (Event Hash) → Type 0
  IsOwn i [] = Unit {0}
  IsOwn i (e ∷ t) = e.body.recovery_id ≡ i

  events-IsOwn : (i : String) (t : List (Event Hash)) → IsOwn i (events same genesis digest i t)
  unfolding IsOwn events
  events-IsOwn i [] = tt
  events-IsOwn i (e ∷ t) = elim (Bool-cases (e.body.recovery_id == i)) [
    | inl y ↦ rw y ((eq_iff e.body.recovery_id i).0 y)
    | inr n ↦ rw n (events-IsOwn i t)
  ]

  packed : String → Hash → Event Hash → List (Event Hash) → Artifact Hash
  packed i h e t = record {
    schema_version = schema;
    recovery_id = i;
    attempt_id = some e.body.attempt_id;
    listed = e ∷ t;
    head_hash = h;
  }

  packed-valid :
      (i : String) (h : Hash) (e : Event Hash) (t : List (Event Hash))
      → is_blank i ≡ false
      → e.body.recovery_id ≡ i
      → all_of same genesis digest e.body.recovery_id e.body.attempt_id t ≡ true
      → Links same genesis digest same_iff genesis (e ∷ t)
      → head_from same genesis digest genesis (e ∷ t) ≡ h
      → verify_artifact same genesis digest (packed i h e t) ≡ valid_artifact (count (e ∷ t)) h
  unfolding verify_artifact packed all_of
  packed-valid i h e t full own c l top = rw full (
      check_events-Links i e.body.attempt_id h genesis (count (e ∷ t)) (e ∷ t)
        (rw ((eq_iff e.body.recovery_id i).1 own) (
          rw (eq_refl e.body.attempt_id)
            (ap (λ x. all_of same genesis digest x e.body.attempt_id t) (sym own) ∙ c)))
        l top)

  packing :
      (i : String) (l : List (Event Hash)) (v : Verdict Hash) (x : Artifact Hash)
      → is_blank i ≡ false
      → IsOwn i l
      → check_chain same genesis digest genesis (count l) l ≡ v
      → pack_verified same genesis digest i l v ≡ ok x
      → verify_artifact same genesis digest x ≡ valid_artifact (count x.listed) x.head_hash
  unfolding pack_verified pack IsOwn packed
  packing i l (broken_prev_hash n h) x full own v e = absurd (cc)
  packing i l (event_hash_mismatch n h) x full own v e = absurd (cc)
  packing i [] (valid n h) x full own v e = absurd (cc)
  packing i (y ∷ l) (valid n h) x full own v e =
      elim (Bool-cases (all_of same genesis digest y.body.recovery_id y.body.attempt_id l)) [
        | inr c ↦ absurd (ground arith)
        | inl c ↦
            let (links, top) =
              Links-valid same genesis digest same_iff genesis h (count (y ∷ l)) n (y ∷ l) v in
            let made : packed i h y l ≡ x = ground arith in
            subst
              (λ z.
                verify_artifact same genesis digest z ≡ valid_artifact (count z.listed) z.head_hash)
              made (packed-valid i h y l full own c links top)
      ]

  -- What `export_artifact` gives out for a recovery whose id is not blank, `verify_artifact` finds
  -- valid, with the number of its events and its head.
  pub verify_artifact-export_artifact :
      (i : String) (t : List (Event Hash)) (x : Artifact Hash)
      → is_blank i ≡ false
      → export_artifact same genesis digest i t ≡ ok x
      → verify_artifact same genesis digest x ≡ valid_artifact (count x.listed) x.head_hash
  unfolding export_artifact verify
  verify_artifact-export_artifact i t x full e =
      packing i (events same genesis digest i t) _ x full (events-IsOwn i t) refl e
