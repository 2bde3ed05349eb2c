-- ===== src/Attempt/Reach.antt =====
-- The histories of the attempt table: any connections, in any order, each of which creates attempts
-- or moves one, from a snapshot that may be out of date.
use aegis_forge.Prelude.{
  String, ◌≡◌, sym, subst, inl, inr, true, false, Option, [], Memᴰ, arith, Bool-cases, ltb,
}
use aegis_forge.Attempt.State.{AttemptState, allowed, is_terminal}
use aegis_forge.Attempt.Defs.{Attempt, Attempts, Details, Request, create, transition_to, write}
use aegis_forge.Attempt.Invariant.{IsValid, write-IsValid, transition_to-IsValid}
use aegis_forge.Attempt.CreateLaws.{create-IsValid, Seen, admit_seen, admission-IsValid}

pub data Step (t : Attempts) : Attempts → Type 0 where
  created : {u : Attempts} (q : Request) → u ≡ (create q t).1 → Step t u
  moved :
      {u : Attempts} (i : String) (s : AttemptState) (d : Details)
      → u ≡ (transition_to i s d t).1
      → Step t u
  -- the write of a transition that was read, and allowed, some time ago
  wrote :
      {u : Attempts} (c : Attempt) (s : AttemptState) (d : Details)
      → allowed c.state s ≡ true
      → u ≡ (write c s d t).1
      → Step t u
  -- the INSERT of a `create` that read the latest attempt some time ago
  inserted :
      {u : Attempts} (q : Request) (previous : Option Attempt)
      → Seen q t previous
      → u ≡ admit_seen q previous t
      → Step t u

pub data Reach (t : Attempts) : Attempts → Type 0 where
  here : Reach t t
  next : {u w : Attempts} → Reach t u → Step u w → Reach t w

pub Step-IsValid : {t u : Attempts} → Step t u → IsValid t → IsValid u
Step-IsValid {t} (created q e) v = subst IsValid (sym e) (create-IsValid q t v)
Step-IsValid {t} (moved i s d e) v = subst IsValid (sym e) (transition_to-IsValid i s d t v)
Step-IsValid {t} (wrote c s d a e) v = subst IsValid (sym e) (write-IsValid c s d t a v)
Step-IsValid {t} (inserted q previous w e) v =
    subst IsValid (sym e) (admission-IsValid q t previous v w)

-- The empty table satisfies the invariant, so every reachable one does.
pub IsValid-empty : IsValid []
IsValid-empty = record {
  keyed = tt;
  numbered = λ r s m. elim m [ ];
  superseded = λ r s m. elim m [ ];
  counted = λ r m. elim m [ ];
  dense = λ r j m. elim m [ ];
}

pub Reach-IsValid : {t u : Attempts} → IsValid t → Reach t u → IsValid u
Reach-IsValid v here = v
Reach-IsValid v (next r s) = Step-IsValid s (Reach-IsValid v r)

-- In every history, whatever interleaving of connections made it, where an INSERT or an UPDATE may
-- come later than the reads before it, an idempotency key has at most one attempt that is not over.
pub open_attempt_unique :
    {t : Attempts} (r s : Attempt)
    → Reach [] t
    → Memᴰ r t
    → Memᴰ s t
    → r.idempotency_key ≡ s.idempotency_key
    → is_terminal r.state ≡ false
    → is_terminal s.state ≡ false
    → r ≡ s
open_attempt_unique r s h mr ms k nr ns =
    let v = Reach-IsValid IsValid-empty h in
    elim (Bool-cases (ltb r.attempt_number s.attempt_number)) [
      | inl less ↦ absurd (ground (arith, v.superseded r s mr ms k (ground arith)))
      | inr more ↦ elim (Bool-cases (ltb s.attempt_number r.attempt_number)) [
        | inl less ↦ absurd (ground (arith, v.superseded s r ms mr (sym k) (ground arith)))
        | inr same ↦ v.numbered r s mr ms k (ground arith)
      ]
    ]
