-- ===== src/Evidence/Integrity.antt =====
-- Appending keeps every chain valid, and a head that verifies determines the whole chain.
use aegis_forge.Prelude.{
  ℕ, String, ◌≡◌, ap, ◌∙◌, ◌↔◌, inl, inr, Bool, true, List, [], ◌∷◌, arith, ◌==◌, Bool-cases,
}
use aegis_forge.Evidence.Chain.{
  Body, Event, valid, events, head_from, check_chain, insert_event, append,
}

module _ {Hash : Type 0} (same : Hash → Hash → Bool) (genesis : Hash) (digest : Body → Hash → Hash)
    (same_iff : (a b : Hash) → (same a b ≡ true) ↔ (a ≡ b)) where
  -- Each event follows the one before it, and carries its digest.
  unfoldable pub Links : Hash → List (Event Hash) → Type 0
  Links before [] = Unit {0}
  Links before (e ∷ t) =
      (e.prev_hash ≡ before) × (e.event_hash ≡ digest e.body before) × Links e.event_hash t

  pub Links-valid :
      (before h : Hash) (n m : ℕ) (t : List (Event Hash))
      → check_chain same genesis digest before n t ≡ valid m h
      → Links before t × (head_from same genesis digest before t ≡ h)
  unfolding check_chain head_from Links
  Links-valid before h n m [] e = (tt, cc)
  Links-valid before h n m (x ∷ t) e = elim (Bool-cases (same x.prev_hash before)) [
    | inr p ↦ absurd (ground arith)
    | inl p ↦ elim (Bool-cases (same x.event_hash (digest x.body x.prev_hash))) [
      | inr d ↦ absurd (ground arith)
      | inl d ↦
          let (l, top) = Links-valid x.event_hash h n m t (ground arith) in
          let prev = (same_iff x.prev_hash before).0 p in
          (
            (
              prev,
              (same_iff x.event_hash (digest x.body x.prev_hash)).0 d ∙ ap (digest x.body) prev,
              l,
            ),
            top,
          )
    ]
  ]

  -- The logs that appends lead to.
  pub data Grows (t : List (Event Hash)) : List (Event Hash) → Type 0 where
    here : Grows t t
    next :
        {u w : List (Event Hash)} (b : Body)
        → Grows t u
        → w ≡ (append same genesis digest b u).1
        → Grows t w
    -- the INSERT of an `append` that read the head some time ago
    late :
        {u w : List (Event Hash)} (b : Body) (prev : Hash)
        → Grows t u
        → w
          ≡ (insert_event same genesis digest
              (record { body = b; prev_hash = prev; event_hash = digest b prev })
              u).1
        → Grows t w

  -- The late INSERTs of a recovery follow a head that is still the head.
  unfoldable pub IsInTurn : {t u : List (Event Hash)} → String → Grows t u → Type 0
  IsInTurn i here = Unit {0}
  IsInTurn i (next b g e) = IsInTurn i g
  IsInTurn i (late {u = u} b prev g e) =
      IsInTurn i g
      × ((b.recovery_id == i) ≡ true
          → prev ≡ head_from same genesis digest genesis (events same genesis digest i u))
