-- ===== src/Gate/Attempts.antt =====
-- The attempt that one call of `execute` opens: what the store does for it while it is the call's.
use aegis_forge.Prelude.{
  ℕ, ◌≡◌, refl, ◌∙◌, subst, inl, inr, false, [], ◌∷◌, ◌++◌, some, arith, eq_refl, Bool-cases,
}
use aegis_forge.Prelude.Result.{lift}
use aegis_forge.Prelude.Triple.{Triple, bind, cases_of}
use aegis_forge.Prelude.Table.{select, has_key}
use aegis_forge.Prelude.Table.Laws.{select-append}
use aegis_forge.Attempt.State.{authorized}
use aegis_forge.Attempt.Defs.{
  Attempt, Attempts, Request, required, create, find_by_idempotency_key, next_number, insert,
  has_number, new_attempt,
}

-- A fresh attempt, found under its id.
pub record IsOpened (q : Request) (a : Attempt) (t : Attempts) : Type 0 where
  pub id : a.attempt_id ≡ q.fresh
  pub there : select Attempt.attempt_id a.attempt_id t ≡ some a
  pub new : a.state ≡ authorized

appended :
    (q : Request) (n : ℕ) (t : Attempts)
    → has_key Attempt.attempt_id q.fresh t ≡ false
    → IsOpened q (new_attempt q n) (t ++ new_attempt q n ∷ [])
appended q n t h = record {
  id = refl;
  there = select-append Attempt.attempt_id q.fresh t (new_attempt q n) h ∙ rw (eq_refl q.fresh);
  new = refl;
}

insert_opens :
    (q : Request) (n : ℕ)
    → Triple (λ t. Unit {0}) (insert (new_attempt q n)) (λ a t. IsOpened q a t) (λ e t. Unit {0})
unfolding insert
insert_opens q n =
    cases_of (insert (new_attempt q n))
      (λ t p a e. elim (Bool-cases (has_key Attempt.attempt_id q.fresh t)) [
        | inl h ↦ absurd (ground arith)
        | inr h ↦ elim (Bool-cases (has_number q.idempotency_key n t)) [
          | inl m ↦ absurd (ground arith)
          | inr m ↦
              let same : new_attempt q n ≡ a = ground arith in
              subst (λ x. IsOpened q x (insert (new_attempt q n) t).1) same
                (rw h (rw m (appended q n t h)))
        ]
      ])
      (λ t p e h. tt)

pub create_opens :
    (q : Request) → Triple (λ t. Unit {0}) (create q) (λ a t. IsOpened q a t) (λ e t. Unit {0})
unfolding create
create_opens q =
    bind {Q = λ _ t. Unit {0}} (cases_of (lift (required q)) (λ t p a e. tt) (λ t p a e. tt)) (λ _.
      bind {Q = λ _ t. Unit {0}}
        (cases_of (find_by_idempotency_key q.idempotency_key) (λ t p a e. tt) (λ t p a e. tt))
        (λ previous.
          bind {Q = λ _ t. Unit {0}}
            (cases_of (next_number previous q.retry) (λ t p a e. tt) (λ t p a e. tt))
            (λ n. insert_opens q n)))
