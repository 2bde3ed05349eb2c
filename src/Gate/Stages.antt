-- ===== src/Gate/Stages.antt =====
-- What the stages of `execute` guarantee, as long as no executor was called.
use aegis_forge.Prelude.{String, ◌≡◌, refl, sym, ap, ◌∙◌, subst, true, some}
use aegis_forge.Prelude.Result.{ok, err}
use aegis_forge.Prelude.Triple.{Triple, cases_of, at_ok, map_err-ok, map_err-err}
use aegis_forge.Prelude.Table.{select, has_key}
use aegis_forge.Attempt.State.{AttemptState, authorized, allowed}
use aegis_forge.Attempt.Defs.{
  Attempt, Attempts, AttemptError, Details, Request, create, transition_to, apply_change,
}
use aegis_forge.Attempt.Invariant.{apply_change-key}
use aegis_forge.Attempt.TransitionLaws.{
  transition_to_found, moved, select-moved, apply_change-state,
}
use aegis_forge.Attempt.Reach
use aegis_forge.Attempt.Invariant
use aegis_forge.Grant.History
use aegis_forge.Gate.World.{Consumption, World, GateError, on_attempts}
use aegis_forge.Gate.Attempts.{create_opens}
use aegis_forge.Gate.Authorized.{Quiet}

-- No executor was called, and the tables moved by steps of their stores.
pub record Still (w s : World) : Type 0 where
  pub ran : s.ran ≡ w.ran
  pub authority : s.authority ≡ w.authority
  pub grants : History.Reach w.grants s.grants
  pub attempts : Reach.Reach w.attempts s.attempts
  pub kept :
      (n : String)
      → has_key Consumption.nonce n w.consumptions ≡ true
      → has_key Consumption.nonce n s.consumptions ≡ true

pub Quiet-Still : (w s : World) → Quiet w s → Still w s
Quiet-Still w s q = record {
  ran = q.ran;
  authority = q.authority;
  grants = q.grants;
  attempts = subst (Reach.Reach w.attempts) (sym q.attempts) Reach.here;
  kept = λ n h. ap (has_key Consumption.nonce n) q.consumptions ∙ h;
}

-- The row of an attempt is as it was returned last.
abbrev pub Held : Attempt → World → Type 0
Held a s = select Attempt.attempt_id a.attempt_id s.attempts ≡ some a

-- What says nothing of the attempts.
abbrev pub Stable : (World → Type 0) → Type 0
Stable P = (s : World) (t : Attempts) → P s → P (record s { attempts = t })

pub transition_moves :
    (a : Attempt) (st : AttemptState) (d : Details) (t : Attempts)
    → Invariant.IsValid t
    → select Attempt.attempt_id a.attempt_id t ≡ some a
    → allowed a.state st ≡ true
    → transition_to a.attempt_id st d t ≡ (ok (apply_change a st d a), moved a st d t)
transition_moves a st d t v h free = transition_to_found a.attempt_id st d t a v.keyed h ∙ rw free

-- In one call, from the world `w`: `i` is the id of its attempt.
module _ (w : World) (i : String) where
  abbrev pub Moved : Attempt → AttemptState → (World → Type 0) → World → Type 0
  Moved a st P s = Still w s × (Held a s × ((a.state ≡ st) × ((a.attempt_id ≡ i) × P s)))

  module _ (v : Invariant.IsValid w.attempts) where
    pub move_Triple :
        {P : World → Type 0} {R : GateError → World → Type 0} {old : AttemptState}
        (e : AttemptError → GateError) (a : Attempt) (st : AttemptState) (d : Details)
        → Stable P
        → allowed old st ≡ true
        → Triple
            (Moved a old P)
            (on_attempts e (transition_to a.attempt_id st d))
            (λ a'. Moved a' st P)
            R
    unfolding on_attempts
    move_Triple e a st d k free = record {
      holds = λ s p.
          let (q, (held, (was, (own, facts)))) = p in
          let valid = Reach.Reach-IsValid v q.attempts in
          let moves =
            transition_moves a st d s.attempts valid held (ap (λ x. allowed x st) was ∙ free) in
          let kept_id = apply_change-key a st d a in
          rw moves (
            record {
              ran = q.ran;
              authority = q.authority;
              grants = q.grants;
              attempts =
                  Reach.next q.attempts (Reach.moved a.attempt_id st d (ap (λ x. x.1) (sym moves)));
              kept = q.kept;
            },
            (
              ap (λ j. select Attempt.attempt_id j (moved a st d s.attempts)) kept_id
                  ∙ select-moved a st d s.attempts held,
              (apply_change-state a a st d, (kept_id ∙ own, k s (moved a st d s.attempts) facts)),
            ),
          );
    }

  create-Still :
      (q : Request) (e : AttemptError → GateError) (s : World)
      → Still w s
      → Still w (on_attempts e (create q) s).1
  unfolding on_attempts
  create-Still q e s h = record {
    ran = h.ran;
    authority = h.authority;
    grants = h.grants;
    attempts = Reach.next h.attempts (Reach.created q refl);
    kept = h.kept;
  }

  pub create_Triple :
      {P : World → Type 0} (e : AttemptError → GateError) (q : Request)
      → q.fresh ≡ i
      → Stable P
      → Triple
          (λ s. Still w s × ((s.attempts ≡ w.attempts) × P s))
          (on_attempts e (create q))
          (λ a. Moved a authorized P)
          (λ x s. Still w s × ((y : AttemptError) × ((create q w.attempts).0 ≡ err y) × (x ≡ e y)))
  unfolding on_attempts
  create_Triple e q own k =
      cases_of (on_attempts e (create q))
        (λ s p a h.
          let o = at_ok (create_opens q) s.attempts tt a (map_err-ok _ _ h) in
          (
            create-Still q e s p.0,
            (o.there, (o.new, (o.id ∙ own, k s (create q s.attempts).1 p.1.1))),
          ))
        (λ s p x h.
          let (y, from, same) = map_err-err e (create q s.attempts).0 h in
          (create-Still q e s p.0, (y, ap (λ t. (create q t).0) (sym p.1.0) ∙ from, same)))
