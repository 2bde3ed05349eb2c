-- ===== src/Attempt/History.antt =====
-- What a history can never undo: rows stay, what identifies them stays, states move along the
-- table of transitions, and a row that is over never changes again.
use aegis_forge.Prelude.{
  ◌+◌, String, ◌≡◌, refl, ◌∙◌, sym, subst, inl, inr, true, ◌&&◌, Option, none, some, arith, ◌==◌,
  eq_iff, Bool-cases, Option-cases, eqb, if◌then◌else◌,
}
use aegis_forge.Prelude.Result.{Result-cases, ◌>>=◌}
use aegis_forge.Prelude.Table.{select, has_key, changes}
use aegis_forge.Prelude.Table.Laws.{select-update, select-append, has_key-select}
use aegis_forge.Attempt.State.{
  AttemptState, allowed, allowed-is_terminal, is_terminal, state_eq, state_eq_iff,
}
use aegis_forge.Attempt.Defs.{
  Attempt, Attempts, Details, Request, latest, has_number, create, transition_to, write, insert,
  next_number, required, new_attempt, apply_change,
}
use aegis_forge.Attempt.Invariant.{IsValid, apply_change-key}
use aegis_forge.Attempt.CreateLaws.{find_by_idempotency_key-latest}
use aegis_forge.Attempt.Reach.{
  Step, created, moved, wrote, inserted, Reach, here, next, Reach-IsValid,
}

-- A path through the table of transitions.
pub data Leads (s : AttemptState) : AttemptState → Type 0 where
  stay : Leads s s
  move : {a b : AttemptState} → Leads s a → allowed a b ≡ true → Leads s b

pub Leads-trans : {a b c : AttemptState} → Leads a b → Leads b c → Leads a c
Leads-trans p stay = p
Leads-trans p (move q e) = move (Leads-trans p q) e

-- How a row may look later on.
pub record Evolves (r r' : Attempt) : Type 0 where
  pub id : r'.attempt_id ≡ r.attempt_id
  pub task : r'.task_id ≡ r.task_id
  pub grant : r'.grant_id ≡ r.grant_id
  pub intent : r'.intent_hash ≡ r.intent_hash
  pub key : r'.idempotency_key ≡ r.idempotency_key
  pub number : r'.attempt_number ≡ r.attempt_number
  pub state : Leads r.state r'.state
  pub over : is_terminal r.state ≡ true → r' ≡ r

pub Evolves-refl : (r : Attempt) → Evolves r r
Evolves-refl r = record {
  id = refl;
  task = refl;
  grant = refl;
  intent = refl;
  key = refl;
  number = refl;
  state = stay;
  over = λ h. refl;
}

pub Evolves-trans : (a b c : Attempt) → Evolves a b → Evolves b c → Evolves a c
Evolves-trans a b c p q = record {
  id = q.id ∙ p.id;
  task = q.task ∙ p.task;
  grant = q.grant ∙ p.grant;
  intent = q.intent ∙ p.intent;
  key = q.key ∙ p.key;
  number = q.number ∙ p.number;
  state = Leads-trans p.state q.state;
  over = λ h. let e = p.over h in q.over (subst (λ x. is_terminal x.state ≡ true) (sym e) h) ∙ e;
}

-- Every row of `t` is in `u`, evolved.
abbrev pub Keeps : Attempts → Attempts → Type 0
Keeps t u =
    (i : String) (r : Attempt)
    → select Attempt.attempt_id i t ≡ some r
    → (r' : Attempt) × (select Attempt.attempt_id i u ≡ some r') × Evolves r r'

Keeps-refl : (t : Attempts) → Keeps t t
Keeps-refl t i r e = (r, e, Evolves-refl r)

Evolves-apply_change :
    (c : Attempt) (s : AttemptState) (d : Details) (r : Attempt)
    → allowed c.state s ≡ true
    → r.state ≡ c.state
    → Evolves r (apply_change c s d r)
unfolding apply_change
Evolves-apply_change c s d r a e = record {
  id = refl;
  task = refl;
  grant = refl;
  intent = refl;
  key = refl;
  number = refl;
  state = move stay (rw e a);
  over = λ h. absurd (ground (arith, allowed-is_terminal c.state s));
}

Evolves-written :
    (c : Attempt) (s : AttemptState) (d : Details) (r : Attempt) (i : String)
    → allowed c.state s ≡ true
    → Evolves r (if i == c.attempt_id && state_eq r.state c.state then apply_change c s d r else r)
Evolves-written c s d r i a = elim (Bool-cases (i == c.attempt_id && state_eq r.state c.state)) [
  | inr e ↦ rw e (Evolves-refl r)
  | inl e ↦ rw e (Evolves-apply_change c s d r a (ground (arith, state_eq_iff r.state c.state)))
]

write-Keeps :
    (c : Attempt) (s : AttemptState) (d : Details) (t : Attempts)
    → allowed c.state s ≡ true
    → Keeps t (write c s d t).1
unfolding write
write-Keeps c s d t a =
    elim (Bool-cases
      (eqb (changes Attempt.attempt_id c.attempt_id (λ r. state_eq r.state c.state) t) 1)) [
        | inr e ↦ rw e (Keeps-refl t)
        | inl e ↦ rw e (λ i r found. (
          if i == c.attempt_id && state_eq r.state c.state then apply_change c s d r else r,
          select-update Attempt.attempt_id c.attempt_id (λ x. state_eq x.state c.state)
              (apply_change c s d) (apply_change-key c s d) i t r found,
          Evolves-written c s d r i a,
        ))
      ]

transition_to-Keeps :
    (i : String) (s : AttemptState) (d : Details) (t : Attempts) → Keeps t (transition_to i s d t).1
unfolding transition_to
transition_to-Keeps i s d t = elim (Option-cases (select Attempt.attempt_id i t)) [
  | inl e ↦ rw e (Keeps-refl t)
  | inr (c, e) ↦ elim (Bool-cases (allowed c.state s)) [
    | inl a ↦ rw e (rw a (write-Keeps c s d t a))
    | inr a ↦ rw e (rw a (Keeps-refl t))
  ]
]

insert-Keeps : (a : Attempt) (t : Attempts) → Keeps t (insert a t).1
unfolding insert
insert-Keeps a t = elim (Bool-cases (has_key Attempt.attempt_id a.attempt_id t)) [
  | inl e ↦ rw e (Keeps-refl t)
  | inr new ↦ elim (Bool-cases (has_number a.idempotency_key a.attempt_number t)) [
    | inl e ↦ rw new (rw e (Keeps-refl t))
    | inr e ↦ rw new (
        rw e (λ i r found. (
          r,
          select-append Attempt.attempt_id i t a new
              ∙ ground (
                arith,
                found,
                eq_iff a.attempt_id i,
                has_key-select Attempt.attempt_id i t r found,
              ),
          Evolves-refl r,
        )))
  ]
]

admission-Keeps :
    (q : Request) (t : Attempts) (previous : Option Attempt)
    → Keeps t ((next_number previous q.retry >>= λ n. insert (new_attempt q n)) t).1
unfolding next_number
admission-Keeps q t none = insert-Keeps (new_attempt q 1) t
admission-Keeps q t (some l) = elim (Bool-cases (is_terminal l.state)) [
  | inr active ↦ rw active (Keeps-refl t)
  | inl over ↦ elim (Bool-cases q.retry) [
    | inr once ↦ rw over (rw once (Keeps-refl t))
    | inl again ↦ rw over (rw again (insert-Keeps (new_attempt q (l.attempt_number + 1)) t))
  ]
]

create-Keeps : (q : Request) (t : Attempts) → IsValid t → Keeps t (create q t).1
unfolding create
create-Keeps q t v = elim (Result-cases (required q)) [
  | inr (e, h) ↦ rw h (Keeps-refl t)
  | inl (u, h) ↦ rw h (
      rw (find_by_idempotency_key-latest q.idempotency_key t v.keyed)
        (admission-Keeps q t (latest q.idempotency_key t)))
]

Step-Keeps : {t u : Attempts} → IsValid t → Step t u → Keeps t u
Step-Keeps {t} v (created q e) = subst (Keeps t) (sym e) (create-Keeps q t v)
Step-Keeps {t} v (moved i s d e) = subst (Keeps t) (sym e) (transition_to-Keeps i s d t)
Step-Keeps {t} v (wrote c s d a e) = subst (Keeps t) (sym e) (write-Keeps c s d t a)
Step-Keeps {t} v (inserted q previous w e) = subst (Keeps t) (sym e) (admission-Keeps q t previous)

-- From a table that satisfies the invariant, through any history: every row that was there is there
-- still, under the same task, grant, intent, key and number; its state has moved along the table
-- of transitions only; and if it was over, nothing of it has changed.
pub history_keeps :
    {t u : Attempts} (i : String) (r : Attempt)
    → IsValid t
    → Reach t u
    → select Attempt.attempt_id i t ≡ some r
    → (r' : Attempt) × (select Attempt.attempt_id i u ≡ some r') × Evolves r r'
history_keeps i r v here e = (r, e, Evolves-refl r)
history_keeps i r v (next h s) e =
    let (r', e', p) = history_keeps i r v h e in
    let (r'', e'', q) = Step-Keeps (Reach-IsValid v h) s i r' e' in
    (r'', e'', Evolves-trans r r' r'' p q)
