-- ===== src/Attempt/TransitionLaws.antt =====
-- What `transition` does on every branch, and what two connections do that race for one row.
use aegis_forge.Prelude.{
  String, ◌≡◌, refl, ap, ◌∙◌, inl, inr, true, false, some, eq_refl, Bool-cases, if◌then◌else◌,
}
use aegis_forge.Prelude.Result.{ok, err}
use aegis_forge.Prelude.Table.{select, update, IsKeyed}
use aegis_forge.Prelude.Table.Laws.{changes-select, select-key, select-update, IsKeyed-update}
use aegis_forge.Attempt.State.{AttemptState, allowed, state_eq, state_eq_refl, allowed-state_eq}
use aegis_forge.Attempt.Defs.{
  Attempt, Attempts, Details, attempt_state_conflict, invalid_transition, apply_change, write,
  transition_to,
}
use aegis_forge.Attempt.Invariant.{apply_change-key}

-- The table after the guarded UPDATE from the snapshot `c`.
abbrev pub moved : Attempt → AttemptState → Details → Attempts → Attempts
moved c s d =
    update Attempt.attempt_id c.attempt_id (λ r. state_eq r.state c.state) (apply_change c s d)

-- A write whose snapshot is current changes its row, and returns it.
pub write_current :
    (c : Attempt) (s : AttemptState) (d : Details) (t : Attempts)
    → IsKeyed Attempt.attempt_id t
    → select Attempt.attempt_id c.attempt_id t ≡ some c
    → write c s d t ≡ (ok (apply_change c s d c), moved c s d t)
unfolding write
write_current c s d t w e =
    rw (changes-select Attempt.attempt_id c.attempt_id (λ r. state_eq r.state c.state) t c w e) (
      rw (state_eq_refl c.state) (
        rw
          (select-update Attempt.attempt_id c.attempt_id (λ r. state_eq r.state c.state)
            (apply_change c s d) (apply_change-key c s d) c.attempt_id t c e)
          (rw (eq_refl c.attempt_id) (rw (state_eq_refl c.state)))))

-- A write whose row has another state by now changes nothing.
pub write_outdated :
    (c r : Attempt) (s : AttemptState) (d : Details) (t : Attempts)
    → IsKeyed Attempt.attempt_id t
    → select Attempt.attempt_id c.attempt_id t ≡ some r
    → state_eq r.state c.state ≡ false
    → write c s d t ≡ (err attempt_state_conflict, t)
unfolding write
write_outdated c r s d t w e differs =
    rw (changes-select Attempt.attempt_id c.attempt_id (λ x. state_eq x.state c.state) t r w e)
      (rw differs)

pub select-moved :
    (c : Attempt) (s : AttemptState) (d : Details) (t : Attempts)
    → select Attempt.attempt_id c.attempt_id t ≡ some c
    → select Attempt.attempt_id c.attempt_id (moved c s d t) ≡ some (apply_change c s d c)
select-moved c s d t e =
    select-update Attempt.attempt_id c.attempt_id (λ r. state_eq r.state c.state)
      (apply_change c s d) (apply_change-key c s d) c.attempt_id t c e
    ∙ rw (eq_refl c.attempt_id) (rw (state_eq_refl c.state))

pub apply_change-state :
    (c r : Attempt) (s : AttemptState) (d : Details) → (apply_change c s d r).state ≡ s
unfolding apply_change
apply_change-state c r s d = refl

pub IsKeyed-moved :
    (c : Attempt) (s : AttemptState) (d : Details) (t : Attempts)
    → IsKeyed Attempt.attempt_id t
    → IsKeyed Attempt.attempt_id (moved c s d t)
IsKeyed-moved c s d t w =
    IsKeyed-update Attempt.attempt_id c.attempt_id (λ r. state_eq r.state c.state)
      (apply_change c s d) (apply_change-key c s d) t w

-- `transition` on a row that is there: it succeeds exactly where the table of transitions allows
-- the move, then changes that row alone and returns it, and never meets a conflict; elsewhere it
-- raises and writes nothing.
pub transition_to_found :
    (i : String) (s : AttemptState) (d : Details) (t : Attempts) (c : Attempt)
    → IsKeyed Attempt.attempt_id t
    → select Attempt.attempt_id i t ≡ some c
    → transition_to i s d t ≡ (
        if allowed c.state s
        then (ok (apply_change c s d c), moved c s d t)
        else (err (invalid_transition c.state s), t))
unfolding transition_to
transition_to_found i s d t c w e =
    let own = ap (λ k. select Attempt.attempt_id k t) (select-key Attempt.attempt_id i t c e) ∙ e in
    elim (Bool-cases (allowed c.state s)) [
      | inl a ↦ rw e (rw a (write_current c s d t w own))
      | inr a ↦ rw e (rw a)
    ]

-- Two connections read the same row and both want to move it. Whichever writes first wins; the
-- other meets `attempt_state_conflict`, and the table stays as the winner left it.
pub write-write_conflict :
    (c : Attempt) (s s' : AttemptState) (d d' : Details) (t : Attempts)
    → IsKeyed Attempt.attempt_id t
    → select Attempt.attempt_id c.attempt_id t ≡ some c
    → allowed c.state s ≡ true
    → write c s' d' (write c s d t).1 ≡ (err attempt_state_conflict, (write c s d t).1)
write-write_conflict c s s' d d' t w e a = rw (write_current c s d t w e) (
    write_outdated c (apply_change c s d c) s' d' (moved c s d t) (IsKeyed-moved c s d t w)
      (select-moved c s d t e) (rw apply_change-state (allowed-state_eq c.state s a)))
