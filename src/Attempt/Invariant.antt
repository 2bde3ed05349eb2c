-- ===== src/Attempt/Invariant.antt =====
-- What every reachable table of attempts satisfies, and that each operation keeps it.
use aegis_forge.Prelude.{
  ℕ, ◌≤◌, ◌<◌, String, ◌≡◌, refl, sym, ap, ◌∙◌, subst, inl, inr, true, ◌&&◌, Memᴰ, arith, ◌==◌,
  Bool-cases, Option-cases, eqb, if◌then◌else◌,
}
use aegis_forge.Prelude.Table.{select, update, changes, IsKeyed}
use aegis_forge.Prelude.Table.Laws.{IsKeyed-update, Mem-update}
use aegis_forge.Attempt.State.{
  AttemptState, is_terminal, allowed, state_eq, state_eq_iff, allowed-is_terminal,
}
use aegis_forge.Attempt.Defs.{
  Attempt, Attempts, Details, has_number, apply_change, write, transition_to,
}
use aegis_forge.Attempt.Numbers.{has_number-update}

pub record IsValid (t : Attempts) : Type 0 where
  pub keyed : IsKeyed Attempt.attempt_id t
  -- the unique index
  pub numbered :
      (r s : Attempt)
      → Memᴰ r t
      → Memᴰ s t
      → r.idempotency_key ≡ s.idempotency_key
      → r.attempt_number ≡ s.attempt_number
      → r ≡ s
  -- an attempt that a later one has replaced is over
  pub superseded :
      (r s : Attempt)
      → Memᴰ r t
      → Memᴰ s t
      → r.idempotency_key ≡ s.idempotency_key
      → r.attempt_number < s.attempt_number
      → is_terminal r.state ≡ true
  -- the numbers under a key have no gap, and begin at one
  pub counted : (r : Attempt) → Memᴰ r t → 1 ≤ r.attempt_number
  pub dense :
      (r : Attempt) (j : ℕ)
      → Memᴰ r t
      → 1 ≤ j
      → j < r.attempt_number
      → has_number r.idempotency_key j t ≡ true

-- What a guarded update makes of one row.
abbrev pub written : Attempt → AttemptState → Details → Attempt → Attempt
written c s d r =
    if r.attempt_id == c.attempt_id && state_eq r.state c.state then apply_change c s d r else r

module _ (c : Attempt) (s : AttemptState) (d : Details) where
  pub apply_change-key : (r : Attempt) → (apply_change c s d r).attempt_id ≡ r.attempt_id
  unfolding apply_change
  apply_change-key r = refl

  pub written_identity :
      (r r' : Attempt)
      → r' ≡ written c s d r
      → (r'.idempotency_key ≡ r.idempotency_key) × (r'.attempt_number ≡ r.attempt_number)
  unfolding apply_change
  written_identity r r' e =
      (ap Attempt.idempotency_key e ∙ ground arith, ap Attempt.attempt_number e ∙ ground arith)

  -- A terminal row passes no guard of an allowed transition.
  pub written_terminal :
      (r : Attempt) → allowed c.state s ≡ true → is_terminal r.state ≡ true → written c s d r ≡ r
  written_terminal r a h =
      ground (arith, state_eq_iff r.state c.state, allowed-is_terminal c.state s)

  abbrev moved : Attempts → Attempts
  moved =
      update Attempt.attempt_id c.attempt_id (λ r. state_eq r.state c.state) (apply_change c s d)

  pub Mem-moved :
      (t : Attempts) (r' : Attempt)
      → Memᴰ r' (moved t)
      → (r : Attempt) × Memᴰ r t
        × (r' ≡ written c s d r)
        × (r'.idempotency_key ≡ r.idempotency_key)
        × (r'.attempt_number ≡ r.attempt_number)
  Mem-moved t r' m =
      let (r, old, e) = Mem-update Attempt.attempt_id _ _ _ t r' m in
      let (k, n) = written_identity r r' e in (r, old, e, k, n)

  numbers_kept : (k : String) (j : ℕ) (t : Attempts) → has_number k j (moved t) ≡ has_number k j t
  unfolding apply_change
  numbers_kept k j t =
      has_number-update k c.attempt_id j (λ r. state_eq r.state c.state) (apply_change c s d) t
        (λ r. refl) (λ r. refl)

  pub update-IsValid : (t : Attempts) → allowed c.state s ≡ true → IsValid t → IsValid (moved t)
  update-IsValid t a v = record {
    keyed = IsKeyed-update Attempt.attempt_id _ _ _ apply_change-key t v.keyed;
    numbered = λ r' q' mr mq k n.
        let (r, or, er, kr, nr) = Mem-moved t r' mr in
        let (q, oq, eq, kq, nq) = Mem-moved t q' mq in
        er ∙ ap (written c s d) (v.numbered r q or oq (cc) (omega arith)) ∙ sym eq;
    superseded = λ r' q' mr mq k n.
        let (r, or, er, kr, nr) = Mem-moved t r' mr in
        let (q, oq, eq, kq, nq) = Mem-moved t q' mq in
        let over = v.superseded r q or oq (cc) (omega arith) in
        subst (λ x. is_terminal x.state ≡ true) (sym (er ∙ written_terminal r a over)) over;
    counted = λ r' m.
        let (r, old, e, k, n) = Mem-moved t r' m in subst (λ x. 1 ≤ x) (sym n) (v.counted r old);
    dense = λ r' j m one less.
        let (r, old, e, k, n) = Mem-moved t r' m in
        numbers_kept r'.idempotency_key j t
        ∙ ap (λ x. has_number x j t) k
        ∙ v.dense r j old one (subst (λ x. j < x) n less);
  }

-- The guarded write, from any snapshot of the row, however old, keeps the invariant.
pub write-IsValid :
    (c : Attempt) (s : AttemptState) (d : Details) (t : Attempts)
    → allowed c.state s ≡ true
    → IsValid t
    → IsValid (write c s d t).1
unfolding write
write-IsValid c s d t a v =
    elim (Bool-cases
      (eqb (changes Attempt.attempt_id c.attempt_id (λ r. state_eq r.state c.state) t) 1)) [
        | inl e ↦ rw e (update-IsValid c s d t a v)
        | inr e ↦ rw e v
      ]

pub transition_to-IsValid :
    (i : String) (s : AttemptState) (d : Details) (t : Attempts)
    → IsValid t
    → IsValid (transition_to i s d t).1
unfolding transition_to
transition_to-IsValid i s d t v = elim (Option-cases (select Attempt.attempt_id i t)) [
  | inl e ↦ rw e v
  | inr (c, e) ↦ elim (Bool-cases (allowed c.state s)) [
    | inl a ↦ rw e (rw a (write-IsValid c s d t a v))
    | inr a ↦ rw e (rw a v)
  ]
]
