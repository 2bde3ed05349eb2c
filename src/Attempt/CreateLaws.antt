-- ===== src/Attempt/CreateLaws.antt =====
-- What `create` does on every branch, and that it keeps the invariant.
use aegis_forge.Prelude.{
  ℕ, ◌+◌, ◌<◌, String, ◌≡◌, refl, inl, inr, true, false, not, Option, none, some, [], ◌∷◌, ◌++◌,
  Memᴰ, arith, ◌==◌, eq_iff, Bool-cases, Option-cases, if◌then◌else◌,
}
use aegis_forge.Prelude.Result.{Result, Result-cases, ok, err, ◌>>=◌}
use aegis_forge.Prelude.Table.{has_key, IsKeyed}
use aegis_forge.Prelude.Table.Laws.{select-Mem}
use aegis_forge.Attempt.State.{is_terminal}
use aegis_forge.Attempt.Defs.{
  Attempt, Attempts, AttemptError, Request, required, latest, has_number, insert, create,
  next_number, find_by_idempotency_key, new_attempt, idempotency_key_reused, idempotency_key_active,
}
use aegis_forge.Attempt.Invariant.{IsValid}
use aegis_forge.Attempt.Create.{latest-Mem, AllOver, AllOver-latest, AllOver-none, insert-IsValid}

pub find_by_idempotency_key-latest :
    (k : String) (t : Attempts)
    → IsKeyed Attempt.attempt_id t
    → find_by_idempotency_key k t ≡ (ok (latest k t), t)
unfolding find_by_idempotency_key
find_by_idempotency_key-latest k t w = elim (Option-cases (latest k t)) [
  | inl e ↦ rw e
  | inr (l, e) ↦ rw e (rw (select-Mem Attempt.attempt_id t l w (latest-Mem k t l e).0))
]

has_number-AllOver :
    (k : String) (n : ℕ) (t u : Attempts)
    → ((r : Attempt) → Memᴰ r u → r.idempotency_key ≡ k → r.attempt_number < n)
    → has_number k n u ≡ false
unfolding has_number
has_number-AllOver k n t [] over = refl
has_number-AllOver k n t (r ∷ u) over = elim (Bool-cases (r.idempotency_key == k)) [
  | inl e ↦ ground (
    arith,
    over r (Memᴰ.head refl) ((eq_iff r.idempotency_key k).0 e),
    has_number-AllOver k n t u (λ x m. over x (Memᴰ.tail m)),
  )
  | inr e ↦ ground (arith, has_number-AllOver k n t u (λ x m. over x (Memᴰ.tail m)))
]

insert_over :
    (t : Attempts) (a : Attempt)
    → has_key Attempt.attempt_id a.attempt_id t ≡ false
    → AllOver a.idempotency_key a.attempt_number t
    → insert a t ≡ (ok a, t ++ a ∷ [])
unfolding insert
insert_over t a new over =
    rw new
      (rw (has_number-AllOver a.idempotency_key a.attempt_number t t (λ r m e. (over r m e).0)))

-- What a complete request deserves, by the latest attempt under its key.
abbrev pub admitted : Request → Option Attempt → Attempts → Result AttemptError Attempt × Attempts
admitted q none t = (ok (new_attempt q 1), t ++ new_attempt q 1 ∷ [])
admitted q (some l) t =
    let a = new_attempt q (l.attempt_number + 1) in
    if not (is_terminal l.state)
    then (err idempotency_key_active, t)
    else if q.retry
    then (ok a, t ++ a ∷ [])
    else (err idempotency_key_reused, t)

admission :
    (q : Request) (t : Attempts) (previous : Option Attempt)
    → IsValid t
    → has_key Attempt.attempt_id q.fresh t ≡ false
    → latest q.idempotency_key t ≡ previous
    → (next_number previous q.retry >>= λ n. insert (new_attempt q n)) t ≡ admitted q previous t
unfolding next_number
admission q t none v new e =
    insert_over t (new_attempt q 1) new (AllOver-none q.idempotency_key t 1 e)
admission q t (some l) v new e = elim (Bool-cases (is_terminal l.state)) [
  | inr active ↦ rw active
  | inl over ↦ elim (Bool-cases q.retry) [
    | inr once ↦ rw over (rw once)
    | inl again ↦ rw over (
        rw again (
          insert_over t (new_attempt q (l.attempt_number + 1)) new
            (AllOver-latest q.idempotency_key t l v e over)))
  ]
]

-- `create` on a complete request with an unused id. It never meets a database error: under a new
-- key it inserts attempt 1; under a known one it needs `retry` and a latest attempt that is over,
-- and takes the next number; otherwise it raises and inserts nothing.
pub create_lem :
    (q : Request) (t : Attempts)
    → IsValid t
    → required q ≡ ok tt
    → has_key Attempt.attempt_id q.fresh t ≡ false
    → create q t ≡ admitted q (latest q.idempotency_key t) t
unfolding create
create_lem q t v c new = rw c (
    rw (find_by_idempotency_key-latest q.idempotency_key t v.keyed)
      (admission q t (latest q.idempotency_key t) v new refl))

-- What was read of the latest attempt, maybe some time ago: where it was over, it stands as it was.
abbrev pub Seen : Request → Attempts → Option Attempt → Type 0
Seen q t none = Unit {0}
Seen q t (some l) = is_terminal l.state ≡ true → Memᴰ l t × (l.idempotency_key ≡ q.idempotency_key)

-- The rest of `create`, from what was read.
abbrev pub admit_seen : Request → Option Attempt → Attempts → Attempts
admit_seen q previous t = ((next_number previous q.retry >>= λ n. insert (new_attempt q n)) t).1

pub admission-IsValid :
    (q : Request) (t : Attempts) (previous : Option Attempt)
    → IsValid t
    → Seen q t previous
    → IsValid ((next_number previous q.retry >>= λ n. insert (new_attempt q n)) t).1
unfolding next_number
admission-IsValid q t none v e = insert-IsValid t (new_attempt q 1) v (inl refl)
admission-IsValid q t (some l) v e = elim (Bool-cases (is_terminal l.state)) [
  | inr active ↦ rw active v
  | inl over ↦ elim (Bool-cases q.retry) [
    | inr once ↦ rw over (rw once v)
    | inl again ↦ rw over (
        rw again (
          insert-IsValid t (new_attempt q (l.attempt_number + 1)) v
            (inr (l, (e over).0, (e over).1, over, refl))))
  ]
]

latest-Seen :
    (q : Request) (t : Attempts) (previous : Option Attempt)
    → latest q.idempotency_key t ≡ previous
    → Seen q t previous
latest-Seen q t none e = tt
latest-Seen q t (some l) e = λ over. latest-Mem q.idempotency_key t l e

-- Any request at all keeps the invariant, whatever id is drawn.
pub create-IsValid : (q : Request) (t : Attempts) → IsValid t → IsValid (create q t).1
unfolding create
create-IsValid q t v = elim (Result-cases (required q)) [
  | inr (e, h) ↦ rw h v
  | inl (u, h) ↦ rw h (
      rw (find_by_idempotency_key-latest q.idempotency_key t v.keyed) (
        admission-IsValid q t (latest q.idempotency_key t) v
          (latest-Seen q t (latest q.idempotency_key t) refl)))
]
