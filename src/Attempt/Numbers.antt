-- ===== src/Attempt/Numbers.antt =====
-- The unique index on (idempotency_key, attempt_number), read off the rows.
use aegis_forge.Prelude.{ℕ, String, ◌≡◌, refl, Bool, true, [], ◌∷◌, ◌++◌, Memᴰ, arith, eq_iff}
use aegis_forge.Prelude.Table.{update}
use aegis_forge.Attempt.Defs.{Attempt, Attempts, has_number}

pub has_number-Mem :
    (k : String) (n : ℕ) (t : Attempts) (r : Attempt)
    → Memᴰ r t
    → r.idempotency_key ≡ k
    → r.attempt_number ≡ n
    → has_number k n t ≡ true
unfolding has_number
has_number-Mem k n [] r m e f = elim m [ ]
has_number-Mem k n (x ∷ t) r (Memᴰ.head p) e f = ground (arith, p, e, f, eq_iff x.idempotency_key k)
has_number-Mem k n (x ∷ t) r (Memᴰ.tail m) e f = ground (arith, has_number-Mem k n t r m e f)

pub has_number-append :
    (k : String) (n : ℕ) (t : Attempts) (a : Attempt)
    → has_number k n t ≡ true
    → has_number k n (t ++ a ∷ []) ≡ true
unfolding has_number
has_number-append k n [] a h = absurd (cc)
has_number-append k n (x ∷ t) a h = ground (arith, h, has_number-append k n t a)

pub has_number-update :
    (k i : String) (n : ℕ) (guard : Attempt → Bool) (f : Attempt → Attempt) (t : Attempts)
    → ((r : Attempt) → Attempt.idempotency_key (f r) ≡ r.idempotency_key)
    → ((r : Attempt) → Attempt.attempt_number (f r) ≡ r.attempt_number)
    → has_number k n (update Attempt.attempt_id i guard f t) ≡ has_number k n t
unfolding has_number update
has_number-update k i n guard f [] p q = refl
has_number-update k i n guard f (x ∷ t) p q =
    ground (arith, p x, q x, has_number-update k i n guard f t p q)
