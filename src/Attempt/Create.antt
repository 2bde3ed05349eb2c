-- ===== src/Attempt/Create.antt =====
-- `ExecutionAttemptStore.create`: the latest attempt under a key, the two unique indexes, and the
-- invariant.
use aegis_forge.Prelude.{
  ℕ, ◌+◌, ◌≤◌, ◌<◌, String, ◌≡◌, sym, ap, ◌∙◌, subst, ◌⊎◌, inl, inr, true, false, none, some, [],
  ◌∷◌, ◌++◌, Memᴰ, arith, ◌==◌, eq_iff, Bool-cases, Option-cases, ltb, if◌then◌else◌,
}
use mathlib.Core.List.Memᴰ as Memᴰ
use aegis_forge.Prelude.Table.{has_key}
use aegis_forge.Prelude.Table.Laws.{IsKeyed-append}
use aegis_forge.Attempt.State.{is_terminal}
use aegis_forge.Attempt.Defs.{Attempt, Attempts, latest, has_number, insert}
use aegis_forge.Attempt.Invariant.{IsValid}
use aegis_forge.Attempt.Numbers.{has_number-Mem, has_number-append}

-- The latest attempt stands in the table, under the key, with the greatest number.
pub latest-Mem :
    (k : String) (t : Attempts) (l : Attempt)
    → latest k t ≡ some l
    → Memᴰ l t × (l.idempotency_key ≡ k)
unfolding latest
latest-Mem k [] l h = cc
latest-Mem k (r ∷ t) l h = elim (Bool-cases (r.idempotency_key == k)) [
  | inr e ↦ let (m, same) = latest-Mem k t l (ground arith) in (Memᴰ.tail m, same)
  | inl e ↦ elim (Option-cases (latest k t)) [
    | inl none_left ↦ (Memᴰ.head (ground arith), ground (arith, eq_iff r.idempotency_key k))
    | inr (b, eb) ↦
        let (m, same) = latest-Mem k t b eb in
        elim (Bool-cases (ltb r.attempt_number b.attempt_number)) [
          | inl less ↦ (Memᴰ.tail (subst (λ x. Memᴰ x t) (ground arith) m), ground arith)
          | inr more ↦ (Memᴰ.head (ground arith), ground (arith, eq_iff r.idempotency_key k))
        ]
  ]
]

pub latest-max :
    (k : String) (t : Attempts) (r : Attempt)
    → Memᴰ r t
    → r.idempotency_key ≡ k
    → (l : Attempt) × (latest k t ≡ some l) × (r.attempt_number ≤ l.attempt_number)
unfolding latest
latest-max k [] r m e = elim m [ ]
latest-max k (x ∷ t) r (Memᴰ.head p) e = elim (Option-cases (latest k t)) [
  | inl h ↦ (x, ground (arith, eq_iff x.idempotency_key k), ground arith)
  | inr (b, h) ↦ (
    if ltb x.attempt_number b.attempt_number then b else x,
    ground (arith, eq_iff x.idempotency_key k),
    ground arith,
  )
]
latest-max k (x ∷ t) r (Memᴰ.tail m) e =
    let (l, el, le) = latest-max k t r m e in
    (
      if x.idempotency_key == k
          then (if ltb x.attempt_number l.attempt_number then l else x)
          else l,
      ground arith,
      ground arith,
    )

-- The attempts under a key all have a smaller number than `n`, and are over.
abbrev pub AllOver : String → ℕ → Attempts → Type 0
AllOver k n t =
    (r : Attempt)
    → Memᴰ r t
    → r.idempotency_key ≡ k
    → (r.attempt_number < n) × (is_terminal r.state ≡ true)

-- All the numbers below `n` are taken under the key.
abbrev pub Dense : String → ℕ → Attempts → Type 0
Dense k n t = (1 ≤ n) × ((j : ℕ) → 1 ≤ j → j < n → has_number k j t ≡ true)

-- The number is the first, or follows that of an attempt under the key that is over.
abbrev pub Follows : String → ℕ → Attempts → Type 0
Follows k n t =
    (n ≡ 1)
    ⊎ ((l : Attempt) × Memᴰ l t
        × (l.idempotency_key ≡ k)
        × (is_terminal l.state ≡ true)
        × (n ≡ l.attempt_number + 1))

Follows-Dense : (k : String) (n : ℕ) (t : Attempts) → IsValid t → Follows k n t → Dense k n t
Follows-Dense k n t v (inl e) = (omega arith, λ j one less. absurd (omega arith))
Follows-Dense k n t v (inr (l, m, own, over, e)) = (
  omega arith,
  λ j one less. elim (Bool-cases (ltb j l.attempt_number)) [
    | inl below ↦ ap (λ x. has_number x j t) (sym own) ∙ v.dense l j m one (ground arith)
    | inr last ↦ has_number-Mem k j t l m own (ground arith)
  ],
)

-- Where the number is free, all the attempts under the key come before it, and are over.
Follows-AllOver :
    (k : String) (n : ℕ) (t : Attempts)
    → IsValid t
    → Follows k n t
    → has_number k n t ≡ false
    → AllOver k n t
Follows-AllOver k n t v f free r m same = elim (Bool-cases (ltb r.attempt_number n)) [
  | inr more ↦ absurd (
      taken (elim (Bool-cases (ltb n r.attempt_number)) [
        | inl above ↦
            ap (λ x. has_number x n t) (sym same)
            ∙ v.dense r n m (Follows-Dense k n t v f).0 (ground arith)
        | inr equal ↦ has_number-Mem k n t r m same (ground arith)
      ]))
  | inl less ↦ (ground arith, over f (ground arith))
]
  where
    taken : has_number k n t ≡ true → ⊥
    taken h = ground (arith, h, free)

    over : Follows k n t → r.attempt_number < n → is_terminal r.state ≡ true
    over (inl e) h = let one = v.counted r m in absurd (omega arith)
    over (inr (l, ml, own, ended, e)) h =
        elim (Bool-cases (ltb r.attempt_number l.attempt_number)) [
          | inl below ↦ v.superseded r l m ml (same ∙ sym own) (ground arith)
          | inr last ↦
              let one = v.numbered r l m ml (same ∙ sym own) (ground arith) in
              ap (λ x. is_terminal x.state) one ∙ ended
        ]

append-IsValid :
    (t : Attempts) (a : Attempt)
    → IsValid t
    → has_key Attempt.attempt_id a.attempt_id t ≡ false
    → AllOver a.idempotency_key a.attempt_number t
    → Dense a.idempotency_key a.attempt_number t
    → IsValid (t ++ a ∷ [])
append-IsValid t a v new over full = record {
  keyed = IsKeyed-append Attempt.attempt_id t a v.keyed new;
  numbered = λ r s mr ms. both_numbered r s (Memᴰ.append_cases t mr) (Memᴰ.append_cases t ms);
  superseded = λ r s mr ms. both_over r s (Memᴰ.append_cases t mr) (Memᴰ.append_cases t ms);
  counted = λ r m. either_counted r (Memᴰ.append_cases t m);
  dense = λ r j m one less. either_dense r j one less (Memᴰ.append_cases t m);
}
  where
    either_counted : (r : Attempt) → Memᴰ r t ⊎ Memᴰ r (a ∷ []) → 1 ≤ r.attempt_number
    either_counted r (inl m) = v.counted r m
    either_counted r (inr m) =
        subst (λ x. 1 ≤ x) (ap Attempt.attempt_number (sym (Memᴰ.eq_of_singleton m))) full.0

    either_dense :
        (r : Attempt) (j : ℕ)
        → 1 ≤ j
        → j < r.attempt_number
        → Memᴰ r t ⊎ Memᴰ r (a ∷ [])
        → has_number r.idempotency_key j (t ++ a ∷ []) ≡ true
    either_dense r j one less (inl m) =
        has_number-append r.idempotency_key j t a (v.dense r j m one less)
    either_dense r j one less (inr m) =
        let e = Memᴰ.eq_of_singleton m in
        has_number-append r.idempotency_key j t a (
          ap (λ x. has_number x j t) (ap Attempt.idempotency_key e)
          ∙ full.1 j one (subst (λ x. j < x) (ap Attempt.attempt_number e) less))

    both_numbered :
        (r s : Attempt)
        → Memᴰ r t ⊎ Memᴰ r (a ∷ [])
        → Memᴰ s t ⊎ Memᴰ s (a ∷ [])
        → r.idempotency_key ≡ s.idempotency_key
        → r.attempt_number ≡ s.attempt_number
        → r ≡ s
    both_numbered r s (inl mr) (inl ms) k n = v.numbered r s mr ms k n
    both_numbered r s (inl mr) (inr ms) k n =
        let e = Memᴰ.eq_of_singleton ms in
        absurd (ground (arith, over r mr (k ∙ ap Attempt.idempotency_key e)))
    both_numbered r s (inr mr) (inl ms) k n =
        let e = Memᴰ.eq_of_singleton mr in
        absurd (ground (arith, over s ms (sym k ∙ ap Attempt.idempotency_key e)))
    both_numbered r s (inr mr) (inr ms) k n =
        Memᴰ.eq_of_singleton mr ∙ sym (Memᴰ.eq_of_singleton ms)

    both_over :
        (r s : Attempt)
        → Memᴰ r t ⊎ Memᴰ r (a ∷ [])
        → Memᴰ s t ⊎ Memᴰ s (a ∷ [])
        → r.idempotency_key ≡ s.idempotency_key
        → r.attempt_number < s.attempt_number
        → is_terminal r.state ≡ true
    both_over r s (inl mr) (inl ms) k n = v.superseded r s mr ms k n
    both_over r s (inl mr) (inr ms) k n =
        (over r mr (k ∙ ap Attempt.idempotency_key (Memᴰ.eq_of_singleton ms))).1
    both_over r s (inr mr) (inl ms) k n =
        let e = Memᴰ.eq_of_singleton mr in
        absurd (ground (arith, over s ms (sym k ∙ ap Attempt.idempotency_key e)))
    both_over r s (inr mr) (inr ms) k n =
        let e = Memᴰ.eq_of_singleton mr in let f = Memᴰ.eq_of_singleton ms in absurd (ground arith)

pub insert-IsValid :
    (t : Attempts) (a : Attempt)
    → IsValid t
    → Follows a.idempotency_key a.attempt_number t
    → IsValid (insert a t).1
unfolding insert
insert-IsValid t a v f = elim (Bool-cases (has_key Attempt.attempt_id a.attempt_id t)) [
  | inl e ↦ rw e v
  | inr new ↦ elim (Bool-cases (has_number a.idempotency_key a.attempt_number t)) [
    | inl e ↦ rw new (rw e v)
    | inr e ↦ rw new (
        rw e (
          append-IsValid t a v new (Follows-AllOver a.idempotency_key a.attempt_number t v f e)
            (Follows-Dense a.idempotency_key a.attempt_number t v f)))
  ]
]

-- With the latest attempt over, all attempts under the key are.
pub AllOver-latest :
    (k : String) (t : Attempts) (l : Attempt)
    → IsValid t
    → latest k t ≡ some l
    → is_terminal l.state ≡ true
    → AllOver k (l.attempt_number + 1) t
AllOver-latest k t l v e over r m same =
    let (b, eb, le) = latest-max k t r m same in
    let (ml, kl) = latest-Mem k t l e in
    let below : r.attempt_number ≤ l.attempt_number = ground arith in
    elim (Bool-cases (ltb r.attempt_number l.attempt_number)) [
      | inl less ↦ (omega arith, v.superseded r l m ml (same ∙ sym kl) (ground arith))
      | inr more ↦
          let one = v.numbered r l m ml (same ∙ sym kl) (ground arith) in
          (omega arith, ground arith)
    ]

pub AllOver-none : (k : String) (t : Attempts) (n : ℕ) → latest k t ≡ none → AllOver k n t
AllOver-none k t n e r m same = let (b, eb, le) = latest-max k t r m same in absurd (cc)
