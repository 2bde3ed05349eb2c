-- ===== src/Recovery/ReviewHistory.antt =====
-- Histories of the review table: any connections, in any order, each of which opens and resolves
-- reviews, also from what it read some time ago.
use aegis_forge.Prelude.{
  ℕ, String, ◌≡◌, refl, ◌∙◌, sym, subst, ◌⊎◌, inl, inr, Bool, true, false, ◌&&◌, none, some, arith,
  ◌==◌, eq_iff, Bool-cases, Option-cases, eqb, if◌then◌else◌,
}
use aegis_forge.Prelude.Result.{Result-cases, ok}
use aegis_forge.Prelude.Table.{select, changes}
use aegis_forge.Prelude.Table.Laws.{select-update, select-append, has_key-select}
use aegis_forge.Attempt.State.{running, state_eq}
use aegis_forge.Attempt.Defs.{Attempt}
use aegis_forge.Recovery.Reviews.{
  RecoveryDecision, Review, Reviews, Verdict, check_verdict, settled, is_open, settle, resolve_to,
  get_review, get_by_attempt, insert_review, new_review, as_row, open_new, open_review, has_text,
}
use aegis_forge.Recovery.ReviewLaws.{
  IsValid, settle-IsValid, insert_review-IsValid, insert_review_cases, get_by_attempt-reads,
}

-- `open_review` writes what its INSERT writes, and nothing where it raises or finds a review.
pub open_review_cases :
    (a : Attempt) (now : ℕ) (fresh : String) (t : Reviews)
    → ((open_review a now fresh t).1 ≡ t)
      ⊎ ((open_review a now fresh t).1 ≡ (insert_review (new_review a now fresh) t).1)
unfolding open_review open_new
open_review_cases a now fresh t = elim (Bool-cases (state_eq a.state running)) [
  | inr e ↦ inl (rw e refl)
  | inl e ↦ elim (Bool-cases (has_text a.receipt_id)) [
    | inl k ↦ inl (rw e (rw k refl))
    | inr k ↦ elim (Result-cases (get_by_attempt a.attempt_id t).0) [
      | inr (x, h) ↦ inl (rw e (rw k (rw h (get_by_attempt-reads a.attempt_id t))))
      | inl (none, h) ↦ inr (rw e (rw k (rw h (rw (get_by_attempt-reads a.attempt_id t) refl))))
      | inl (some r, h) ↦ inl (rw e (rw k (rw h (get_by_attempt-reads a.attempt_id t))))
    ]
  ]
]

-- `resolve_to` writes what its guarded UPDATE writes, with a verdict that passed its checks.
pub resolve_to_cases :
    (i : String) (d : RecoveryDecision) (v : Verdict) (t : Reviews)
    → ((resolve_to i d v t).1 ≡ t)
      ⊎ ((check_verdict d v ≡ ok tt) × ((resolve_to i d v t).1 ≡ (settle i d v t).1))
unfolding resolve_to get_review
resolve_to_cases i d v t = elim (Result-cases (check_verdict d v)) [
  | inr (e, h) ↦ inl (rw h refl)
  | inl (tt, h) ↦ elim (Option-cases (select Review.recovery_id i t)) [
    | inl n ↦ inl (rw h (rw n refl))
    | inr (r, n) ↦ elim (Bool-cases (is_open r)) [
      | inr k ↦ inl (rw h (rw n (rw k refl)))
      | inl k ↦ inr (h, rw h (rw n (rw k refl)))
    ]
  ]
]

pub data Step (t : Reviews) : Reviews → Type 0 where
  opened :
      {u : Reviews} (a : Attempt) (now : ℕ) (fresh : String)
      → u ≡ (open_review a now fresh t).1
      → Step t u
  resolved :
      {u : Reviews} (i : String) (d : RecoveryDecision) (v : Verdict)
      → u ≡ (resolve_to i d v t).1
      → Step t u
  -- the INSERT of an `open` that looked for the attempt's review some time ago
  inserted :
      {u : Reviews} (a : Attempt) (now : ℕ) (fresh : String)
      → u ≡ (insert_review (new_review a now fresh) t).1
      → Step t u
  -- the UPDATE of a `resolve` that checked its verdict, and read the review, some time ago
  settled_late :
      {u : Reviews} (i : String) (d : RecoveryDecision) (v : Verdict)
      → check_verdict d v ≡ ok tt
      → u ≡ (settle i d v t).1
      → Step t u

pub data Reach (t : Reviews) : Reviews → Type 0 where
  here : Reach t t
  next : {u w : Reviews} → Reach t u → Step u w → Reach t w

Step-IsValid : {t u : Reviews} → Step t u → IsValid t → IsValid u
Step-IsValid {t} (opened a now fresh e) w =
    subst IsValid (sym e) (elim (open_review_cases a now fresh t) [
      | inl h ↦ rw h w
      | inr h ↦ rw h (insert_review-IsValid (new_review a now fresh) t refl w)
    ])
Step-IsValid {t} (resolved i d v e) w = subst IsValid (sym e) (elim (resolve_to_cases i d v t) [
  | inl h ↦ rw h w
  | inr (c, h) ↦ rw h (settle-IsValid i d v t c w)
])
Step-IsValid {t} (inserted a now fresh e) w =
    subst IsValid (sym e) (insert_review-IsValid (new_review a now fresh) t refl w)
Step-IsValid {t} (settled_late i d v c e) w = subst IsValid (sym e) (settle-IsValid i d v t c w)

pub Reach-IsValid : {t u : Reviews} → IsValid t → Reach t u → IsValid u
Reach-IsValid w here = w
Reach-IsValid w (next h s) = Step-IsValid s (Reach-IsValid w h)

-- How a review may look later on.
pub record Lasts (r r' : Review) : Type 0 where
  pub id : r'.recovery_id ≡ r.recovery_id
  pub attempt : r'.attempt_id ≡ r.attempt_id
  pub task : r'.task_id ≡ r.task_id
  pub key : r'.idempotency_key ≡ r.idempotency_key
  pub final : is_open r ≡ false → r' ≡ r

Lasts-refl : (r : Review) → Lasts r r
Lasts-refl r = record { id = refl; attempt = refl; task = refl; key = refl; final = λ h. refl }

Lasts-trans : (a b c : Review) → Lasts a b → Lasts b c → Lasts a c
Lasts-trans a b c p q = record {
  id = q.id ∙ p.id;
  attempt = q.attempt ∙ p.attempt;
  task = q.task ∙ p.task;
  key = q.key ∙ p.key;
  final = λ h. let e = p.final h in q.final (subst (λ x. is_open x ≡ false) (sym e) h) ∙ e;
}

abbrev Keeps : Reviews → Reviews → Type 0
Keeps t u =
    (i : String) (r : Review)
    → select Review.recovery_id i t ≡ some r
    → (r' : Review) × (select Review.recovery_id i u ≡ some r') × Lasts r r'

Keeps-refl : (t : Reviews) → Keeps t t
Keeps-refl t i r e = (r, e, Lasts-refl r)

settle-Keeps :
    (j : String) (d : RecoveryDecision) (v : Verdict) (t : Reviews) → Keeps t (settle j d v t).1
unfolding settle get_review
settle-Keeps j d v t = elim (Bool-cases (eqb (changes Review.recovery_id j is_open t) 1)) [
  | inr e ↦ rw e (Keeps-refl t)
  | inl e ↦ rw e (λ i r found. (
    if i == j && is_open r then settled d v r else r,
    select-update Review.recovery_id j is_open (settled d v) (λ x. refl) i t r found,
    either (i == j) (is_open r) r refl,
  ))
]
  where
    either :
        (b c : Bool) (r : Review) → is_open r ≡ c → Lasts r (if b && c then settled d v r else r)
    either true true r h = record {
      id = refl;
      attempt = refl;
      task = refl;
      key = refl;
      final = λ k. absurd (cc);
    }
    either true false r h = Lasts-refl r
    either false c r h = Lasts-refl r

insert_review-Keeps : (x : Review) (t : Reviews) → Keeps t (insert_review x t).1
insert_review-Keeps x t = elim (insert_review_cases x t) [
  | inl e ↦ rw e (Keeps-refl t)
  | inr (k, s, e) ↦ rw e (λ i r found. (
    r,
    select-append Review.recovery_id i t (as_row x) k
        ∙ ground
            (arith, found, eq_iff x.recovery_id i, has_key-select Review.recovery_id i t r found),
    Lasts-refl r,
  ))
]

Step-Keeps : {t u : Reviews} → Step t u → Keeps t u
Step-Keeps {t} (opened a now fresh e) =
    subst (Keeps t) (sym e) (elim (open_review_cases a now fresh t) [
      | inl h ↦ rw h (Keeps-refl t)
      | inr h ↦ rw h (insert_review-Keeps (new_review a now fresh) t)
    ])
Step-Keeps {t} (resolved i d v e) = subst (Keeps t) (sym e) (elim (resolve_to_cases i d v t) [
  | inl h ↦ rw h (Keeps-refl t)
  | inr (c, h) ↦ rw h (settle-Keeps i d v t)
])
Step-Keeps {t} (inserted a now fresh e) =
    subst (Keeps t) (sym e) (insert_review-Keeps (new_review a now fresh) t)
Step-Keeps {t} (settled_late i d v c e) = subst (Keeps t) (sym e) (settle-Keeps i d v t)

-- Through any history of the review table, every review stays, under its attempt, task and key, and
-- one that is decided never changes again.
pub reviews_last :
    {t u : Reviews} (i : String) (r : Review)
    → Reach t u
    → select Review.recovery_id i t ≡ some r
    → (r' : Review) × (select Review.recovery_id i u ≡ some r') × Lasts r r'
reviews_last i r here e = (r, e, Lasts-refl r)
reviews_last i r (next h s) e =
    let (r', e', p) = reviews_last i r h e in
    let (r'', e'', q) = Step-Keeps s i r' e' in (r'', e'', Lasts-trans r r' r'' p q)
