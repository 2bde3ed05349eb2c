-- ===== src/Recovery/ReviewLaws.antt =====
-- What every reachable table of reviews satisfies, and that each operation keeps it.
use aegis_forge.Prelude.{
  String, ◌≡◌, refl, ◌∙◌, sym, subst, ◌⊎◌, inl, inr, Bool, true, false, ◌&&◌, ◌||◌, Option, none,
  some, [], ◌∷◌, ◌++◌, Memᴰ, arith, ◌==◌, Bool-cases, Option-cases, eqb, if◌then◌else◌,
}
use aegis_forge.Prelude.Result.{Result-cases, ok}
use aegis_forge.Prelude.Table.{select, has_key, update, changes, IsKeyed}
use aegis_forge.Prelude.Table.Laws.{IsKeyed-update, IsKeyed-append, Mem-update}
use aegis_forge.Prelude.Table.Columns.{Mem-append, IsKeyed-update_column}
use aegis_forge.Recovery.Blank.{is_blank}
use aegis_forge.Recovery.Reviews.{
  RecoveryDecision, unknown, decision_eq, Review, Reviews, Verdict, is_positive, check_verdict,
  settled, is_open, str, str_or_empty, settle, get_review, get_by_attempt, insert_review,
  conflicting, as_row,
}

-- A text that is not blank, or the empty text that None is stored as.
abbrev pub IsNamed : Option String → Type 0
IsNamed o = (v : String) × (o ≡ some v) × ((is_blank v ≡ false) ⊎ (v ≡ ""))

-- A decision in favour of the attempt, or of a retry, names its verifier and the outcome.
abbrev pub IsBacked : Review → Type 0
IsBacked r = is_positive r.decision ≡ true → IsNamed r.verifier_id × IsNamed r.outcome_id

str-IsNamed : (o : Option String) → is_blank (str o) ≡ false → IsNamed (some (str_or_empty o))
unfolding str str_or_empty
str-IsNamed none h = ("", refl, inr refl)
str-IsNamed (some s) h = (s, refl, inl h)

pub record IsValid (t : Reviews) : Type 0 where
  pub keyed : IsKeyed Review.recovery_id t
  pub single : IsKeyed Review.attempt_id t
  pub backed : (r : Review) → Memᴰ r t → IsBacked r

pub IsValid-empty : IsValid []
IsValid-empty = record { keyed = tt; single = tt; backed = λ r m. elim m [ ] }

pub check_verdict-IsBacked :
    (d : RecoveryDecision) (v : Verdict) (r : Review)
    → check_verdict d v ≡ ok tt
    → IsBacked (settled d v r)
unfolding check_verdict is_positive decision_eq
check_verdict-IsBacked d v r h p =
    (str-IsNamed v.verifier_id (ground arith), str-IsNamed v.outcome_id (ground arith))

-- The rows after the UPDATE, from a verdict that passed its checks.
pub settled-IsValid :
    (i : String) (d : RecoveryDecision) (v : Verdict) (t : Reviews)
    → check_verdict d v ≡ ok tt
    → IsValid t
    → IsValid (update Review.recovery_id i is_open (settled d v) t)
settled-IsValid i d v t h w = record {
  keyed = IsKeyed-update Review.recovery_id i is_open (settled d v) (λ r. refl) t w.keyed;
  single =
      IsKeyed-update_column Review.recovery_id Review.attempt_id i is_open (settled d v) (λ r. refl)
        t w.single;
  backed = λ r' m.
      let (r, old, e) = Mem-update Review.recovery_id i is_open (settled d v) t r' m in
      subst IsBacked (sym e) (
        either (r.recovery_id == i && is_open r) r (w.backed r old)
          (check_verdict-IsBacked d v r h));
}
  where
    either :
        (b : Bool) (r : Review)
        → IsBacked r
        → IsBacked (settled d v r)
        → IsBacked (if b then settled d v r else r)
    either true r p q = q
    either false r p q = p

pub settle-IsValid :
    (i : String) (d : RecoveryDecision) (v : Verdict) (t : Reviews)
    → check_verdict d v ≡ ok tt
    → IsValid t
    → IsValid (settle i d v t).1
unfolding settle get_review
settle-IsValid i d v t h w = elim (Bool-cases (eqb (changes Review.recovery_id i is_open t) 1)) [
  | inl e ↦ rw e (settled-IsValid i d v t h w)
  | inr e ↦ rw e w
]

-- `conflicting` and `get_by_attempt` write nothing.
pub get_by_attempt-reads : (a : String) (t : Reviews) → (get_by_attempt a t).1 ≡ t
unfolding get_by_attempt get_review
get_by_attempt-reads a t = elim (Option-cases (select Review.attempt_id a t)) [
  | inl e ↦ rw e refl
  | inr (r, e) ↦ elim (Option-cases (select Review.recovery_id r.recovery_id t)) [
    | inl n ↦ rw e (rw n refl)
    | inr (q, m) ↦ rw e (rw m refl)
  ]
]

pub conflicting-reads : (o : Option Review) (t : Reviews) → (conflicting o t).1 ≡ t
unfolding conflicting
conflicting-reads none t = refl
conflicting-reads (some r) t = refl

-- The INSERT either adds the row or leaves the table as it was.
pub insert_review_cases :
    (r : Review) (t : Reviews)
    → ((insert_review r t).1 ≡ t)
      ⊎ ((has_key Review.recovery_id r.recovery_id t ≡ false)
          × (has_key Review.attempt_id r.attempt_id t ≡ false)
          × (insert_review r t ≡ (ok r, t ++ as_row r ∷ [])))
unfolding insert_review
insert_review_cases r t =
    elim (Bool-cases
      (has_key Review.recovery_id r.recovery_id t || has_key Review.attempt_id r.attempt_id t)) [
        | inr e ↦ inr (ground arith, ground arith, rw e refl)
        | inl e ↦ inl (
            rw e (elim (Result-cases (get_by_attempt r.attempt_id t).0) [
              | inl (o, h) ↦ rw h (conflicting-reads o _ ∙ get_by_attempt-reads r.attempt_id t)
              | inr (x, h) ↦ rw h (get_by_attempt-reads r.attempt_id t)
            ]))
      ]

pub insert_review-IsValid :
    (r : Review) (t : Reviews) → r.decision ≡ unknown → IsValid t → IsValid (insert_review r t).1
unfolding is_positive
insert_review-IsValid r t u w = elim (insert_review_cases r t) [
  | inl e ↦ rw e w
  | inr (k, s, e) ↦ rw e (record {
    keyed = IsKeyed-append Review.recovery_id t (as_row r) w.keyed k;
    single = IsKeyed-append Review.attempt_id t (as_row r) w.single s;
    backed = λ q m. elim (Mem-append t (as_row r) q m) [
      | inl old ↦ w.backed q old
      | inr x ↦ subst IsBacked (sym x) (λ p. absurd (ground arith))
    ];
  })
]
