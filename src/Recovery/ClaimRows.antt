-- ===== src/Recovery/ClaimRows.antt =====
-- What each write of the operations table keeps.
use aegis_forge.Prelude.{
  ℕ, ◌≤◌, String, ◌≡◌, refl, ap, ◌∙◌, sym, subst, ◌⊎◌, inl, inr, Bool, true, false, ◌&&◌, Option,
  none, some, [], ◌∷◌, ◌++◌, arith, ◌==◌, eq_iff, Bool-cases, Option-cases, eqb, if◌then◌else◌,
}
use aegis_forge.Prelude.Result.{Result-cases}
use aegis_forge.Prelude.Table.{select, update, changes, IsKeyed}
use aegis_forge.Prelude.Table.Laws.{
  select-update, select-append, has_key-select, IsKeyed-append, IsKeyed-update,
}
use aegis_forge.Prelude.Table.Columns.{IsKeyed-update_column}
use aegis_forge.Recovery.Reviews.{Review, safe_to_retry, decision_eq}
use aegis_forge.Recovery.Claims.{
  OperationState, claimed, authorized, created, operation_eq, operation_eq_iff, of_text, Operation,
  Operations, new_operation, is_stale, renewed, is_lapsed_claim, clashes, acquire, claim_retry,
}
use aegis_forge.Recovery.Updates.{
  Progress, update_retry_operation, move_to, progress_to, stand, check_claim, leads, advance,
  advanced, is_at, blank_or_none,
}

-- The three unique columns.
pub record IsValid (t : Operations) : Type 0 where
  pub keyed : IsKeyed Operation.recovery_id t
  pub single : IsKeyed Operation.attempt_id t
  pub named : IsKeyed Operation.operation_key t

-- How far a state is.
abbrev pub stage : OperationState → ℕ
stage claimed = 0
stage authorized = 1
stage created = 2

-- How an operation may look later on.
pub record Lasts (o o' : Operation) : Type 0 where
  pub id : o'.recovery_id ≡ o.recovery_id
  pub attempt : o'.attempt_id ≡ o.attempt_id
  pub key : o'.operation_key ≡ o.operation_key
  pub grant : o'.retry_grant_id ≡ o.retry_grant_id
  pub forward : stage o.state ≤ stage o'.state
  pub final : o.state ≡ created → o' ≡ o

Lasts-refl : (o : Operation) → Lasts o o
Lasts-refl o = record {
  id = refl;
  attempt = refl;
  key = refl;
  grant = refl;
  forward = omega arith;
  final = λ h. refl;
}

Lasts-trans : (a b c : Operation) → Lasts a b → Lasts b c → Lasts a c
Lasts-trans a b c p q = record {
  id = q.id ∙ p.id;
  attempt = q.attempt ∙ p.attempt;
  key = q.key ∙ p.key;
  grant = q.grant ∙ p.grant;
  forward = let f = p.forward in let g = q.forward in omega arith;
  final = λ h. let e = p.final h in q.final (ap (λ x. x.state) e ∙ h) ∙ e;
}

-- From `t` to `u` the columns stay unique, and each operation lasts.
pub record Keeps (t u : Operations) : Type 0 where
  pub valid : IsValid t → IsValid u
  pub rows :
      (i : String) (o : Operation)
      → select Operation.recovery_id i t ≡ some o
      → (o' : Operation) × (select Operation.recovery_id i u ≡ some o') × Lasts o o'

pub Keeps-refl : (t : Operations) → Keeps t t
Keeps-refl t = record { valid = λ w. w; rows = λ i o e. (o, e, Lasts-refl o) }

pub Keeps-trans : {t u w : Operations} → Keeps t u → Keeps u w → Keeps t w
Keeps-trans p q = record {
  valid = λ v. q.valid (p.valid v);
  rows = λ i o e.
      let (o', e', l) = p.rows i o e in
      let (o'', e'', l') = q.rows i o' e' in (o'', e'', Lasts-trans o o' o'' l l');
}

-- An UPDATE by the primary key that keeps the names of the rows it changes, and lets them last.
module _ (k : String) (guard : Operation → Bool) (f : Operation → Operation)
    (id : (o : Operation) → (f o).recovery_id ≡ o.recovery_id)
    (attempt : (o : Operation) → (f o).attempt_id ≡ o.attempt_id)
    (key : (o : Operation) → (f o).operation_key ≡ o.operation_key)
    (lasts : (o : Operation) → guard o ≡ true → Lasts o (f o)) where
  changed-Lasts : (b c : Bool) (o : Operation) → guard o ≡ c → Lasts o (if b && c then f o else o)
  changed-Lasts true true o h = lasts o h
  changed-Lasts true false o h = Lasts-refl o
  changed-Lasts false c o h = Lasts-refl o

  update-Keeps : (t : Operations) → Keeps t (update Operation.recovery_id k guard f t)
  update-Keeps t = record {
    valid = λ w. record {
      keyed = IsKeyed-update Operation.recovery_id k guard f id t w.keyed;
      single =
          IsKeyed-update_column Operation.recovery_id Operation.attempt_id k guard f attempt t
            w.single;
      named =
          IsKeyed-update_column Operation.recovery_id Operation.operation_key k guard f key t
            w.named;
    };
    rows = λ i o e. (
      if i == k && guard o then f o else o,
      select-update Operation.recovery_id k guard f id i t o e,
      changed-Lasts (i == k) (guard o) o refl,
    );
  }

append-Keeps : (x : Operation) (t : Operations) → clashes x t ≡ false → Keeps t (t ++ x ∷ [])
append-Keeps x t c = record {
  valid = λ w. record {
    keyed = IsKeyed-append Operation.recovery_id t x w.keyed (ground arith);
    single = IsKeyed-append Operation.attempt_id t x w.single (ground arith);
    named = IsKeyed-append Operation.operation_key t x w.named (ground arith);
  };
  rows = λ i o e. (
    o,
    select-append Operation.recovery_id i t x (ground arith)
        ∙ ground
            (arith, e, c, eq_iff x.recovery_id i, has_key-select Operation.recovery_id i t o e),
    Lasts-refl o,
  );
}

renewed-Keeps :
    (i : String) (seen : Option ℕ) (now : ℕ) (token : String) (t : Operations)
    → Keeps t (update Operation.recovery_id i (is_lapsed_claim seen) (renewed now token) t)
renewed-Keeps i seen now token t =
    update-Keeps i (is_lapsed_claim seen) (renewed now token) (λ o. refl) (λ o. refl) (λ o. refl)
      (λ o g. record {
        id = refl;
        attempt = refl;
        key = refl;
        grant = refl;
        forward = omega arith;
        final = λ h. absurd (ground (arith, operation_eq_iff o.state claimed));
      })
      t

pub acquire-Keeps :
    (r : Review) (now : ℕ) (token : String) (q : Option Operation) (t : Operations)
    → Keeps t (acquire r now token q t).1
unfolding acquire
acquire-Keeps r now token none t = elim (Bool-cases (clashes (new_operation r now token) t)) [
  | inl c ↦ rw c (Keeps-refl t)
  | inr c ↦ rw c (append-Keeps (new_operation r now token) t c)
]
acquire-Keeps r now token (some o) t =
    elim (Bool-cases (operation_eq o.state claimed && is_stale now o.lease_expires_at)) [
      | inl c ↦ rw c (renewed-Keeps r.recovery_id o.lease_expires_at now token t)
      | inr c ↦ rw c (Keeps-refl t)
    ]

-- `claim_retry` writes what its transaction writes, or nothing.
pub claim_retry_cases :
    (r : Review) (now : ℕ) (token : String) (t : Operations)
    → ((claim_retry r now token t).1 ≡ t)
      ⊎ ((claim_retry r now token t).1
          ≡ (acquire r now token (select Operation.recovery_id r.recovery_id t) t).1)
unfolding claim_retry
claim_retry_cases r now token t = elim (Bool-cases (decision_eq r.decision safe_to_retry)) [
  | inr s ↦ inl (rw s refl)
  | inl s ↦
      elim (Result-cases (acquire r now token (select Operation.recovery_id r.recovery_id t) t).0) [
        | inr (x, h) ↦ inr (rw s (rw h refl))
        | inl (b, h) ↦
            elim (Option-cases (
              select Operation.recovery_id r.recovery_id
                (acquire r now token (select Operation.recovery_id r.recovery_id t) t).1)) [
                  | inl n ↦ inr (rw s (rw h (rw n refl)))
                  | inr (o, n) ↦ inr (rw s (rw h (rw n refl)))
                ]
      ]
]

advanced-Lasts :
    (from into : OperationState) (p : Progress) (o : Operation)
    → leads from into ≡ true
    → operation_eq o.state from ≡ true
    → Lasts o (advanced into p o)
unfolding advanced leads operation_eq
advanced-Lasts from into p o l g = record {
  id = refl;
  attempt = refl;
  key = refl;
  grant = refl;
  forward = ground arith;
  final = λ h. absurd (ground arith);
}

advanced_names :
    (into : OperationState) (p : Progress) (o : Operation)
    → ((advanced into p o).recovery_id ≡ o.recovery_id)
      × ((advanced into p o).attempt_id ≡ o.attempt_id)
      × ((advanced into p o).operation_key ≡ o.operation_key)
unfolding advanced
advanced_names into p o = (refl, refl, refl)

stand-reads :
    (s : OperationState) (p : Progress) (o : Operation) (t : Operations) → (stand s p o t).1 ≡ t
unfolding stand
stand-reads s p o t = ground arith

pub advance-Keeps :
    (i : String) (from into : OperationState) (p : Progress) (t : Operations)
    → leads from into ≡ true
    → Keeps t (advance i from into p t).1
unfolding advance
advance-Keeps i from into p t l =
    elim (Bool-cases (eqb (changes Operation.recovery_id i (is_at from) t) 1)) [
      | inr e ↦ rw e (Keeps-refl t)
      | inl e ↦ rw e (
          update-Keeps i (is_at from) (advanced into p) (λ o. (advanced_names into p o).0)
            (λ o. (advanced_names into p o).1) (λ o. (advanced_names into p o).2)
            (λ o. advanced-Lasts from into p o l) t)
    ]

-- `update_retry_operation` writes what one UPDATE along the table of transitions writes, or nothing.
progress_to_cases :
    (i : String) (s : OperationState) (p : Progress) (o : Operation) (t : Operations)
    → ((progress_to i s p o t).1 ≡ t)
      ⊎ ((leads o.state s ≡ true) × ((progress_to i s p o t).1 ≡ (advance i o.state s p t).1))
unfolding progress_to
progress_to_cases i s p o t = elim (Bool-cases (leads o.state s)) [
  | inr l ↦ inl (rw l refl)
  | inl l ↦ elim (Bool-cases (operation_eq s created && blank_or_none p.retry_attempt_id)) [
    | inl b ↦ inl (rw l (rw b refl))
    | inr b ↦ elim (Result-cases (check_claim p o)) [
      | inr (x, h) ↦ inl (rw l (rw b (rw h refl)))
      | inl (x, h) ↦ inr (l, rw l (rw b (rw h refl)))
    ]
  ]
]

move_to-Keeps :
    (s : Option OperationState) (i : String) (p : Progress) (o : Operation) (t : Operations)
    → Keeps t (move_to s i p o t).1
unfolding move_to
move_to-Keeps none i p o t = Keeps-refl t
move_to-Keeps (some s) i p o t = elim (Bool-cases (operation_eq s o.state)) [
  | inl e ↦ rw e (subst (Keeps t) (sym (stand-reads s p o t)) (Keeps-refl t))
  | inr e ↦ rw e (elim (progress_to_cases i s p o t) [
    | inl h ↦ rw h (Keeps-refl t)
    | inr (l, h) ↦ rw h (advance-Keeps i o.state s p t l)
  ])
]

pub update_retry_operation-Keeps :
    (i state : String) (p : Progress) (t : Operations)
    → Keeps t (update_retry_operation i state p t).1
unfolding update_retry_operation
update_retry_operation-Keeps i state p t = elim (Option-cases (select Operation.recovery_id i t)) [
  | inl n ↦ rw n (Keeps-refl t)
  | inr (o, n) ↦ rw n (move_to-Keeps (of_text state) i p o t)
]
