-- ===== src/Prelude/Triple.antt =====
-- What an action guarantees: from a store that satisfies P, a result and its store satisfy Q, or an
-- error and its store satisfy R. The rules follow the shape of the code.
use mathlib.Core.Path.{◌≡◌, refl, subst}
use mathlib.Core.Bool.{Bool, true, false}
use aegis_forge.Prelude.Result.{
  Result, ok, err, Action, pure, raise_if, lift, map_err, ◌>>=◌, continue,
}

module _ {E S : Type 0} where
  abbrev pub Post : {A : Type 0} → (A → S → Type 0) → (E → S → Type 0) → Result E A × S → Type 0
  Post Q R (ok a, s) = Q a s
  Post Q R (err e, s) = R e s

  pub record Triple {A : Type 0} (P : S → Type 0) (m : Action E S A) (Q : A → S → Type 0)
      (R : E → S → Type 0) : Type 0 where
    pub holds : (s : S) → P s → Post Q R (m s)

  continue-Post :
      {A B : Type 0} (Q : A → S → Type 0) (T : B → S → Type 0) (R : E → S → Type 0) (r : Result E A)
      (s : S) (f : A → Action E S B)
      → Post Q R (r, s)
      → ((a : A) → Triple (Q a) (f a) T R)
      → Post T R (continue r f s)
  continue-Post Q T R (ok a) s f h k = Triple.holds (k a) s h
  continue-Post Q T R (err e) s f h k = h

  -- `x ← m; f x`
  pub bind :
      {A B : Type 0} {Q : A → S → Type 0} {T : B → S → Type 0} {R : E → S → Type 0} {P : S → Type 0}
      {m : Action E S A} {f : A → Action E S B}
      → Triple P m Q R
      → ((a : A) → Triple (Q a) (f a) T R)
      → Triple P (m >>= f) T R
  bind {Q = Q} {T = T} {R = R} {m = m} {f = f} h k = record {
    holds = λ s p. continue-Post Q T R (m s).0 (m s).1 f (Triple.holds h s p) k;
  }

  pub pure-Triple :
      {A : Type 0} {Q : A → S → Type 0} {R : E → S → Type 0} {a : A} → Triple (Q a) (pure a) Q R
  pure-Triple = record { holds = λ s p. p }

  lift-Post :
      {A : Type 0} (P : S → Type 0) (R : E → S → Type 0) (r : Result E A) (s : S)
      → ((e : E) (s : S) → P s → R e s)
      → P s
      → Post (λ a s. P s × (r ≡ ok a)) R (lift r s)
  lift-Post P R (ok a) s k p = (p, refl)
  lift-Post P R (err e) s k p = k e s p

  -- A computation that reads no store, and what its success tells.
  pub lift-Triple :
      {A : Type 0} {P : S → Type 0} {R : E → S → Type 0} (r : Result E A)
      → ((e : E) (s : S) → P s → R e s)
      → Triple P (lift r) (λ a s. P s × (r ≡ ok a)) R
  lift-Triple {P = P} {R = R} r k = record { holds = λ s p. lift-Post P R r s k p }

  raise_if-Post :
      (P : S → Type 0) (R : E → S → Type 0) (b : Bool) (e : E) (s : S)
      → ((e : E) (s : S) → P s → R e s)
      → P s
      → Post (λ u s. P s × (b ≡ false)) R (raise_if b e s)
  raise_if-Post P R true e s k p = k e s p
  raise_if-Post P R false e s k p = (p, refl)

  pub raise_if-Triple :
      {P : S → Type 0} {R : E → S → Type 0} (b : Bool) (e : E)
      → ((e : E) (s : S) → P s → R e s)
      → Triple P (raise_if b e) (λ u s. P s × (b ≡ false)) R
  raise_if-Triple {P = P} {R = R} b e k = record { holds = λ s p. raise_if-Post P R b e s k p }

  weaken-Post :
      {A : Type 0} (Q Q' : A → S → Type 0) (R R' : E → S → Type 0) (r : Result E A) (s : S)
      → ((a : A) (s : S) → Q a s → Q' a s)
      → ((e : E) (s : S) → R e s → R' e s)
      → Post Q R (r, s)
      → Post Q' R' (r, s)
  weaken-Post Q Q' R R' (ok a) s k l h = k a s h
  weaken-Post Q Q' R R' (err e) s k l h = l e s h

  -- The rule of consequence.
  pub weaken :
      {A : Type 0} {P P' : S → Type 0} {Q Q' : A → S → Type 0} {R R' : E → S → Type 0}
      {m : Action E S A}
      → ((s : S) → P' s → P s)
      → ((a : A) (s : S) → Q a s → Q' a s)
      → ((e : E) (s : S) → R e s → R' e s)
      → Triple P m Q R
      → Triple P' m Q' R'
  weaken {Q = Q} {Q' = Q'} {R = R} {R' = R'} {m = m} j k l h = record {
    holds = λ s p. weaken-Post Q Q' R R' (m s).0 (m s).1 k l (Triple.holds h s (j s p));
  }

  case_of :
      {A : Type 0} (Q : A → S → Type 0) (R : E → S → Type 0) (r : Result E A) (s : S)
      → ((a : A) → r ≡ ok a → Q a s)
      → ((e : E) → r ≡ err e → R e s)
      → Post Q R (r, s)
  case_of Q R (ok a) s k l = k a refl
  case_of Q R (err e) s k l = l e refl

  -- From what the action computes.
  pub cases_of :
      {A : Type 0} {P : S → Type 0} {Q : A → S → Type 0} {R : E → S → Type 0} (m : Action E S A)
      → ((s : S) → P s → (a : A) → (m s).0 ≡ ok a → Q a (m s).1)
      → ((s : S) → P s → (e : E) → (m s).0 ≡ err e → R e (m s).1)
      → Triple P m Q R
  cases_of {Q = Q} {R = R} m k l = record {
    holds = λ s p. case_of Q R (m s).0 (m s).1 (k s p) (l s p);
  }

-- What succeeds under another name of its errors has succeeded.
pub map_err-ok :
    {E F A : Type 0} (f : E → F) (r : Result E A) {a : A} → map_err f r ≡ ok a → r ≡ ok a
map_err-ok f (ok a) h = cc
map_err-ok f (err e) h = absurd (cc)

pub map_err-err :
    {E F A : Type 0} (f : E → F) (r : Result E A) {x : F}
    → map_err f r ≡ err x
    → (e : E) × (r ≡ err e) × (x ≡ f e)
map_err-err f (ok a) h = absurd (cc)
map_err-err f (err e) h = (e, refl, cc)

ok_Post :
    {E S A : Type 0} (Q : A → S → Type 0) (R : E → S → Type 0) (r : Result E A) (s : S) (a : A)
    → Post Q R (r, s)
    → r ≡ ok a
    → Q a s
ok_Post Q R (ok b) s a h e = subst (λ x. Q x s) (cc) h
ok_Post Q R (err x) s a h e = absurd (cc)

err_Post :
    {E S A : Type 0} (Q : A → S → Type 0) (R : E → S → Type 0) (r : Result E A) (s : S) (e : E)
    → Post Q R (r, s)
    → r ≡ err e
    → R e s
err_Post Q R (ok b) s a h e = absurd (cc)
err_Post Q R (err x) s a h e = subst (λ y. R y s) (cc) h

-- What a guarantee says of one result.
module _ {E S A : Type 0} {P : S → Type 0} {Q : A → S → Type 0} {R : E → S → Type 0}
    {m : Action E S A} where
  pub at_ok : Triple P m Q R → (s : S) → P s → (a : A) → (m s).0 ≡ ok a → Q a (m s).1
  at_ok h s p a e = ok_Post Q R (m s).0 (m s).1 a (Triple.holds h s p) e

  pub at_err : Triple P m Q R → (s : S) → P s → (e : E) → (m s).0 ≡ err e → R e (m s).1
  at_err h s p x e = err_Post Q R (m s).0 (m s).1 x (Triple.holds h s p) e

pub of_ok :
    {E S A : Type 0} (Q : A → S → Type 0) (R : E → S → Type 0) {x : Result E A × S}
    → Post Q R x
    → (a : A) → x.0 ≡ ok a
    → Q a x.1
of_ok Q R {x} h a e = ok_Post Q R x.0 x.1 a h e

pub of_err :
    {E S A : Type 0} (Q : A → S → Type 0) (R : E → S → Type 0) {x : Result E A × S}
    → Post Q R x
    → (e : E) → x.0 ≡ err e
    → R e x.1
of_err Q R {x} h y e = err_Post Q R x.0 x.1 y h e
