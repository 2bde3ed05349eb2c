-- ===== src/Prelude/Checks.antt =====
-- Computations that may raise and keep no store: a method's checks, in their order.
use mathlib.Core.Bool.{Bool, true, false}
use mathlib.Core.Option.{Option, none, some}
use mathlib.Core.Path.{◌≡◌, refl}
use aegis_forge.Prelude.Result.{Result, ok, err}

module _ {ℓ} {E A B : Type ℓ} where
  infixl 10 ◌>>=◌ ◌>>◌
  abbrev pub ◌>>=◌ : Result E A → (A → Result E B) → Result E B
  ok a >>= f = f a
  err e >>= f = err e

  abbrev pub ◌>>◌ : Result E A → Result E B → Result E B
  m >> n = m >>= λ _. n

module _ {E : Type 0} where
  -- `if test: raise e`
  abbrev pub raise_if : Bool → E → Result E (Unit {0})
  raise_if true e = err e
  raise_if false e = ok tt

  abbrev pub require : {A : Type 0} → Option A → E → Result E A
  require none e = err e
  require (some a) e = ok a

-- What succeeds has passed each of its checks.
pub >>=-ok {ℓ} :
    {E A B : Type ℓ} (m : Result E A) (f : A → Result E B) {b : B}
    → (m >>= f) ≡ ok b
    → (a : A) × (m ≡ ok a) × (f a ≡ ok b)
>>=-ok (ok a) f h = (a, refl, h)
>>=-ok (err e) f h = absurd (cc)

pub raise_if-ok : {E : Type 0} (b : Bool) (e : E) {u : Unit {0}} → raise_if b e ≡ ok u → b ≡ false
raise_if-ok true e h = absurd (cc)
raise_if-ok false e h = refl

pub require-ok : {E A : Type 0} (o : Option A) (e : E) {a : A} → require o e ≡ ok a → o ≡ some a
require-ok none e h = absurd (cc)
require-ok (some a) e h = cc
