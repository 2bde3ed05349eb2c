-- ===== src/Prelude/Table/Split.antt =====
-- An update of one row, seen in a table that is split at that row.
use mathlib.Core.Path.{◌≡◌, refl}
use mathlib.Core.Bool.{Bool, true, false}
use mathlib.Core.List.{List, [], ◌∷◌, ◌++◌, Memᴰ}
use Prim.Native.String.{String}
use native.Mathlib.Omega.{arith}
use text.Mathlib.TextEquality.{eq_iff}
use text.Mathlib.TextPositions.{eq_refl}
use aegis_forge.Prelude.Table.{has_key, update, IsKeyed}
use aegis_forge.Prelude.Table.Laws.{has_key-Mem}

module _ {A : Type 0} (key : A → String) where
  pub update-absent :
      (k : String) (guard : A → Bool) (f : A → A) (t : List A)
      → has_key key k t ≡ false
      → update key k guard f t ≡ t
  unfolding has_key update
  update-absent k guard f [] h = refl
  update-absent k guard f (x ∷ t) h = ground (arith, update-absent k guard f t)

  pub update-split :
      (r : A) (guard : A → Bool) (f : A → A) (xs ys : List A)
      → IsKeyed key (xs ++ r ∷ ys)
      → guard r ≡ true
      → update key (key r) guard f (xs ++ r ∷ ys) ≡ xs ++ f r ∷ ys
  unfolding update
  update-split r guard f [] ys w g =
      ground (arith, eq_refl (key r), update-absent (key r) guard f ys w.0)
  update-split r guard f (x ∷ xs) ys w g = ground (
    arith,
    eq_iff (key x) (key r),
    has_key-Mem key (xs ++ r ∷ ys) r (middle xs),
    update-split r guard f xs ys w.1 g,
    w.0,
  )
    where
      middle : (zs : List A) → Memᴰ r (zs ++ r ∷ ys)
      middle [] = Memᴰ.head refl
      middle (z ∷ zs) = Memᴰ.tail (middle zs)
