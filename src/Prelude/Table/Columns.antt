-- ===== src/Prelude/Table/Columns.antt =====
-- A second unique column of a table that is updated by its primary key.
use Prim.Native.String.{String}
use mathlib.Core.Path.{◌≡◌, refl}
use mathlib.Core.Logic.{◌⊎◌, inl, inr}
use mathlib.Core.Bool.{Bool}
use mathlib.Core.List.{List, [], ◌∷◌, ◌++◌, Memᴰ}
use native.Mathlib.Omega.{arith}
use aegis_forge.Prelude.Table.{has_key, update, IsKeyed}

module _ {A : Type 0} where
  pub Mem-append : (t : List A) (a r : A) → Memᴰ r (t ++ a ∷ []) → Memᴰ r t ⊎ (r ≡ a)
  Mem-append [] a r (Memᴰ.head e) = inr e
  Mem-append [] a r (Memᴰ.tail m) = elim m [ ]
  Mem-append (x ∷ t) a r (Memᴰ.head e) = inl (Memᴰ.head e)
  Mem-append (x ∷ t) a r (Memᴰ.tail m) = elim (Mem-append t a r m) [
    | inl old ↦ inl (Memᴰ.tail old)
    | inr e ↦ inr e
  ]

  module _ (key column : A → String) (k : String) (guard : A → Bool) (f : A → A)
      (keeps : (r : A) → column (f r) ≡ column r) where
    pub has_key-update_column :
        (j : String) (t : List A) → has_key column j (update key k guard f t) ≡ has_key column j t
    unfolding has_key update
    has_key-update_column j [] = refl
    has_key-update_column j (x ∷ t) = ground (arith, keeps x, has_key-update_column j t)

    pub IsKeyed-update_column :
        (t : List A) → IsKeyed column t → IsKeyed column (update key k guard f t)
    unfolding update
    IsKeyed-update_column [] w = tt
    IsKeyed-update_column (x ∷ t) w =
        (ground (arith, keeps x, has_key-update_column (column x) t), IsKeyed-update_column t w.1)
