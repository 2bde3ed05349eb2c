-- ===== src/Prelude/Table/Laws.antt =====
-- The laws of keyed tables that the stores' proofs rest on.
use mathlib.Core.Path.{◌≡◌, refl}
use mathlib.Core.Bool.{Bool, true, false, ◌&&◌}
use mathlib.Core.Option.{none, some}
use mathlib.Core.Logic.{inl, inr}
use mathlib.Core.List.{List, [], ◌∷◌, ◌++◌, Memᴰ}
use Prim.Native.String.{String}
use native.Mathlib.Omega.{arith}
use text.Mathlib.Text.{◌==◌}
use text.Mathlib.TextEquality.{eq_iff}
use text.Mathlib.TextPositions.{eq_refl}
use aegis_forge.Prelude.Tests.{if◌then◌else◌, Bool-cases}
use aegis_forge.Prelude.Table.{select, has_key, update, changes, IsKeyed}

module _ {A : Type 0} (key : A → String) where
  -- A row that a SELECT returns has the key, and stands in the table.
  pub select-key : (k : String) (t : List A) (r : A) → select key k t ≡ some r → key r ≡ k
  unfolding select
  select-key k [] r h = cc
  select-key k (x ∷ t) r h = ground (arith, eq_iff (key x) k, select-key k t r)

  pub has_key-select :
      (k : String) (t : List A) (r : A) → select key k t ≡ some r → has_key key k t ≡ true
  unfolding select has_key
  has_key-select k [] r h = cc
  has_key-select k (x ∷ t) r h = ground (arith, has_key-select k t r)

  pub select-none : (k : String) (t : List A) → has_key key k t ≡ false → select key k t ≡ none
  unfolding select has_key
  select-none k [] h = refl
  select-none k (x ∷ t) h = ground (arith, select-none k t)

  pub has_key-none : (k : String) (t : List A) → select key k t ≡ none → has_key key k t ≡ false
  unfolding select has_key
  has_key-none k [] h = refl
  has_key-none k (x ∷ t) h = ground (arith, has_key-none k t)

  pub Mem-select : (k : String) (t : List A) (r : A) → select key k t ≡ some r → Memᴰ r t
  unfolding select
  Mem-select k [] r h = cc
  Mem-select k (x ∷ t) r h = elim (Bool-cases (key x == k)) [
    | inl e ↦ Memᴰ.head (ground arith)
    | inr e ↦ Memᴰ.tail (Mem-select k t r (ground arith))
  ]

  pub has_key-Mem : (t : List A) (r : A) → Memᴰ r t → has_key key (key r) t ≡ true
  unfolding has_key
  has_key-Mem [] r m = elim m [ ]
  has_key-Mem (x ∷ t) r (Memᴰ.head e) = ground (arith, eq_refl (key x))
  has_key-Mem (x ∷ t) r (Memᴰ.tail m) = ground (arith, has_key-Mem t r m)

  -- Under the primary key, each row of the table is found by its own key.
  pub select-Mem : (t : List A) (r : A) → IsKeyed key t → Memᴰ r t → select key (key r) t ≡ some r
  unfolding select
  select-Mem [] r w m = elim m [ ]
  select-Mem (x ∷ t) r w (Memᴰ.head e) = ground (arith, eq_refl (key x))
  select-Mem (x ∷ t) r w (Memᴰ.tail m) =
      ground (arith, eq_iff (key x) (key r), has_key-Mem t r m, select-Mem t r w.1 m)

  -- A row appended to the table.
  pub select-append :
      (k : String) (t : List A) (a : A)
      → has_key key (key a) t ≡ false
      → select key k (t ++ a ∷ []) ≡ (if key a == k then some a else select key k t)
  unfolding select has_key
  select-append k [] a h = refl
  select-append k (x ∷ t) a h =
      ground
        (arith, eq_iff (key x) k, eq_iff (key a) k, eq_iff (key x) (key a), select-append k t a)

  pub has_key-append :
      (k : String) (t : List A) (a : A)
      → has_key key k (t ++ a ∷ []) ≡ (if key a == k then true else has_key key k t)
  unfolding has_key
  has_key-append k [] a = refl
  has_key-append k (x ∷ t) a = ground (arith, has_key-append k t a)

  pub IsKeyed-append :
      (t : List A) (a : A)
      → IsKeyed key t
      → has_key key (key a) t ≡ false
      → IsKeyed key (t ++ a ∷ [])
  unfolding has_key
  IsKeyed-append [] a w h = (refl, tt)
  IsKeyed-append (x ∷ t) a w h = (
    ground (arith, has_key-append (key x) t a, eq_iff (key x) (key a), eq_iff (key a) (key x)),
    IsKeyed-append t a w.1 (ground arith),
  )

  -- A guarded update that keeps the keys.
  module _ (k : String) (guard : A → Bool) (f : A → A) (keeps : (r : A) → key (f r) ≡ key r) where
    pub select-update :
        (j : String) (t : List A) (r : A)
        → select key j t ≡ some r
        → select key j (update key k guard f t) ≡ some (if j == k && guard r then f r else r)
    unfolding select update
    select-update j [] r h = cc
    select-update j (x ∷ t) r h =
        ground (arith, eq_iff (key x) j, eq_iff (key x) k, keeps x, select-update j t r)

    pub has_key-update :
        (j : String) (t : List A) → has_key key j (update key k guard f t) ≡ has_key key j t
    unfolding has_key update
    has_key-update j [] = refl
    has_key-update j (x ∷ t) = ground (arith, keeps x, has_key-update j t)

    pub IsKeyed-update : (t : List A) → IsKeyed key t → IsKeyed key (update key k guard f t)
    unfolding update
    IsKeyed-update [] w = tt
    IsKeyed-update (x ∷ t) w =
        (ground (arith, keeps x, has_key-update (key x) t), IsKeyed-update t w.1)

  -- The number of rows that a guarded update changes.
  pub changes-none :
      (k : String) (guard : A → Bool) (t : List A)
      → has_key key k t ≡ false
      → changes key k guard t ≡ 0
  unfolding has_key changes
  changes-none k guard [] h = refl
  changes-none k guard (x ∷ t) h = ground (arith, changes-none k guard t)

  pub changes-select :
      (k : String) (guard : A → Bool) (t : List A) (r : A)
      → IsKeyed key t
      → select key k t ≡ some r
      → changes key k guard t ≡ (if guard r then 1 else 0)
  unfolding select changes
  changes-select k guard [] r w h = cc
  changes-select k guard (x ∷ t) r w h =
      ground (arith, eq_iff (key x) k, changes-none k guard t, changes-select k guard t r w.1)

  -- A row of an updated table comes from a row of the table.
  pub Mem-update :
      (k : String) (guard : A → Bool) (f : A → A) (t : List A) (r' : A)
      → Memᴰ r' (update key k guard f t)
      → (r : A) × Memᴰ r t × (r' ≡ (if key r == k && guard r then f r else r))
  unfolding update
  Mem-update k guard f [] r' m = elim m [ ]
  Mem-update k guard f (x ∷ t) r' (Memᴰ.head e) = (x, Memᴰ.head refl, e)
  Mem-update k guard f (x ∷ t) r' (Memᴰ.tail m) =
      let (r, old, e) = Mem-update k guard f t r' m in (r, Memᴰ.tail old, e)
