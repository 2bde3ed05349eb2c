-- ===== src/Prelude/Table.antt =====
-- A database table with a text primary key, as the list of its rows in the order of insertion, and
-- the three statements that the stores issue: SELECT by key, UPDATE by key with a guard (and the
-- number of rows changed), INSERT.
pub mod Columns
pub mod Laws
pub mod Split
use Prim.Native.Nat.{ℕ, zero, suc}
use Prim.Native.String.{String}
use mathlib.Core.Path.{◌≡◌}
use mathlib.Core.Bool.{Bool, true, false, ◌&&◌}
use mathlib.Core.Option.{Option, none, some}
use mathlib.Core.List.{List, [], ◌∷◌}
use text.Mathlib.Text.{◌==◌}
use aegis_forge.Prelude.Tests.{if◌then◌else◌}

module _ {A : Type 0} where
  -- SELECT ... WHERE key = k
  unfoldable pub select : (A → String) → String → List A → Option A
  select key k [] = none
  select key k (r ∷ t) = if key r == k then some r else select key k t

  unfoldable pub has_key : (A → String) → String → List A → Bool
  has_key key k [] = false
  has_key key k (r ∷ t) = if key r == k then true else has_key key k t

  -- UPDATE ... SET f WHERE key = k AND guard
  unfoldable pub update : (A → String) → String → (A → Bool) → (A → A) → List A → List A
  update key k guard f [] = []
  update key k guard f (r ∷ t) = (if key r == k && guard r then f r else r) ∷ update key k guard f t

  -- SELECT changes() after that update
  unfoldable pub changes : (A → String) → String → (A → Bool) → List A → ℕ
  changes key k guard [] = 0
  changes key k guard (r ∷ t) =
      let rest = changes key k guard t in if key r == k && guard r then suc rest else rest

  -- The primary key holds.
  abbrev pub IsKeyed : (A → String) → List A → Type 0
  IsKeyed key [] = Unit
  IsKeyed key (r ∷ t) = (has_key key (key r) t ≡ false) × IsKeyed key t
