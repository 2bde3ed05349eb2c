-- ===== src/Attempt/Stale.antt =====
-- `find_stale_running`: which attempts it reports, and in which order.
use mathlib.Core.List.{Perm}
use mathlib.Core.List.Perm
use aegis_forge.Prelude.{
  ℕ, zero, suc, ◌≤◌, ◌≡◌, refl, inl, inr, true, false, some, List, [], ◌∷◌, Memᴰ, arith, Bool-cases,
  ltb, if◌then◌else◌,
}
use aegis_forge.Prelude.Result.{ok}
use aegis_forge.Prelude.Table.{select, IsKeyed}
use aegis_forge.Prelude.Table.Laws.{select-Mem}
use aegis_forge.Attempt.Defs.{Attempt, Attempts, get}
use aegis_forge.Attempt.Leases.{
  is_stale, lease_end, sorts_before, place, stale_sorted, take, get_each, find_stale_running,
}

-- Each attempt's lease ends no later than those behind it.
abbrev pub Before : Attempt → List Attempt → Type 0
Before r [] = Unit {0}
Before r (s ∷ l) = (lease_end r ≤ lease_end s) × Before r l

abbrev pub IsSorted : List Attempt → Type 0
IsSorted [] = Unit {0}
IsSorted (r ∷ l) = Before r l × IsSorted l

Before-le : (r s : Attempt) (l : List Attempt) → lease_end r ≤ lease_end s → Before s l → Before r l
Before-le r s [] h b = tt
Before-le r s (x ∷ l) h b = (omega arith, Before-le r s l h b.1)

sorts_before-le :
    (r s : Attempt)
    → ((sorts_before r s ≡ true → lease_end r ≤ lease_end s)
        × (sorts_before r s ≡ false → lease_end s ≤ lease_end r))
unfolding sorts_before
sorts_before-le r s = ground arith

Before-place :
    (x r : Attempt) (l : List Attempt)
    → lease_end x ≤ lease_end r
    → Before x l
    → Before x (place r l)
unfolding place
Before-place x r [] h b = (h, tt)
Before-place x r (s ∷ l) h b = elim (Bool-cases (sorts_before s r)) [
  | inl e ↦ rw e (b.0, Before-place x r l h b.1)
  | inr e ↦ rw e (h, b)
]

IsSorted-place : (r : Attempt) (l : List Attempt) → IsSorted l → IsSorted (place r l)
unfolding place
IsSorted-place r [] w = (tt, tt)
IsSorted-place r (s ∷ l) w = elim (Bool-cases (sorts_before s r)) [
  | inl e ↦ rw e (Before-place s r l ((sorts_before-le s r).0 e) w.0, IsSorted-place r l w.1)
  | inr e ↦ let le = (sorts_before-le s r).1 e in rw e ((le, Before-le r s l le w.0), w)
]

IsSorted-stale_sorted : (now : ℕ) (t : Attempts) → IsSorted (stale_sorted now t)
unfolding stale_sorted
IsSorted-stale_sorted now [] = tt
IsSorted-stale_sorted now (r ∷ t) = elim (Bool-cases (is_stale now r)) [
  | inl e ↦ rw e (IsSorted-place r (stale_sorted now t) (IsSorted-stale_sorted now t))
  | inr e ↦ rw e (IsSorted-stale_sorted now t)
]

place-perm : (r : Attempt) (l : List Attempt) → Perm (place r l) (r ∷ l)
unfolding place
place-perm r [] = Perm.refl (r ∷ [])
place-perm r (s ∷ l) = elim (Bool-cases (sorts_before s r)) [
  | inl e ↦ rw e (Perm.trans (Perm.cons s (place-perm r l)) (Perm.swap r s l))
  | inr e ↦ rw e (Perm.refl (r ∷ s ∷ l))
]

-- The rows of the SELECT, in the order of the table.
abbrev pub stale_rows : ℕ → Attempts → List Attempt
stale_rows now [] = []
stale_rows now (r ∷ t) = let rest = stale_rows now t in if is_stale now r then r ∷ rest else rest

stale_sorted-perm : (now : ℕ) (t : Attempts) → Perm (stale_sorted now t) (stale_rows now t)
unfolding stale_sorted
stale_sorted-perm now [] = Perm.refl []
stale_sorted-perm now (r ∷ t) = elim (Bool-cases (is_stale now r)) [
  | inl e ↦
      rw e (Perm.trans (place-perm r (stale_sorted now t)) (Perm.cons r (stale_sorted-perm now t)))
  | inr e ↦ rw e (stale_sorted-perm now t)
]

-- Each row of `l` is found in the table by its id.
abbrev Found : Attempts → List Attempt → Type 0
Found u [] = Unit {0}
Found u (r ∷ l) = (select Attempt.attempt_id r.attempt_id u ≡ some r) × Found u l

module _ (u : Attempts) where
  Found-place :
      (r : Attempt) (l : List Attempt)
      → select Attempt.attempt_id r.attempt_id u ≡ some r
      → Found u l
      → Found u (place r l)
  unfolding place
  Found-place r [] h f = (h, tt)
  Found-place r (s ∷ l) h f = elim (Bool-cases (sorts_before s r)) [
    | inl e ↦ rw e (f.0, Found-place r l h f.1)
    | inr e ↦ rw e (h, f)
  ]

  Found-take : (n : ℕ) (l : List Attempt) → Found u l → Found u (take n l)
  unfolding take
  Found-take zero l f = tt
  Found-take (suc n) [] f = tt
  Found-take (suc n) (r ∷ l) f = (f.0, Found-take n l f.1)

  get_each-Found : (l : List Attempt) → Found u l → get_each l u ≡ (ok l, u)
  unfolding get_each get
  get_each-Found [] f = refl
  get_each-Found (r ∷ l) f = rw f.0 (rw (get_each-Found l f.1))

  Found-stale_sorted :
      (now : ℕ) (t : Attempts)
      → IsKeyed Attempt.attempt_id u
      → ((r : Attempt) → Memᴰ r t → Memᴰ r u)
      → Found u (stale_sorted now t)
  unfolding stale_sorted
  Found-stale_sorted now [] w sub = tt
  Found-stale_sorted now (r ∷ t) w sub =
      let ih = Found-stale_sorted now t w (λ x m. sub x (Memᴰ.tail m)) in
      elim (Bool-cases (is_stale now r)) [
        | inl e ↦ rw e (
            Found-place r (stale_sorted now t)
              (select-Mem Attempt.attempt_id u r w (sub r (Memᴰ.head refl))) ih)
        | inr e ↦ rw e ih
      ]

-- With a positive limit `find_stale_running` returns, and writes nothing: its answer is the first
-- `limit` of all running attempts whose lease is up and that have no receipt, none missing and none
-- twice, those whose lease ended first in front.
pub find_stale_running_lem :
    (now limit : ℕ) (t : Attempts)
    → IsKeyed Attempt.attempt_id t
    → 1 ≤ limit
    → (all : List Attempt) × (find_stale_running now limit t ≡ (ok (take limit all), t))
      × Perm all (stale_rows now t)
      × IsSorted all
unfolding find_stale_running
find_stale_running_lem now limit t w h = (
  stale_sorted now t,
  rw (positive limit h) (
      get_each-Found t (take limit (stale_sorted now t))
        (Found-take t limit (stale_sorted now t) (Found-stale_sorted t now t w (λ r m. m)))),
  stale_sorted-perm now t,
  IsSorted-stale_sorted now t,
)
  where
    positive : (n : ℕ) → 1 ≤ n → ltb n 1 ≡ false
    positive n p = ground arith
