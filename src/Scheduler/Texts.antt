-- ===== src/Scheduler/Texts.antt =====
-- Sets of texts as lists, and the lists of the search.
use aegis_forge.Prelude.{
  String, ◌≡◌, refl, false, List, [], ◌∷◌, ◌++◌, ◌||◌, arith, ◌==◌, eq_iff, eq_refl, one_of,
}
use aegis_forge.Scheduler.Graph.{remove, has_duplicates}

pub one_of-append :
    (x : String) (xs : List String) (y : String) → one_of x (xs ++ y ∷ []) ≡ (one_of x xs || x == y)
unfolding one_of
one_of-append x [] y = ground arith
one_of-append x (z ∷ xs) y = ground (arith, one_of-append x xs y)

pub has_duplicates-append :
    (xs : List String) (y : String)
    → has_duplicates xs ≡ false
    → one_of y xs ≡ false
    → has_duplicates (xs ++ y ∷ []) ≡ false
unfolding has_duplicates one_of
has_duplicates-append [] y d n = refl
has_duplicates-append (x ∷ xs) y d n =
    ground (arith, one_of-append x xs y, eq_iff x y, eq_iff y x, has_duplicates-append xs y)

pub remove-absent : (x : String) (xs : List String) → one_of x xs ≡ false → remove x xs ≡ xs
unfolding remove one_of
remove-absent x [] n = refl
remove-absent x (y ∷ xs) n = ground (arith, eq_iff x y, eq_iff y x, remove-absent x xs)

pub remove-head : (x : String) (xs : List String) → one_of x xs ≡ false → remove x (x ∷ xs) ≡ xs
unfolding remove
remove-head x xs n = ground (arith, eq_refl x, remove-absent x xs n)
