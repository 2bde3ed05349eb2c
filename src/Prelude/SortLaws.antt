-- ===== src/Prelude/SortLaws.antt =====
-- Sorting a sorted list changes nothing.
use aegis_forge.Prelude.{
  String, ◌≡◌, refl, ap, ◌∙◌, inl, inr, true, false, List, [], ◌∷◌, arith, Bool-cases,
}
use aegis_forge.Prelude.Sort.{text_leb, place, sorted}

text_leb-total : (s t : String) → text_leb s t ≡ false → text_leb t s ≡ true
unfolding text_leb
text_leb-total String.[] t h = absurd (ground arith)
text_leb-total (String.◌∷◌ c s) String.[] h = refl
text_leb-total (String.◌∷◌ c s) (String.◌∷◌ d t) h = ground (arith, h, text_leb-total s t)

-- Each text is no later than its neighbour.
abbrev IsSorted : List String → Type 0
IsSorted [] = Unit
IsSorted (x ∷ []) = Unit
IsSorted (x ∷ y ∷ ys) = (text_leb x y ≡ true) × IsSorted (y ∷ ys)

-- A text placed behind one that is no later.
place-behind :
    (y s : String) (ys : List String)
    → text_leb y s ≡ true
    → IsSorted (y ∷ ys)
    → IsSorted (y ∷ place s ys)
unfolding place
place-behind y s [] h w = (h, tt)
place-behind y s (z ∷ zs) h w = elim (Bool-cases (text_leb s z)) [
  | inl e ↦ rw e (h, (e, w.1))
  | inr e ↦ rw e (w.0, place-behind z s zs (text_leb-total s z e) w.1)
]

place-IsSorted : (s : String) (ys : List String) → IsSorted ys → IsSorted (place s ys)
unfolding place
place-IsSorted s [] w = tt
place-IsSorted s (y ∷ ys) w = elim (Bool-cases (text_leb s y)) [
  | inl e ↦ rw e (e, w)
  | inr e ↦ rw e (place-behind y s ys (text_leb-total s y e) w)
]

sorted-IsSorted : (xs : List String) → IsSorted (sorted xs)
unfolding sorted
sorted-IsSorted [] = tt
sorted-IsSorted (x ∷ xs) = place-IsSorted x (sorted xs) (sorted-IsSorted xs)

IsSorted-tail : (x : String) (xs : List String) → IsSorted (x ∷ xs) → IsSorted xs
IsSorted-tail x [] w = tt
IsSorted-tail x (y ∷ ys) w = w.1

place-first : (x : String) (xs : List String) → IsSorted (x ∷ xs) → place x xs ≡ x ∷ xs
unfolding place
place-first x [] w = refl
place-first x (y ∷ ys) w = rw w.0

sorted-fixed : (xs : List String) → IsSorted xs → sorted xs ≡ xs
unfolding sorted
sorted-fixed [] w = refl
sorted-fixed (x ∷ xs) w = ap (place x) (sorted-fixed xs (IsSorted-tail x xs w)) ∙ place-first x xs w

pub sorted-sorted : (xs : List String) → sorted (sorted xs) ≡ sorted xs
sorted-sorted xs = sorted-fixed (sorted xs) (sorted-IsSorted xs)
