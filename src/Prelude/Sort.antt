-- ===== src/Prelude/Sort.antt =====
-- Python's `sorted` on texts, which compares them by code points.
use Prim.Native.Char.{code}
use Prim.Native.String.{String}
use mathlib.Core.Bool.{Bool, true, false}
use mathlib.Core.List.{List, [], ◌∷◌}
use mathlib.Core.Path.{◌≡◌, refl}
use aegis_forge.Prelude.Tests.{ltb, eqb, if◌then◌else◌}

-- `s <= t`
unfoldable pub text_leb : String → String → Bool
text_leb String.[] t = true
text_leb (String.◌∷◌ c s) String.[] = false
text_leb (String.◌∷◌ c s) (String.◌∷◌ d t) =
    let rest = text_leb s t in
    if ltb (code c) (code d) then true else if eqb (code c) (code d) then rest else false

unfoldable pub place : String → List String → List String
place s [] = s ∷ []
place s (t ∷ ts) = let rest = place s ts in if text_leb s t then s ∷ t ∷ ts else t ∷ rest

unfoldable pub sorted : List String → List String
unfolding place
sorted [] = []
sorted (s ∷ ss) = place s (sorted ss)

sorted_texts : sorted ("pear" ∷ "apple" ∷ "app" ∷ []) ≡ "app" ∷ "apple" ∷ "pear" ∷ []
unfolding sorted text_leb
sorted_texts = refl
