-- ===== src/Recovery/Blank.antt =====
-- Python's `str.strip` and the test `not text.strip()`, over the code points of Unicode white space.
use Prim.Native.Char.{code}
use aegis_forge.Prelude.{
  ℕ, String, ◌≡◌, refl, Bool, true, ◌&&◌, ◌||◌, eqb, leb, if◌then◌else◌, is_empty,
}

is_space : ℕ → Bool
is_space c =
    (leb 9 c && leb c 13)
    || (leb 28 c && leb c 32)
    || eqb c 133
    || eqb c 160
    || eqb c 5760
    || (leb 8192 c && leb c 8202)
    || eqb c 8232
    || eqb c 8233
    || eqb c 8239
    || eqb c 8287
    || eqb c 12288

unfoldable pub is_blank : String → Bool
unfolding is_space
is_blank String.[] = true
is_blank (String.◌∷◌ c s) = is_space (code c) && is_blank s

-- `lstrip`
strip_left : String → String
strip_left String.[] = String.[]
strip_left (String.◌∷◌ c s) =
    let rest = strip_left s in if is_space (code c) then rest else String.◌∷◌ c s

-- `rstrip`
strip_right : String → String
strip_right String.[] = String.[]
strip_right (String.◌∷◌ c s) =
    let rest = strip_right s in
    if is_space (code c) && is_empty rest then String.[] else String.◌∷◌ c rest

unfoldable pub strip : String → String
unfolding strip_left strip_right is_space
strip s = strip_right (strip_left s)

stripped : strip " verifier-1 " ≡ "verifier-1"
unfolding strip
stripped = refl

blank : is_blank "  " ≡ true
unfolding is_blank
blank = refl
