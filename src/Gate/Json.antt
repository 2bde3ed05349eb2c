-- ===== src/Gate/Json.antt =====
-- JSON values as the contracts hold them, and Python's `==` on them: two objects are equal when they
-- hold equal values under the same keys, in whatever order. The keys of an object are distinct. A
-- number is its canonical text, the same for equal numbers; `True == 1` and `False == 0`.
use aegis_forge.Prelude.{
  ℕ, suc, String, ◌≡◌, refl, Bool, true, false, ◌&&◌, Option, none, some, List, [], ◌∷◌, eqb, ◌==◌,
  one_of, if◌then◌else◌,
}

mutual
  pub data Json : Type 0 where
    null : Json
    boolean : Bool → Json
    number : String → Json
    text : String → Json
    items : Items → Json
    object : Object → Json

  pub data Items : Type 0 where
    nil : Items
    cons : Json → Items → Items

  pub data Object : Type 0 where
    end : Object
    field : String → Json → Object → Object

-- `value.get(key)`
unfoldable pub lookup : String → Object → Option Json
lookup k end = none
lookup k (field j v o) = if j == k then some v else lookup k o

-- The keys, in their order: `set(value)`.
unfoldable pub keys : Object → List String
keys end = []
keys (field k v o) = k ∷ keys o

unfoldable pub size : Object → ℕ
size end = 0
size (field k v o) = suc (size o)

bit : Bool → String
bit true = "1"
bit false = "0"

same_bool : Bool → Bool → Bool
same_bool true b = b
same_bool false true = false
same_bool false false = true

or_null : Option Json → Json
or_null none = null
or_null (some v) = v

unfoldable mutual
  unfolding bit same_bool lookup size or_null keys

  pub json_eq : Json → Json → Bool
  json_eq null null = true
  json_eq (boolean a) (boolean b) = same_bool a b
  json_eq (boolean a) (number n) = bit a == n
  json_eq (number n) (boolean b) = n == bit b
  json_eq (number m) (number n) = m == n
  json_eq (text s) (text t) = s == t
  json_eq (items xs) (items ys) = items_eq xs ys
  json_eq (object o) (object p) = eqb (size o) (size p) && holds o p
  json_eq _ _ = false

  pub items_eq : Items → Items → Bool
  items_eq nil nil = true
  items_eq (cons x xs) (cons y ys) = json_eq x y && items_eq xs ys
  items_eq _ _ = false

  -- Every field of the first stands in the second.
  pub holds : Object → Object → Bool
  holds end p = true
  holds (field k v o) p = one_of k (keys p) && json_eq v (or_null (lookup k p)) && holds o p

unfoldable pub object_eq : Object → Object → Bool
object_eq o p = json_eq (object o) (object p)

reordered :
    object_eq
      (field "a" (boolean true) (field "b" null end))
      (field "b" null (field "a" (number "1") end))
    ≡ true
unfolding object_eq json_eq items_eq holds one_of
reordered = refl
