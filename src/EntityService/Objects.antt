-- ===== src/EntityService/Objects.antt =====
-- Python objects as trees of attributes, and the changes that `_form_updated_entity` makes to them. No
-- two places of a tree share an object.
use container_service_extens.Common.{
  String, ◌==◌, Option, none, some, List, [], ◌∷◌, if◌then◌else◌, Result, ok, err, ◌>>=◌,
}
use container_service_extens.Common.Text.{split}
use container_service_extens.ClusterSpec.Tree.{Value}

mutual
  pub data Object : Type 0 where
    leaf : Value → Object
    node : Attributes → Object

  pub data Attributes : Type 0 where
    bare : Attributes
    attribute : String → Object → Attributes → Attributes

-- An exception of Python, and one that an answer of vCloud Director raises.
pub data AccessError : Type 0 where
  attribute_error : AccessError
  remote_error : String → AccessError

unfoldable pub find_attribute : String → Attributes → Option Object
find_attribute k bare = none
find_attribute k (attribute j o xs) = if j == k then some o else find_attribute k xs

unfoldable pub store_attribute : String → Object → Attributes → Attributes
store_attribute k v bare = attribute k v bare
store_attribute k v (attribute j o xs) =
    if j == k then attribute j v xs else attribute j o (store_attribute k v xs)

unfoldable pub drop_attribute : String → Attributes → Attributes
drop_attribute k bare = bare
drop_attribute k (attribute j o xs) = if j == k then xs else attribute j o (drop_attribute k xs)

abbrev pub or_missing : Option Object → Result AccessError Object
or_missing none = err attribute_error
or_missing (some o) = ok o

unfoldable pub getattr : Object → String → Result AccessError Object
unfolding find_attribute
getattr (leaf v) k = err attribute_error
getattr (node xs) k = or_missing (find_attribute k xs)

unfoldable pub setattr : Object → String → Object → Result AccessError Object
unfolding store_attribute
setattr (leaf v) k o = err attribute_error
setattr (node xs) k o = ok (node (store_attribute k o xs))

-- The attribute below the path gets the value; its objects stay where they are.
unfoldable pub set_path : Object → List String → Object → Result AccessError Object
unfolding getattr setattr
set_path o [] v = err attribute_error
set_path o (a ∷ []) v = setattr o a v
set_path o (a ∷ b ∷ xs) v = getattr o a >>= λ c. set_path c (b ∷ xs) v >>= λ d. setattr o a d

-- The keys of the changes are paths such as `entity.status.phase`.
abbrev pub Changes : Type 0
Changes = List (String × Object)

unfoldable pub apply_changes : Object → Changes → Result AccessError Object
unfolding set_path
apply_changes o [] = ok o
apply_changes o ((path, v) ∷ cs) = set_path o (split b'.' path) v >>= λ d. apply_changes d cs

abbrev pub below : Option Object → (Object → Option Object) → Option Object
below none f = none
below (some o) f = f o

unfoldable pub get_path : Object → List String → Option Object
unfolding find_attribute
get_path o [] = some o
get_path (leaf v) (a ∷ p) = none
get_path (node xs) (a ∷ p) = below (find_attribute a xs) λ o. get_path o p
