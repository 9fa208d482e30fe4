-- ===== src/ClusterSpec/Tree.antt =====
-- common/utils/core_utils.py: `flatten_dictionary`, and rde/utils.py: `find_diff_fields`, on values as
-- `to_dict` makes them.
use container_service_extens.Common.{
  ℕ, suc, String, ◌<>◌, ◌==◌, nat_eq, Bool, true, false, not, ◌&&◌, ◌||◌, Option, none, some, List,
  [], ◌∷◌, elem, if◌then◌else◌,
}
use container_service_extens.Common.Int.{ℤ, pos, negsuc}
use container_service_extens.Common.Dict.{Dict, lookup, insert}

mutual
  pub data Value : Type 0 where
    null : Value
    text : String → Value
    num : ℤ → Value
    flag : Bool → Value
    arr : Items → Value
    obj : Members → Value

  pub data Items : Type 0 where
    nil : Items
    cons : Value → Items → Items

  pub data Members : Type 0 where
    done : Members
    member : String → Value → Members → Members

abbrev int_eq : ℤ → ℤ → Bool
int_eq (pos m) (pos n) = nat_eq m n
int_eq (negsuc m) (negsuc n) = nat_eq m n
int_eq _ _ = false

-- A truth value is a number, True is 1.
abbrev as_number : Bool → ℤ
as_number true = pos 1
as_number false = pos 0

abbrev flag_eq : Bool → Bool → Bool
flag_eq true b = b
flag_eq false b = not b

unfoldable pub has_member : String → Members → Bool
has_member k done = false
has_member k (member j v ms) = j == k || has_member k ms

unfoldable pub member_at : String → Members → Value
member_at k done = null
member_at k (member j v ms) = if j == k then v else member_at k ms

abbrev size : Members → ℕ
size done = 0
size (member k v ms) = suc (size ms)

-- Python's `==`. Dictionaries are equal if they have as many keys, and equal values at the same keys.
unfoldable mutual
  unfolding has_member member_at

  pub same : Value → Value → Bool
  same null null = true
  same (text s) (text t) = s == t
  same (num m) (num n) = int_eq m n
  same (num m) (flag b) = int_eq m (as_number b)
  same (flag b) (num n) = int_eq (as_number b) n
  same (flag a) (flag b) = flag_eq a b
  same (arr xs) (arr ys) = same_items xs ys
  same (obj ms) (obj ns) = nat_eq (size ms) (size ns) && same_members ms ns
  same _ _ = false

  pub same_items : Items → Items → Bool
  same_items nil nil = true
  same_items (cons x xs) (cons y ys) = same x y && same_items xs ys
  same_items _ _ = false

  pub same_members : Members → Members → Bool
  same_members done ns = true
  same_members (member k v ms) ns = has_member k ns && same v (member_at k ns) && same_members ms ns

-- `d.update(e)`
unfoldable pub merge : Dict Value → Dict Value → Dict Value
unfolding insert
merge d [] = d
merge d ((k, v) ∷ e) = merge (insert k v d) e

-- Of a list at the key `csi` the first element is taken.
unfoldable mutual
  unfolding merge

  pub flat : Bool → String → Value → Dict Value
  flat true key (arr (cons x xs)) = flat false key x
  flat is_csi key (obj ms) = flat_members [] (key <> ".") ms
  flat is_csi key v = (key, v) ∷ []

  pub flat_members : Dict Value → String → Members → Dict Value
  flat_members d prefix done = d
  flat_members d prefix (member k v ms) =
      flat_members (merge d (flat (k == "csi") (prefix <> k) v)) prefix ms

unfoldable pub flatten_dictionary : Members → Dict Value
unfolding flat_members
flatten_dictionary ms = flat_members [] "" ms

pub record Change : Type 0 where
  pub expected : Value
  pub actual : Value

abbrev pub is_null : Value → Bool
is_null null = true
is_null _ = false

abbrev pub or_null : Option Value → Value
or_null none = null
or_null (some v) = v

unfoldable pub is_changed : List String → Dict Value → String → Value → Bool
unfolding same lookup
is_changed excluded reference k v =
    not (elem k excluded) && not (is_null v) && not (same v (or_null (lookup k reference)))

-- The items of the input that differ, in their order; the source has them in a set.
unfoldable pub differing : List String → Dict Value → Dict Value → Dict Change
unfolding is_changed
differing excluded reference [] = []
differing excluded reference ((k, v) ∷ d) =
    let rest = differing excluded reference d in
    if is_changed excluded reference k v
    then (k, record { expected = or_null (lookup k reference); actual = v }) ∷ rest
    else rest

unfoldable pub find_diff_fields : List String → Members → Members → Dict Change
unfolding flatten_dictionary differing
find_diff_fields excluded input reference =
    differing excluded (flatten_dictionary reference) (flatten_dictionary input)
