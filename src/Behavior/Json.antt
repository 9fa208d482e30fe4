-- ===== src/Behavior/Json.antt =====
-- What Python does with values that `json.loads` made, and the exceptions that this raises.
use container_service_extens.Common.{
  ℕ, String, ◌==◌, starts_with, Bool, true, false, not, ◌||◌, if◌then◌else◌, Result, ok, err,
}
use container_service_extens.Common.Int.{ℤ, is_zero}
use container_service_extens.ClusterSpec.Tree.{
  Value, null, text, num, flag, arr, obj, Items, nil, cons, done, member, has_member, member_at,
  same,
}

-- The exceptions, by what the `except` clauses tell apart; a `CseRequestError` has a status, a minor
-- error code and a message.
pub data Raised : Type 0 where
  key_error type_error value_error other_error : String → Raised
  request_error : ℕ → ℤ → String → Raised

-- `v[k]`
unfoldable pub item : String → Value → Result Raised Value
unfolding has_member member_at
item k (obj ms) = if has_member k ms then ok (member_at k ms) else err (key_error k)
item k v = err (type_error k)

-- `v.get(k)`
unfoldable pub get : String → Value → Result Raised Value
unfolding member_at
get k (obj ms) = ok (member_at k ms)
get k v = err (other_error "'get'")

-- `if v:`
unfoldable pub is_truthy : Value → Bool
is_truthy null = false
is_truthy (text s) = not (s == "")
is_truthy (num n) = not (is_zero n)
is_truthy (flag b) = b
is_truthy (arr nil) = false
is_truthy (arr (cons v vs)) = true
is_truthy (obj done) = false
is_truthy (obj (member k v ms)) = true

contains : String → String → Bool
contains p String.[] = p == ""
contains p (String.◌∷◌ c s) = starts_with (String.◌∷◌ c s) p || contains p s

has_item : Value → Items → Bool
unfolding same
has_item v nil = false
has_item v (cons w ws) = same w v || has_item v ws

-- `s in v`
unfoldable pub is_in : String → Value → Result Raised Bool
unfolding contains has_item has_member
is_in s (text t) = ok (contains s t)
is_in s (arr vs) = ok (has_item (text s) vs)
is_in s (obj ms) = ok (has_member s ms)
is_in s v = err (type_error "not iterable")
