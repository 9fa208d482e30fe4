-- ===== src/ServerConfig.antt =====
-- container_service_extension/config/server_config.py: the tree of the server's configuration, read
-- and written at keys such as `key1.key12.[1]`. The tree is a value here: no two places share a
-- node. The lock makes the methods run one at a time. `int`, the built-in function of Python, is a
-- parameter.
pub mod RoundTrip
mod Tests
use Prim.Native.Char.{Char, code}
use Prim.Native.String
use container_service_extens.Common.{
  ℕ, zero, suc, String, ◌<>◌, Bool, true, false, ◌==◌, nat_eq, Option, none, some, List, [], ◌∷◌,
  if◌then◌else◌, Result, ok, err, ◌>>=◌,
}
use container_service_extens.Common.Int.{ℤ, pos, negsuc}
use container_service_extens.Common.Text.{split}

mutual
  -- A value of a basic type, a list or a dictionary.
  pub data Node : Type 0 where
    basic : String → Node
    seq : Nodes → Node
    table : Fields → Node

  pub data Nodes : Type 0 where
    end : Nodes
    item : Node → Nodes → Nodes

  pub data Fields : Type 0 where
    empty : Fields
    field : String → Node → Fields → Fields

pub data ConfigError : Type 0 where
  key_error type_error value_error : ConfigError

in_front : Char → Option String → Option String
in_front c none = none
in_front c (some t) = some (String.◌∷◌ c t)

-- What stands before the `]` at the end of a text.
before_bracket : String → Option String
unfolding in_front
before_bracket String.[] = none
before_bracket (String.◌∷◌ c String.[]) = if nat_eq (code c) b']' then some String.[] else none
before_bracket (String.◌∷◌ c (String.◌∷◌ d s)) = in_front c (before_bracket (String.◌∷◌ d s))

-- `key[1: len(key) - 1]` of a key that starts with `[` and ends with `]`.
unfoldable pub bracketed : String → Option String
unfolding before_bracket
bracketed String.[] = none
bracketed (String.◌∷◌ c s) = if nat_eq (code c) b'[' then before_bracket s else none

unfoldable pub nth : ℕ → Nodes → Option Node
nth n end = none
nth zero (item x xs) = some x
nth (suc n) (item x xs) = nth n xs

unfoldable pub replace_nth : ℕ → Node → Nodes → Nodes
replace_nth n y end = end
replace_nth zero y (item x xs) = item y xs
replace_nth (suc n) y (item x xs) = item x (replace_nth n y xs)

unfoldable pub find : String → Fields → Option Node
find k empty = none
find k (field j x fs) = if j == k then some x else find k fs

unfoldable pub store : String → Node → Fields → Fields
store k y empty = field k y empty
store k y (field j x fs) = if j == k then field j y fs else field j x (store k y fs)

from_found : Option Node → Result ConfigError Node
from_found none = err key_error
from_found (some x) = ok x

abbrev init : List String → List String
init [] = []
init (x ∷ []) = []
init (x ∷ y ∷ xs) = x ∷ init (y ∷ xs)

abbrev last : List String → String
last [] = ""
last (x ∷ []) = x
last (x ∷ y ∷ xs) = last (y ∷ xs)

-- `".".join(...)`
join : List String → String
join [] = ""
join (x ∷ []) = x
join (x ∷ y ∷ xs) = x <> "." <> join (y ∷ xs)

-- `_split_key`
unfoldable pub split_key : String → String × String
unfolding join
split_key key = (join (init (split b'.' key)), last (split b'.' key))

tokens_of : String → List String
tokens_of String.[] = []
tokens_of (String.◌∷◌ c s) = split b'.' (String.◌∷◌ c s)

-- The fragments by which `_navigate_to_parent` goes.
unfoldable pub parent_tokens : String → List String
unfolding split_key tokens_of
parent_tokens key = tokens_of (split_key key).0

module _ (int : String → Option ℤ) where
  index_in : Option ℤ → Result ConfigError (Option ℤ)
  index_in none = err value_error
  index_in (some i) = ok (some i)

  fragment_index : Option String → Result ConfigError (Option ℤ)
  unfolding index_in
  fragment_index none = ok none
  fragment_index (some t) = index_in (int t)

  -- `_is_index`. Of what `int` raises, it catches TypeError only, so that a ValueError goes
  -- through.
  unfoldable pub is_index : String → Result ConfigError (Option ℤ)
  unfolding fragment_index
  is_index key = fragment_index (bracketed key)

  element_at : Nodes → Option ℤ → Result ConfigError Node
  unfolding from_found
  element_at xs none = err key_error
  element_at xs (some (pos n)) = from_found (nth n xs)
  element_at xs (some (negsuc n)) = err key_error

  -- `_get_element`
  unfoldable pub get_element : Node → String → Result ConfigError Node
  unfolding element_at from_found
  get_element (seq xs) key = is_index key >>= element_at xs
  get_element (table fs) key = from_found (find key fs)
  get_element (basic s) key = err type_error

  -- `_navigate_to_parent`
  unfoldable pub navigate : Node → List String → Result ConfigError Node
  unfolding get_element
  navigate root [] = ok root
  navigate root (t ∷ ts) = get_element root t >>= λ child. navigate child ts

  unfoldable pub get_value_at : Node → String → Result ConfigError Node
  unfolding navigate
  get_value_at root key =
      navigate root (parent_tokens key) >>= λ parent. get_element parent (split_key key).1

  -- The parent with the new value, and the old value.
  abbrev pub Written : Type 0
  Written = Result ConfigError (Node × Option Node)

  write_nth : ℕ → Node → Nodes → Option Node → Written
  write_nth n value xs none = err key_error
  write_nth n value xs (some old) = ok (seq (replace_nth n value xs), some old)

  write_index : Node → ℤ → Node → Written
  unfolding write_nth
  write_index (seq xs) (pos n) value = write_nth n value xs (nth n xs)
  write_index (seq xs) (negsuc n) value = err key_error
  write_index parent i value = err value_error

  write_field : Node → String → Node → Written
  write_field (table fs) key value = ok (table (store key value fs), find key fs)
  write_field parent key value = err value_error

  write_at : Node → String → Option ℤ → Node → Written
  unfolding write_index write_field
  write_at parent key none value = write_field parent key value
  write_at parent key (some i) value = write_index parent i value

  unfoldable pub write_element : Node → String → Node → Written
  unfolding write_at
  write_element parent key value = is_index key >>= λ i. write_at parent key i value

  put_nth : Nodes → Option ℤ → Node → Node
  put_nth xs (some (pos n)) child = seq (replace_nth n child xs)
  put_nth xs _ child = seq xs

  put_index : Nodes → Result ConfigError (Option ℤ) → Node → Node
  unfolding put_nth
  put_index xs (ok i) child = put_nth xs i child
  put_index xs (err e) child = seq xs

  -- The node, with a changed child in the place of the one that `get_element` finds.
  unfoldable pub put_element : Node → String → Node → Node
  unfolding put_index
  put_element (seq xs) key child = put_index xs (is_index key) child
  put_element (table fs) key child = table (store key child fs)
  put_element (basic s) key child = basic s

  unfoldable pub write_below : Node → List String → String → Node → Written
  unfolding get_element write_element put_element
  write_below root [] key value = write_element root key value
  write_below root (t ∷ ts) key value = get_element root t >>= λ child.
      write_below child ts key value >>= λ r. ok (put_element root t r.0, r.1)

  -- The changed configuration, and the old value that is returned.
  unfoldable pub set_value_at : Node → String → Node → Written
  unfolding write_below
  set_value_at root key value = write_below root (parent_tokens key) (split_key key).1 value
