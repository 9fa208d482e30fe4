-- ===== src/EntityService.antt =====
-- container_service_extension/rde/common/entity_service.py: `update_entity`, which reads a defined entity,
-- changes it and writes it back, while other clients may do the same. The client of vCloud Director
-- is a parameter: `get` and `put` on a state, and what other clients do between a read and the
-- write after it; so is `to_dict`, which a library writes.
pub mod Objects
pub mod Frame
pub mod Atomic
pub mod Retries
mod Tests
use container_service_extens.Common.{
  ℕ, zero, suc, String, Bool, true, false, not, ◌&&◌, ◌==◌, Option, none, some, List, [], ◌∷◌,
  if◌then◌else◌, Result, ok, err, ◌>>=◌,
}
use container_service_extens.ClusterSpec.Tree.{Value, null, text}
use container_service_extens.EntityService.Objects.{
  Object, leaf, node, Attributes, bare, attribute, AccessError, attribute_error, remote_error,
  find_attribute, store_attribute, drop_attribute, Changes, apply_changes,
}

-- `MAX_RDE_UPDATE_ATTEMPTS`
abbrev pub max_rde_update_attempts : ℕ
max_rde_update_attempts = 10

pub data UpdateError : Type 0 where
  -- Neither entity nor changes, and no changes where an etag is used.
  nothing_to_update changes_required : UpdateError
  too_many_attempts : UpdateError
  raised : AccessError → UpdateError

-- The answer to a PUT.
pub data Answer : Type 0 where
  accepted : Object → Answer
  precondition_failed : Answer
  refused : String → Answer

abbrev is_tkgm : Option Object → Bool
is_tkgm (some (leaf (text s))) = s == "TKGm"
is_tkgm _ = false

-- `entity["status"].pop("private", None)`, where a missing status is an empty dictionary.
without_private_in : Attributes → Option Object → Result AccessError Attributes
unfolding store_attribute drop_attribute
without_private_in entity none = ok entity
without_private_in entity (some (leaf v)) = err attribute_error
without_private_in entity (some (node status)) =
    ok (store_attribute "status" (node (drop_attribute "private" status)) entity)

payload_in : Bool → Attributes → Object → Result AccessError Attributes
unfolding without_private_in find_attribute
payload_in is_sys_admin payload (leaf v) = err attribute_error
payload_in true payload (node entity) = ok payload
payload_in false payload (node entity) =
    if is_tkgm (find_attribute "kind" entity)
    then ok payload
    else without_private_in entity (find_attribute "status" entity) >>= λ changed.
        ok (store_attribute "entity" (node changed) payload)

-- A user who is no system administrator writes no private property, unless the cluster is a TKGm cluster.
unfoldable pub payload_for : Bool → Object → Result AccessError Object
unfolding payload_in find_attribute
payload_for is_sys_admin (leaf v) = err attribute_error
payload_for is_sys_admin (node payload) = elim (find_attribute "entity" payload) [
  | none ↦ ok (node payload)
  | some entity ↦ payload_in is_sys_admin payload entity >>= λ p. ok (node p)
]

module _ {S : Type 0} (get : S → Result AccessError (Object × String))
    (put : Option String → Object → S → Answer × S) (others : ℕ → S → S) (to_dict : Object → Object)
    (is_sys_admin : Bool) where
  abbrev pub Outcome : Type 0
  Outcome = Result UpdateError Object × S

  -- What is written, with the etag of what was read.
  unfoldable pub prepare : Option Object → Changes → S → Result AccessError (Object × String)
  unfolding apply_changes payload_for
  prepare none [] s = err attribute_error
  prepare (some entity) [] s =
      payload_for is_sys_admin (to_dict entity) >>= λ payload. ok (payload, "")
  prepare entity (c ∷ cs) s = get s >>= λ r. apply_changes r.0 (c ∷ cs) >>= λ changed.
      payload_for is_sys_admin (to_dict changed) >>= λ payload. ok (payload, r.1)

  abbrev pub answered : (S → Outcome) → Answer × S → Outcome
  answered retry (accepted o, s) = (ok o, s)
  answered retry (precondition_failed, s) = retry s
  answered retry (refused e, s) = (err (raised (remote_error e)), s)

  abbrev pub sent : Bool → ℕ → (S → Outcome) → S → Result AccessError (Object × String) → Outcome
  sent uses_etag n retry s (err e) = (err (raised e), s)
  sent uses_etag n retry s (ok (payload, etag)) =
      answered retry (put (if uses_etag then some etag else none) payload (others n s))

  -- The attempts that are left, and the number of those made.
  unfoldable pub attempts : Bool → Option Object → Changes → ℕ → ℕ → S → Outcome
  unfolding prepare
  attempts uses_etag entity changes zero n s = (err too_many_attempts, s)
  attempts uses_etag entity changes (suc k) n s =
      sent uses_etag n (attempts uses_etag entity changes k (suc n)) s (prepare entity changes s)

  -- An etag is used from version 36.0 of the API on.
  unfoldable pub update_entity : Bool → Option Object → Option Changes → S → Outcome
  unfolding attempts
  update_entity at_least_36 none none s = (err nothing_to_update, s)
  update_entity true (some entity) none s = (err changes_required, s)
  update_entity false (some entity) none s =
      attempts false (some entity) [] max_rde_update_attempts 0 s
  update_entity at_least_36 entity (some changes) s =
      attempts at_least_36 entity changes max_rde_update_attempts 0 s
