-- ===== src/Acl.antt =====
-- container_service_extension/rde/acl_service.py: the access control of a cluster's entity, and
-- what `get_cluster_acl_info` and `update_cluster_acl` of cluster_service_2_x.py make of it. vCloud
-- Director is a parameter: the pages that it returns, and which requests it accepts.
pub mod Pages
pub mod Shown
pub mod Sharing
mod Tests
use text.Mathlib.Text.{starts_with}
use container_service_extens.Common.{
  ℕ, zero, suc, ◌+◌, ◌/◌, ◌%◌, String, Bool, true, false, not, ◌&&◌, Option, none, some, List, [],
  ◌∷◌, ◌++◌, map, ◌==◌, nat_eq, ltb, if◌then◌else◌, Result, ok, err,
}
use container_service_extens.Common.Dict.{Dict, lookup, insert, values}

-- `ClusterAclEntry`, with the fields that are read.
pub record AclEntry : Type 0 where
  pub id : String
  pub member_id : String
  pub access_level : String
  pub username : String

-- A page, and what the pages after it hold, which are read only if it is not empty.
unfoldable and_more : List AclEntry → Option (List AclEntry) → Option (List AclEntry)
and_more [] rest = some []
and_more (e ∷ es) none = none
and_more (e ∷ es) (some rest) = some ((e ∷ es) ++ rest)

-- `list_def_entity_acl_entries`: the pages from `page_num` on, up to the first that is empty.
-- Without fuel there is no result.
unfoldable pub list_def_entity_acl_entries : (ℕ → List AclEntry) → ℕ → ℕ → Option (List AclEntry)
unfolding and_more
list_def_entity_acl_entries response zero page_num = none
list_def_entity_acl_entries response (suc fuel) page_num =
    let rest = list_def_entity_acl_entries response fuel (suc page_num) in
    and_more (response page_num) rest

-- `create_user_id_to_acl_entry_dict`
unfoldable pub user_id_to_acl_entry : List AclEntry → Dict AclEntry → Dict AclEntry
user_id_to_acl_entry [] d = d
user_id_to_acl_entry (e ∷ es) d = user_id_to_acl_entry es (insert e.member_id e d)

unfoldable pub is_user : AclEntry → Bool
is_user e = starts_with e.member_id "urn:vcloud:user:"

unfoldable named : Option String → AclEntry → AclEntry
named none e = record e { username = "system user" }
named (some name) e = record e { username = name }

-- The loop of `get_cluster_acl_info`: `total` users have been seen.
unfoldable pub page_of_users : Dict String → ℕ → ℕ → ℕ → List AclEntry → ℕ × List AclEntry
unfolding is_user named lookup
page_of_users names page size total [] = (total, [])
page_of_users names page size total (e ∷ es) =
    let next = page_of_users names page size (suc total) es in
    let same = page_of_users names page size total es in
    if is_user e
    then if nat_eq (total / size + 1) page && ltb (total % size) size
      then (next.0, named (lookup e.member_id names) e ∷ next.1)
      else next
    else same

-- The requests that change the access control, in the order they are sent.
pub data Request : Type 0 where
  share : String → String → Request
  unshare : String → Request

pub data AclError : Type 0 where
  key_error refused : AclError

-- How `update_cluster_acl` ends: with the error of the update after it was undone, or with the
-- error of undoing it.
pub data AclOutcome : Type 0 where
  updated rolled_back rollback_failed : AclOutcome

-- `del d[k]`
unfoldable pub remove : String → Dict AclEntry → Dict AclEntry
remove k [] = []
remove k ((j, e) ∷ d) = if j == k then d else (j, e) ∷ remove k d

abbrev pub present : Option AclEntry → Bool
present none = false
present (some e) = true

-- `in_org` says which users belong to the organization of the entity, `accepts` which requests
-- vCloud Director accepts.
module _ (in_org : String → Bool) (accepts : Request → Bool) where
  -- The requests that are sent, up to the first that is refused.
  unfoldable pub unshare_all : List AclEntry → Result AclError (Unit {0}) × List Request
  unshare_all [] = (ok tt, [])
  unshare_all (e ∷ es) =
      let rest = unshare_all es in
      if accepts (unshare e.id)
      then (rest.0, unshare e.id ∷ rest.1)
      else (err refused, unshare e.id ∷ [])

  -- `update_native_def_entity_acl`, with its copy of the previous entries.
  unfoldable pub update_native_def_entity_acl :
      List AclEntry → Dict AclEntry → Result AclError (Unit {0}) × List Request
  unfolding unshare_all remove lookup values
  update_native_def_entity_acl [] own = unshare_all (values own)
  update_native_def_entity_acl (e ∷ es) own =
      let rest = update_native_def_entity_acl es (remove e.member_id own) in
      if in_org e.member_id
      then if accepts (share e.member_id e.access_level)
        then (rest.0, share e.member_id e.access_level ∷ rest.1)
        else (err refused, share e.member_id e.access_level ∷ [])
      else if present (lookup e.member_id own)
      then rest
      else (err key_error, [])

  unfoldable undone : Result AclError (Unit {0}) → AclOutcome
  undone (ok u) = rolled_back
  undone (err r) = rollback_failed

  unfoldable both : Result AclError (Unit {0}) → Bool → Bool
  both (ok u) vapp_updated = vapp_updated
  both (err r) vapp_updated = false

  -- `update_cluster_acl`: the entries read before the update and, if it fails, after it, and
  -- whether the settings of the vApp can be updated. Returned with the requests that were sent.
  unfoldable pub update_cluster_acl :
      List AclEntry → List AclEntry → Bool → List AclEntry → AclOutcome × List Request
  unfolding update_native_def_entity_acl user_id_to_acl_entry undone both
  update_cluster_acl before after vapp_updated new =
      let previous = user_id_to_acl_entry before [] in
      let first = update_native_def_entity_acl new previous in
      let second = update_native_def_entity_acl (values previous) (user_id_to_acl_entry after []) in
      if both first.0 vapp_updated
      then (updated, first.1)
      else (undone second.0, first.1 ++ second.1)
