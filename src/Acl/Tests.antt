-- ===== src/Acl/Tests.antt =====
-- Witnesses of the theorems on access control lists.
use container_service_extens.Common.{
  ℕ, zero, suc, ◌||◌, String, ◌≡◌, refl, Bool, true, false, ◌==◌, some, List, [], ◌∷◌, ◌++◌, length,
  In, here, there, ok, arith,
}
use container_service_extens.Common.Dict.{Dict, lookup, insert, values}
use container_service_extens.Acl.{
  AclEntry, list_def_entity_acl_entries, user_id_to_acl_entry, page_of_users, is_user, Request,
  remove, unshare_all, update_native_def_entity_acl, update_cluster_acl, both, rollback_failed,
  present,
}
use container_service_extens.Acl.Pages.{slice, list_def_entity_acl_entries-all}
use container_service_extens.Acl.Shown.{users, shown, page_of_users-slice}
use container_service_extens.Acl.Sharing.{
  members, shares, unshares, removable, update_native_def_entity_acl-requests,
  update_cluster_acl-rollback_failed,
}

abbrev ann : AclEntry
ann = record { id = "1"; member_id = "urn:vcloud:user:ann"; access_level = "ro"; username = "" }

abbrev bob : AclEntry
bob = record { id = "2"; member_id = "urn:vcloud:user:bob"; access_level = "rw"; username = "" }

-- An administrator of the system organization.
abbrev admin : AclEntry
admin = record { id = "3"; member_id = "urn:vcloud:user:admin"; access_level = "rw"; username = "" }

abbrev in_org : String → Bool
in_org u = u == "urn:vcloud:user:ann" || u == "urn:vcloud:user:bob"

abbrev accepts_all : Request → Bool
accepts_all q = true

abbrev acl : List AclEntry
acl = ann ∷ bob ∷ admin ∷ []

abbrev pages : ℕ → List AclEntry
pages zero = []
pages (suc n) = slice n 2 acl

list_def_entity_acl_entries-all_example : list_def_entity_acl_entries pages 4 1 ≡ some acl
list_def_entity_acl_entries-all_example =
    list_def_entity_acl_entries-all pages 2 acl (omega arith) (λ n. refl) 4 (omega arith)

abbrev names : Dict String
names = ("urn:vcloud:user:bob", "Bob") ∷ []

-- A group is no user.
abbrev group : AclEntry
group = record { id = "4"; member_id = "urn:vcloud:group:ops"; access_level = "ro"; username = "" }

first_page : page_of_users names 1 2 0 (group ∷ bob ∷ acl) ≡ (4, shown names (bob ∷ ann ∷ []))
unfolding page_of_users is_user lookup
first_page = refl

page_of_users-slice_example :
    page_of_users names 2 2 0 acl ≡ (length (users acl), shown names (slice 1 2 (users acl)))
page_of_users-slice_example = page_of_users-slice names 1 2 (omega arith) acl

abbrev had_access : Dict AclEntry
had_access = (ann.member_id, ann) ∷ (admin.member_id, admin) ∷ []

new_removable : removable in_org (bob ∷ admin ∷ []) had_access ≡ true
unfolding lookup
new_removable = refl

update_native_def_entity_acl-requests_example :
    update_native_def_entity_acl in_org accepts_all (bob ∷ admin ∷ []) had_access
    ≡ (ok tt, shares in_org (bob ∷ admin ∷ []) ++ unshares (members (bob ∷ admin ∷ [])) had_access)
update_native_def_entity_acl-requests_example =
    update_native_def_entity_acl-requests in_org accepts_all (bob ∷ admin ∷ []) had_access
      (λ q. refl) refl new_removable

-- The administrator's access is removed, the settings of the vApp cannot be updated.
first_fails :
    both in_org accepts_all
      (update_native_def_entity_acl in_org accepts_all
        (bob ∷ [])
        (user_id_to_acl_entry (ann ∷ admin ∷ []) [])).0
      false
    ≡ false
unfolding both update_native_def_entity_acl user_id_to_acl_entry insert remove unshare_all values
    lookup
first_fails = refl

admin_before : In admin (values (user_id_to_acl_entry (ann ∷ admin ∷ []) []))
unfolding user_id_to_acl_entry insert values
admin_before = there here

not_after : present (lookup admin.member_id (user_id_to_acl_entry (bob ∷ []) [])) ≡ false
unfolding user_id_to_acl_entry insert lookup
not_after = refl

update_cluster_acl-rollback_failed_example :
    (update_cluster_acl in_org accepts_all (ann ∷ admin ∷ []) (bob ∷ []) false (bob ∷ [])).0
    ≡ rollback_failed
update_cluster_acl-rollback_failed_example =
    update_cluster_acl-rollback_failed in_org accepts_all (ann ∷ admin ∷ []) (bob ∷ []) (bob ∷ [])
      false first_fails admin_before refl not_after
