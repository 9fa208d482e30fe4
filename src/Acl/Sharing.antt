-- ===== src/Acl/Sharing.antt =====
-- Which requests change an access control list.
use container_service_extens.Common.{
  inl, inr, ◌≡◌, ◌≢◌, refl, sym, subst, String, Bool, true, false, not, ◌&&◌, ◌||◌, Bool-cases,
  List, [], ◌∷◌, ◌++◌, elem, In, here, there, ◌==◌, eq_iff, arith, if◌then◌else◌, Result, ok, err,
}
use container_service_extens.Common.Dict.{Dict, lookup, values}
use container_service_extens.Acl.{
  AclEntry, Request, share, unshare, AclError, remove, present, unshare_all,
  update_native_def_entity_acl, update_cluster_acl, user_id_to_acl_entry, undone, both,
  rollback_failed,
}

abbrev pub members : List AclEntry → List String
members [] = []
members (e ∷ es) = e.member_id ∷ members es

abbrev pub keys : Dict AclEntry → List String
keys [] = []
keys ((k, e) ∷ d) = k ∷ keys d

abbrev pub distinct : List String → Bool
distinct [] = true
distinct (x ∷ xs) = not (elem x xs) && distinct xs

-- One request for each previous entry whose user is not among these.
abbrev pub unshares : List String → Dict AclEntry → List Request
unshares ms [] = []
unshares ms ((k, e) ∷ d) = if elem k ms then unshares ms d else unshare e.id ∷ unshares ms d

elem-remove :
    (j k : String) (d : Dict AclEntry)
    → elem j (keys d) ≡ false
    → elem j (keys (remove k d)) ≡ false
unfolding remove
elem-remove j k [] h = refl
elem-remove j k ((i, e) ∷ d) h = ground (arith, elem-remove j k d)

remove-distinct :
    (k : String) (d : Dict AclEntry)
    → distinct (keys d) ≡ true
    → distinct (keys (remove k d)) ≡ true
unfolding remove
remove-distinct k [] h = refl
remove-distinct k ((i, e) ∷ d) h = ground (arith, remove-distinct k d, elem-remove i k d)

lookup-remove :
    (j k : String) (d : Dict AclEntry) → (k == j) ≡ false → lookup j (remove k d) ≡ lookup j d
unfolding lookup remove
lookup-remove j k [] h = refl
lookup-remove j k ((i, e) ∷ d) h =
    ground (arith, lookup-remove j k d h, eq_iff i k, eq_iff i j, eq_iff k j)

lookup-remove_absent :
    (j k : String) (d : Dict AclEntry)
    → present (lookup j d) ≡ false
    → present (lookup j (remove k d)) ≡ false
unfolding lookup remove
lookup-remove_absent j k [] h = refl
lookup-remove_absent j k ((i, e) ∷ d) h = ground (arith, lookup-remove_absent j k d)

-- A user who is not among the keys makes no difference.
unshares-absent :
    (k : String) (ms : List String) (d : Dict AclEntry)
    → elem k (keys d) ≡ false
    → unshares (k ∷ ms) d ≡ unshares ms d
unshares-absent k ms [] h = refl
unshares-absent k ms ((i, e) ∷ d) h = ground (arith, unshares-absent k ms d, eq_iff i k, eq_iff k i)

unshares-remove :
    (k : String) (ms : List String) (d : Dict AclEntry)
    → distinct (keys d) ≡ true
    → unshares ms (remove k d) ≡ unshares (k ∷ ms) d
unfolding remove
unshares-remove k ms [] h = refl
unshares-remove k ms ((i, e) ∷ d) h = elim (Bool-cases (i == k)) [
  | inl p ↦
      rw (p, (eq_iff k i).1 (sym ((eq_iff i k).0 p))) (sym (unshares-absent k ms d (absent p)))
  | inr p ↦ ground (arith, unshares-remove k ms d, eq_iff i k, eq_iff k i)
]
  where
    absent : (i == k) ≡ true → elem k (keys d) ≡ false
    absent p = subst (λ x. elem x (keys d) ≡ false) ((eq_iff i k).0 p) (ground arith)

module _ (in_org : String → Bool) where
  -- One request for each new entry whose user belongs to the organization.
  abbrev pub shares : List AclEntry → List Request
  shares [] = []
  shares (e ∷ es) =
      if in_org e.member_id then share e.member_id e.access_level ∷ shares es else shares es

  -- Every user from elsewhere is new no more than once, and had access before.
  abbrev pub removable : List AclEntry → Dict AclEntry → Bool
  removable [] own = true
  removable (e ∷ es) own =
      (in_org e.member_id
        || (present (lookup e.member_id own) && not (elem e.member_id (members es))))
      && removable es own

  removable-remove :
      (k : String) (es : List AclEntry) (own : Dict AclEntry)
      → (in_org k || not (elem k (members es))) ≡ true
      → removable es own ≡ true
      → removable es (remove k own) ≡ true
  removable-remove k [] own h r = refl
  removable-remove k (e ∷ es) own h r = elim (Bool-cases (k == e.member_id)) [
    | inl p ↦ ground (arith, removable-remove k es own, own_org p)
    | inr p ↦ ground (
      arith,
      lookup-remove e.member_id k own p,
      removable-remove k es own,
      eq_iff k e.member_id,
      eq_iff e.member_id k,
    )
  ]
    where
      own_org : (k == e.member_id) ≡ true → in_org e.member_id ≡ true
      own_org p =
          subst (λ x. in_org x ≡ true) ((eq_iff k e.member_id).0 p)
            (ground (arith, (eq_iff e.member_id k).1 (sym ((eq_iff k e.member_id).0 p))))

  unshare_all-unshares :
      (accepts : Request → Bool) (own : Dict AclEntry)
      → ((q : Request) → accepts q ≡ true)
      → unshare_all in_org accepts (values own) ≡ (ok tt, unshares [] own)
  unfolding unshare_all values
  unshare_all-unshares accepts [] all = refl
  unshare_all-unshares accepts ((k, e) ∷ own) all =
      rw (all (unshare e.id), unshare_all-unshares accepts own all) refl

  -- vCloud Director accepts all requests, the previous entries have distinct users, and every user
  -- from elsewhere among the new entries is there once and had access before: then each new entry
  -- of a user of the organization is shared, in order, and after that each previous entry is
  -- removed whose user has no new one.
  pub update_native_def_entity_acl-requests :
      (accepts : Request → Bool) (es : List AclEntry) (own : Dict AclEntry)
      → ((q : Request) → accepts q ≡ true)
      → distinct (keys own) ≡ true
      → removable es own ≡ true
      → update_native_def_entity_acl in_org accepts es own
        ≡ (ok tt, shares es ++ unshares (members es) own)
  unfolding update_native_def_entity_acl
  update_native_def_entity_acl-requests accepts [] own all d r =
      unshare_all-unshares accepts own all
  update_native_def_entity_acl-requests accepts (e ∷ es) own all d r =
      rw
        (
          update_native_def_entity_acl-requests accepts es (remove e.member_id own) all
              (remove-distinct e.member_id own d)
              (removable-remove e.member_id es own (ground arith) (ground arith)),
          unshares-remove e.member_id (members es) own d,
          all (share e.member_id e.access_level),
        )
        elim (Bool-cases (in_org e.member_id)) [ inl p ↦ rw p refl | inr p ↦ rw (p, had p) refl ]
    where
      had : in_org e.member_id ≡ false → present (lookup e.member_id own) ≡ true
      had p = ground arith

  -- Some new entry is for a user from elsewhere who had no access before: the update fails,
  -- whatever vCloud Director accepts.
  pub update_native_def_entity_acl-fails :
      (accepts : Request → Bool) {e : AclEntry} {es : List AclEntry} (own : Dict AclEntry)
      → In e es
      → in_org e.member_id ≡ false
      → present (lookup e.member_id own) ≡ false
      → (update_native_def_entity_acl in_org accepts es own).0 ≢ ok tt
  unfolding update_native_def_entity_acl
  update_native_def_entity_acl-fails accepts {e = e} own here out absent h = ground arith
  update_native_def_entity_acl-fails accepts {e = e} own (there {y = y} m) out absent h = ground (
    arith,
    update_native_def_entity_acl-fails accepts (remove y.member_id own) m out
        (lookup-remove_absent e.member_id y.member_id own absent),
  )

  undone-fails :
      (accepts : Request → Bool) (r : Result AclError (Unit {0}))
      → r ≢ ok tt
      → undone in_org accepts r ≡ rollback_failed
  unfolding undone
  undone-fails accepts (ok u) h = absurd (h refl)
  undone-fails accepts (err e) h = refl

  -- An update fails, because of its entries, a refused request or the settings of the vApp. Some
  -- user from elsewhere had access before and is not among the entries that are read after the
  -- failure: the update is not undone.
  pub update_cluster_acl-rollback_failed :
      (accepts : Request → Bool) (before after new : List AclEntry) (vapp_updated : Bool)
      {e : AclEntry}
      → both in_org accepts
          (update_native_def_entity_acl in_org accepts new (user_id_to_acl_entry before [])).0
          vapp_updated
        ≡ false
      → In e (values (user_id_to_acl_entry before []))
      → in_org e.member_id ≡ false
      → present (lookup e.member_id (user_id_to_acl_entry after [])) ≡ false
      → (update_cluster_acl in_org accepts before after vapp_updated new).0 ≡ rollback_failed
  unfolding update_cluster_acl
  update_cluster_acl-rollback_failed accepts before after new vapp_updated failed m out absent =
      rw failed (undone-fails accepts _ (update_native_def_entity_acl-fails accepts _ m out absent))
