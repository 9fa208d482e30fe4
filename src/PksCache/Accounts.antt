-- ===== src/PksCache/Accounts.antt =====
-- The list of an org's PKS accounts in PksCache.
use container_service_extens.Common.{
  String, ◌≡◌, refl, sym, Option, none, some, List, [], ◌∷◌, ok, ok-injective, Option-cases,
  Result-cases, inl, inr,
}
use container_service_extens.Common.Dict.{lookup}
use container_service_extens.PksCache.{
  Query, Config, PksAccountInfo, PksCache, account_infos, orgs_table, init,
  get_exclusive_pks_accounts_info_for_org,
}
use container_service_extens.PksCache.Isolation.{Made, init-Made, account_names-Kept}

abbrev pub account_names : List PksAccountInfo → List String
account_names [] = []
account_names (i ∷ is) = i.account_name ∷ account_names is

pub names_of : Option (List String) → List String
names_of none = []
names_of (some names) = names

module _ (query : Query) (c : Config) (cache : PksCache) (made : Made c cache) where
  account_infos-names :
      (names : List String) (infos : List PksAccountInfo)
      → account_infos cache.pks_account_info_table names ≡ ok infos
      → account_names infos ≡ names
  unfolding account_infos lookup
  account_infos-names [] infos h = rw (sym (ok-injective h)) refl
  account_infos-names (a ∷ as') infos h =
      elim (Option-cases (lookup a cache.pks_account_info_table)) [
        | inl p ↦ absurd (let q = rw p at h in cc)
        | inr (i, p) ↦ elim (Result-cases (account_infos cache.pks_account_info_table as')) [
          | inr (e, q) ↦ absurd (let r = rw (p, q) at h in cc)
          | inl (is, q) ↦
              let r = account_infos-names as' is q in
              let kept =
                account_names-Kept made.servers c.pks_accounts [] cache.pks_account_info_table a i
                  (λ y z. absurd cc) made.accounts p in
              rw (sym (ok-injective (rw (p, q) at h)), kept, r) refl
        ]
      ]

-- The accounts that the cache lists for an org are, by name and in order, the ones that the
-- configuration gives to it, and none for an org that the configuration does not name.
get_exclusive_pks_accounts_info_for_org-names :
    (query : Query) (c : Config) (cache : PksCache) (org : String) (infos : List PksAccountInfo)
    → init query c ≡ ok cache
    → get_exclusive_pks_accounts_info_for_org org cache ≡ ok infos
    → account_names infos ≡ names_of (lookup org (orgs_table c.orgs []))
unfolding get_exclusive_pks_accounts_info_for_org names_of
get_exclusive_pks_accounts_info_for_org-names query c cache org infos h l =
    let m = init-Made query c cache h in
    elim (Option-cases (lookup org cache.orgs_to_pks_account_mapper)) [
      | inl p ↦ rw (m.orgs, p) (rw (sym (ok-injective (rw p at l))) refl)
      | inr (names, p) ↦
          rw (m.orgs, p) (account_infos-names query c cache m names infos (rw p at l))
    ]
