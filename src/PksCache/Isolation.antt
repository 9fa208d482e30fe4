-- ===== src/PksCache/Isolation.antt =====
-- Which PKS account an org gets from PksCache.
use container_service_extens.Common.{
  String, ◌≡◌, ◌≢◌, ◌⊎◌, refl, sym, ap, subst, ◌∙◌, Bool, true, Option, none, some, List, [], ◌∷◌,
  ◌==◌, eq_iff, eq_refl, elem, if◌then◌else◌, ok, ok-injective, arith, Option-cases, Bool-cases,
  &&-eq-true, Result-cases, inl, inr,
}
use mathlib.Core.Option.{some-injective}
use container_service_extens.Common.Dict.{Dict, lookup, insert, lookup-insert}
use container_service_extens.PksCache.{
  Query, PksServer, PksAccount, Org, Config, PksAccountInfo, PairDict, pair_eq, PksCache,
  lookup_pair, insert_pair, account_info, construct_pks_account_info_table, org_accounts,
  construct_vc_org_to_pks_info_mapper, org_tables, orgs_table, nsxt_mapper,
  construct_pvdc_info_table, servers_table, init, get_pks_account_info,
}

lookup_pair-insert_pair :
    (j k : String × String) (v : PksAccountInfo) (d : PairDict PksAccountInfo)
    → lookup_pair j (insert_pair k v d) ≡ (if pair_eq k j then some v else lookup_pair j d)
unfolding lookup_pair insert_pair
lookup_pair-insert_pair (a, b) (x, y) v [] = refl
lookup_pair-insert_pair (a, b) (x, y) v (((p, q), w) ∷ d) = ground (
  arith,
  eq_iff x a,
  eq_iff y b,
  eq_iff p x,
  eq_iff q y,
  eq_iff p a,
  eq_iff q b,
  lookup_pair-insert_pair (a, b) (x, y) v d,
)

-- The account `info` was found in the table under one of the names, for this vCenter.
pub record Granted (table : Dict PksAccountInfo) (names : List String) (vc : String)
    (info : PksAccountInfo) : Type 0 where
  pub account : String
  pub allotted : elem account names ≡ true
  pub entry : lookup account table ≡ some info
  pub vcenter : info.vc ≡ vc

-- What the inner loop finds under the key of an org is an account of the names it walks, or was
-- there before; under another org's key it puts nothing.
org_accounts-Granted :
    (table : Dict PksAccountInfo) (org : String) (names : List String)
    (d e : PairDict PksAccountInfo) (other vc : String) (info : PksAccountInfo)
    → org_accounts table org names d ≡ ok e
    → lookup_pair (other, vc) e ≡ some info
    → ((org ≡ other) × Granted table names vc info) ⊎ (lookup_pair (other, vc) d ≡ some info)
unfolding org_accounts
org_accounts-Granted table org [] d e other vc info h l =
    inr (subst (λ x. lookup_pair (other, vc) x ≡ some info) (sym (ok-injective h)) l)
org_accounts-Granted table org (a ∷ as') d e other vc info h l =
    elim (Option-cases (lookup a table)) [
      | inl p ↦ absurd (let q = rw p at h in cc)
      | inr (i, p) ↦
          elim (org_accounts-Granted table org as' (insert_pair (org, i.vc) i d) e other vc info
            (rw p at h) l) [
              | inl (same, g) ↦ inl (
                same,
                record {
                  account = g.account;
                  allotted = ground (arith, g.allotted);
                  entry = g.entry;
                  vcenter = g.vcenter;
                },
              )
              | inr q ↦
                  let r = sym (lookup_pair-insert_pair (other, vc) (org, i.vc) i d) ∙ q in
                  elim (Bool-cases (pair_eq (org, i.vc) (other, vc))) [
                    | inl same ↦
                        let (x, y) = &&-eq-true (org == other) (i.vc == vc) same in
                        let one : i ≡ info = some-injective i info (rw same at r) in
                        inl (
                          (eq_iff org other).0 x,
                          record {
                            account = a;
                            allotted = rw (eq_refl a) refl;
                            entry = p ∙ ap some one;
                            vcenter =
                                sym (ap (λ (z : PksAccountInfo). z.vc) one) ∙ (eq_iff i.vc vc).0 y;
                          },
                        )
                    | inr differs ↦ inr (rw differs at r)
                  ]
            ]
    ]

kept_by_insert :
    (a : PksAccount) (s : PksServer) (d : Dict PksAccountInfo) (k : String) (x : PksAccountInfo)
    → ((y : PksAccountInfo) → lookup k d ≡ some y → y.account_name ≡ k)
    → (if a.name == k then some (account_info a s) else lookup k d) ≡ some x
    → x.account_name ≡ k
unfolding account_info
kept_by_insert a s d k x inv h = elim (Bool-cases (a.name == k)) [
  | inl p ↦
      sym (ap (λ (z : PksAccountInfo). z.account_name) (some-injective _ x (rw p at h)))
      ∙ (eq_iff a.name k).0 p
  | inr p ↦ inv x (rw p at h)
]

-- An account stands in the table under its own name.
pub account_names-Kept :
    (servers : Dict PksServer) (as' : List PksAccount) (d t : Dict PksAccountInfo) (k : String)
    (info : PksAccountInfo)
    → ((info' : PksAccountInfo) → lookup k d ≡ some info' → info'.account_name ≡ k)
    → construct_pks_account_info_table servers as' d ≡ ok t
    → lookup k t ≡ some info
    → info.account_name ≡ k
unfolding construct_pks_account_info_table
account_names-Kept servers [] d t k info inv h l =
    inv info (subst (λ x. lookup k x ≡ some info) (sym (ok-injective h)) l)
account_names-Kept servers (a ∷ as') d t k info inv h l =
    elim (Option-cases (lookup a.pks_api_server servers)) [
      | inl p ↦ absurd (let q = rw p at h in cc)
      | inr (s, p) ↦
          account_names-Kept servers as' (insert a.name (account_info a s) d) t k info
            (λ x q.
              kept_by_insert a s d k x inv (sym (lookup-insert k a.name (account_info a s) d) ∙ q))
            (rw p at h) l
    ]

-- The tables of a cache that was made.
pub record Made (c : Config) (cache : PksCache) : Type 0 where
  pub servers : Dict PksServer
  pub accounts :
      construct_pks_account_info_table servers c.pks_accounts [] ≡ ok cache.pks_account_info_table
  pub orgs : orgs_table c.orgs [] ≡ cache.orgs_to_pks_account_mapper
  pub mappers :
      org_tables c.orgs cache.pks_account_info_table cache.orgs_to_pks_account_mapper
      ≡ ok (
        cache.orgs_have_exclusive_pks_account, cache.vc_to_pks_info_mapper,
        cache.vc_org_to_pks_info_mapper,
      )

pub init-Made :
    (query : Query) (c : Config) (cache : PksCache) → init query c ≡ ok cache → Made c cache
unfolding init
init-Made query c cache h =
    elim (Result-cases (nsxt_mapper (servers_table c.pks_servers []) c.nsxt_servers [])) [
      | inr (e, p) ↦ absurd (let q = rw p at h in cc)
      | inl (n, p) ↦
          elim (Result-cases
            (construct_pvdc_info_table query (servers_table c.pks_servers []) c.pvdcs [])) [
              | inr (e, q) ↦ absurd (let r = rw (p, q) at h in cc)
              | inl (v, q) ↦
                  elim (Result-cases (
                    construct_pks_account_info_table (servers_table c.pks_servers []) c.pks_accounts
                      [])) [
                        | inr (e, r) ↦ absurd (let z = rw (p, q, r) at h in cc)
                        | inl (t, r) ↦
                            elim (Result-cases (org_tables c.orgs t (orgs_table c.orgs []))) [
                              | inr (e, w) ↦ absurd (let z = rw (p, q, r, w) at h in cc)
                              | inl (m, w) ↦
                                  subst (Made c) (ok-injective (rw (p, q, r, w) at h)) (record {
                                    servers = servers_table c.pks_servers [];
                                    accounts = r;
                                    orgs = refl;
                                    mappers = w;
                                  })
                            ]
                      ]
            ]
    ]

exclusive_tables :
    (os : List Org) (table : Dict PksAccountInfo) (orgs : Dict (List String)) (e : Bool)
    (m : Dict PksAccountInfo) (x : Option (PairDict PksAccountInfo))
    → org_tables os table orgs ≡ ok (e, m, x)
    → e ≡ true
    → construct_vc_org_to_pks_info_mapper table orgs ≡ ok x
unfolding org_tables
exclusive_tables [] table orgs e m x h k = absurd (let q = ok-injective h in cc)
exclusive_tables (o ∷ os) table orgs e m x h k =
    elim (Result-cases (construct_vc_org_to_pks_info_mapper table orgs)) [
      | inl (y, p) ↦ p ∙ ap ok (let q = ok-injective (rw p at h) in cc)
      | inr (y, p) ↦ absurd (let q = rw p at h in cc)
    ]

-- The mapper of a table that begins with an org holds accounts of that org only.
mapper-first :
    (table : Dict PksAccountInfo) (first : String) (names : List String) (rest : Dict (List String))
    (y : Option (PairDict PksAccountInfo))
    → construct_vc_org_to_pks_info_mapper table ((first, names) ∷ rest) ≡ ok y
    → (x : PairDict PksAccountInfo) × (y ≡ some x)
      × ((org vc : String) (info : PksAccountInfo)
          → lookup_pair (org, vc) x ≡ some info
          → (first ≡ org) × Granted table names vc info)
unfolding construct_vc_org_to_pks_info_mapper lookup_pair
mapper-first table first names rest y h = elim (Result-cases (org_accounts table first names [])) [
  | inr (e, p) ↦ absurd (let q = rw p at h in cc)
  | inl (d, p) ↦ (
    d,
    sym (ok-injective (rw p at h)),
    λ org vc info l. elim (org_accounts-Granted table first names [] d org vc info p l) [
      | inl g ↦ g
      | inr q ↦ absurd cc
    ],
  )
]

mapper-Granted :
    (table : Dict PksAccountInfo) (orgs : Dict (List String)) (x : PairDict PksAccountInfo)
    (org vc : String) (info : PksAccountInfo)
    → construct_vc_org_to_pks_info_mapper table orgs ≡ ok (some x)
    → lookup_pair (org, vc) x ≡ some info
    → (names : List String) × (lookup org orgs ≡ some names) × Granted table names vc info
unfolding construct_vc_org_to_pks_info_mapper lookup
mapper-Granted table [] x org vc info h l = absurd (let q = ok-injective h in cc)
mapper-Granted table ((first, names) ∷ rest) x org vc info h l =
    let (d, same, only) = mapper-first table first names rest (some x) h in
    let (e, g) =
      only org vc info (ap (lookup_pair (org, vc)) (sym (some-injective x d same)) ∙ l) in
    (names, rw (e, eq_refl org) refl, g)

module _ (query : Query) (c : Config) (cache : PksCache) (made : init query c ≡ ok cache)
    (exclusive : cache.orgs_have_exclusive_pks_account ≡ true) where
  mapper_made :
      construct_vc_org_to_pks_info_mapper cache.pks_account_info_table
        cache.orgs_to_pks_account_mapper
      ≡ ok cache.vc_org_to_pks_info_mapper
  mapper_made =
      let m = init-Made query c cache made in
      exclusive_tables c.orgs _ _ _ cache.vc_to_pks_info_mapper _ m.mappers exclusive

  -- In a system whose orgs have PKS accounts of their own, an account that an org gets for a
  -- vCenter is one that the configuration gives to that org, and it is an account of that vCenter.
  pub get_pks_account_info-allotted :
      (org vc : String) (info : PksAccountInfo)
      → get_pks_account_info org vc cache ≡ ok (some info)
      → (names : List String) × (lookup org (orgs_table c.orgs []) ≡ some names)
        × (elem info.account_name names ≡ true)
        × (info.vc ≡ vc)
  unfolding get_pks_account_info lookup
  get_pks_account_info-allotted org vc info h =
      let m = init-Made query c cache made in
      elim (Option-cases cache.vc_org_to_pks_info_mapper) [
        | inl p ↦ absurd (let q = rw (exclusive, p) at h in cc)
        | inr (x, p) ↦
            let (names, l, g) =
              mapper-Granted cache.pks_account_info_table cache.orgs_to_pks_account_mapper x org vc
                info (mapper_made ∙ ap ok p) (ok-injective (rw (exclusive, p) at h)) in
            let kept =
              account_names-Kept m.servers c.pks_accounts [] cache.pks_account_info_table g.account
                info (λ y q. absurd cc) m.accounts g.entry in
            (names, rw m.orgs l, rw kept g.allotted, g.vcenter)
      ]

  -- Only the first org of the table gets an account: for every other org the lookup gives None,
  -- whatever accounts the configuration gives to it.
  pub get_pks_account_info-later :
      (first : String) (names : List String) (rest : Dict (List String)) (org vc : String)
      → orgs_table c.orgs [] ≡ (first, names) ∷ rest
      → first ≢ org
      → get_pks_account_info org vc cache ≡ ok none
  unfolding get_pks_account_info
  get_pks_account_info-later first names rest org vc shape differs =
      let m = init-Made query c cache made in
      let (x, p, only) =
        mapper-first cache.pks_account_info_table first names rest cache.vc_org_to_pks_info_mapper (
          ap (construct_vc_org_to_pks_info_mapper cache.pks_account_info_table) (sym shape ∙ m.orgs)
          ∙ mapper_made) in
      elim (Option-cases (lookup_pair (org, vc) x)) [
        | inl q ↦ rw (exclusive, p, q)
        | inr (info, q) ↦ absurd (differs (only org vc info q).0)
      ]
