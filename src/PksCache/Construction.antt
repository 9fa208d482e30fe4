-- ===== src/PksCache/Construction.antt =====
-- The construction of the tables of PksCache: it succeeds when every reference of the configuration
-- is to something that the configuration has.
use container_service_extens.Common.{
  String, ◌≡◌, refl, true, ◌⊎◌, none, some, List, [], ◌∷◌, ◌==◌, eq_iff, All, elem, Result, ok,
  ◌>>=◌, arith, Bool-cases, ◌∙◌, subst, inl, inr,
}
use container_service_extens.Common.Dict.{Dict, lookup, insert, lookup-insert}
use container_service_extens.PksCache.{
  Query, get_pvdc_id_from_pvdc_name, PksServer, NsxtServer, PksAccount, Pvdc, Org, Config,
  PksAccountInfo, PvdcInfo, PairDict, CacheError, servers_table, nsxt_mapper,
  construct_pvdc_info_table, construct_pks_account_info_table, org_accounts,
  construct_vc_org_to_pks_info_mapper, orgs_table, org_tables, insert_pair, account_info, init,
}

-- A key of the dictionary.
abbrev pub Has {ℓ} : {V : Type ℓ} → Dict V → String → Type ℓ
Has {V = V} d k = (v : V) × (lookup k d ≡ some v)

Has-insert_self {ℓ} : {V : Type ℓ} (k : String) (v : V) (d : Dict V) → Has (insert k v d) k
Has-insert_self k v d = (v, ground (arith, lookup-insert k k v d, eq_iff k k))

Has-insert {ℓ} : {V : Type ℓ} (j k : String) (v : V) (d : Dict V) → Has d j → Has (insert k v d) j
Has-insert j k v d (w, p) = elim (Bool-cases (k == j)) [
  | inl e ↦ (v, lookup-insert j k v d ∙ rw e)
  | inr e ↦ (w, lookup-insert j k v d ∙ rw e p)
]

-- The names that a list of a configuration declares.
abbrev pub server_names : List PksServer → List String
server_names [] = []
server_names (s ∷ ss) = s.name ∷ server_names ss

abbrev pub account_names : List PksAccount → List String
account_names [] = []
account_names (a ∷ as') = a.name ∷ account_names as'

servers_table-Has :
    (k : String) (ss : List PksServer) (d : Dict PksServer)
    → Has d k ⊎ (elem k (server_names ss) ≡ true)
    → Has (servers_table ss d) k
unfolding servers_table
servers_table-Has k [] d (inl h) = h
servers_table-Has k [] d (inr e) = absurd cc
servers_table-Has k (s ∷ ss) d (inl h) =
    servers_table-Has k ss (insert s.name s d) (inl (Has-insert k s.name s d h))
servers_table-Has k (s ∷ ss) d (inr e) = elim (Bool-cases (s.name == k)) [
  | inl p ↦
      servers_table-Has k ss (insert s.name s d)
        (inl (subst (Has (insert s.name s d)) ((eq_iff s.name k).0 p) (Has-insert_self s.name s d)))
  | inr p ↦ servers_table-Has k ss (insert s.name s d) (inr (rw p at e))
]

-- Some value comes out.
abbrev pub Succeeds {ℓ} : {A : Type ℓ} → Result CacheError A → Type ℓ
Succeeds {A = A} r = (a : A) × (r ≡ ok a)

Succeeds-bind {ℓ κ} :
    {A : Type ℓ} {B : Type κ} (r : Result CacheError A) (f : A → Result CacheError B) (a : A)
    → r ≡ ok a
    → Succeeds (f a)
    → Succeeds (r >>= f)
Succeeds-bind r f a p (b, q) = (b, rw p q)

nsxt_mapper-Succeeds :
    (servers : Dict PksServer) (ns : List NsxtServer) (d : Dict NsxtServer)
    → All (λ n. Has servers n.pks_api_server) ns
    → Succeeds (nsxt_mapper servers ns d)
unfolding nsxt_mapper
nsxt_mapper-Succeeds servers [] d h = (d, refl)
nsxt_mapper-Succeeds servers (n ∷ ns) d ((s, p), h) =
    rw p (nsxt_mapper-Succeeds servers ns (insert s.vc n d) h)

construct_pvdc_info_table-Succeeds :
    (query : Query) (servers : Dict PksServer) (ps : List Pvdc) (d : Dict PvdcInfo)
    → All (λ p. Has servers p.pks_api_server) ps
    → All (λ p. (vc : String) → Succeeds (query p.name vc)) ps
    → Succeeds (construct_pvdc_info_table query servers ps d)
unfolding construct_pvdc_info_table get_pvdc_id_from_pvdc_name
construct_pvdc_info_table-Succeeds query servers [] d h a = (d, refl)
construct_pvdc_info_table-Succeeds query servers (n ∷ ns) d ((s, p), h) (q, a) =
    let (hrefs, e) = q s.vc in rw (p, e) (construct_pvdc_info_table-Succeeds query servers ns _ h a)

accounts_step :
    (a : PksAccount) (as' : List PksAccount) (i : PksAccountInfo) (d : Dict PksAccountInfo)
    (k : String)
    → Has d k ⊎ (elem k (account_names (a ∷ as')) ≡ true)
    → Has (insert a.name i d) k ⊎ (elem k (account_names as') ≡ true)
accounts_step a as' i d k (inl h) = inl (Has-insert k a.name i d h)
accounts_step a as' i d k (inr e) = elim (Bool-cases (a.name == k)) [
  | inl p ↦
      inl (subst (Has (insert a.name i d)) ((eq_iff a.name k).0 p) (Has-insert_self a.name i d))
  | inr p ↦ inr (rw p at e)
]

accounts_done :
    (d : Dict PksAccountInfo) (k : String) → Has d k ⊎ (elem k (account_names []) ≡ true) → Has d k
accounts_done d k (inl h) = h
accounts_done d k (inr e) = absurd cc

-- Every account of the list has its entry in the table that comes out.
accounts-Succeeds :
    (servers : Dict PksServer) (as' : List PksAccount) (d : Dict PksAccountInfo)
    → All (λ a. Has servers a.pks_api_server) as'
    → (t : Dict PksAccountInfo) × (construct_pks_account_info_table servers as' d ≡ ok t)
      × ((k : String) → Has d k ⊎ (elem k (account_names as') ≡ true) → Has t k)
unfolding construct_pks_account_info_table
accounts-Succeeds servers [] d h = (d, refl, accounts_done d)
accounts-Succeeds servers (a ∷ as') d ((s, p), h) =
    let (t, e, has) = accounts-Succeeds servers as' (insert a.name (account_info a s) d) h in
    (t, rw p e, λ k x. has k (accounts_step a as' (account_info a s) d k x))

org_accounts-Succeeds :
    (table : Dict PksAccountInfo) (org : String) (names : List String) (d : PairDict PksAccountInfo)
    → All (Has table) names
    → Succeeds (org_accounts table org names d)
unfolding org_accounts
org_accounts-Succeeds table org [] d h = (d, refl)
org_accounts-Succeeds table org (a ∷ as') d ((i, p), h) =
    rw p (org_accounts-Succeeds table org as' (insert_pair (org, i.vc) i d) h)

-- What holds of every value of a dictionary.
abbrev AllValues {ℓ κ} : {V : Type ℓ} → (V → Type κ) → Dict V → Type κ
AllValues P d = All (λ x. P x.1) d

AllValues-insert {ℓ κ} :
    {V : Type ℓ} (P : V → Type κ) (k : String) (v : V) (d : Dict V)
    → AllValues P d
    → P v
    → AllValues P (insert k v d)
unfolding insert
AllValues-insert P k v [] h p = (p, tt)
AllValues-insert P k v ((j, w) ∷ d) (q, h) p = elim (Bool-cases (j == k)) [
  | inl e ↦ rw e (p, h)
  | inr e ↦ rw e (q, AllValues-insert P k v d h p)
]

orgs_table-All {κ} :
    (P : List String → Type κ) (os : List Org) (d : Dict (List String))
    → All (λ o. P o.pks_accounts) os
    → AllValues P d
    → AllValues P (orgs_table os d)
unfolding orgs_table
orgs_table-All P [] d h k = k
orgs_table-All P (o ∷ os) d (p, h) k =
    orgs_table-All P os (insert o.name o.pks_accounts d) h
      (AllValues-insert P o.name o.pks_accounts d k p)

mapper-Succeeds :
    (table : Dict PksAccountInfo) (orgs : Dict (List String))
    → AllValues (All (Has table)) orgs
    → Succeeds (construct_vc_org_to_pks_info_mapper table orgs)
unfolding construct_vc_org_to_pks_info_mapper
mapper-Succeeds table [] h = (none, refl)
mapper-Succeeds table ((org, names) ∷ rest) (p, h) =
    let (d, e) = org_accounts-Succeeds table org names [] p in (some d, rw e)

org_tables-Succeeds :
    (os : List Org) (table : Dict PksAccountInfo) (orgs : Dict (List String))
    → AllValues (All (Has table)) orgs
    → Succeeds (org_tables os table orgs)
unfolding org_tables
org_tables-Succeeds [] table orgs h = (_, refl)
org_tables-Succeeds (o ∷ os) table orgs h =
    let (m, e) = mapper-Succeeds table orgs h in ((true, [], m), rw e)

-- Every server and every account that the configuration refers to is one that it declares.
abbrev Known : List String → String → Type 0
Known names k = elem k names ≡ true

pub record IsClosed (c : Config) : Type 0 where
  pub nsxt : All (λ n. Known (server_names c.pks_servers) n.pks_api_server) c.nsxt_servers
  pub provider_vdcs : All (λ p. Known (server_names c.pks_servers) p.pks_api_server) c.pvdcs
  pub accounts : All (λ a. Known (server_names c.pks_servers) a.pks_api_server) c.pks_accounts
  pub orgs : All (λ o. All (Known (account_names c.pks_accounts)) o.pks_accounts) c.orgs

All-map {ℓ κ ι} :
    {A : Type ℓ} (P : A → Type κ) (Q : A → Type ι) (f : (a : A) → P a → Q a) (xs : List A)
    → All P xs
    → All Q xs
All-map P Q f [] h = tt
All-map P Q f (x ∷ xs) (p, h) = (f x p, All-map P Q f xs h)

-- The cache is made without an exception from a configuration whose references are to servers and
-- accounts that it declares, if vCloud Director answers the query for each provider vDC of it.
pub init-Succeeds :
    (query : Query) (c : Config)
    → IsClosed c
    → All (λ p. (vc : String) → Succeeds (query p.name vc)) c.pvdcs
    → Succeeds (init query c)
unfolding init
init-Succeeds query c closed answers =
    let servers = servers_table c.pks_servers [] in
    let has : (k : String) → Known (server_names c.pks_servers) k → Has servers k =
      λ k e. servers_table-Has k c.pks_servers [] (inr e) in
    let (n, p) =
      nsxt_mapper-Succeeds servers c.nsxt_servers []
        (All-map _ _ (λ x. has x.pks_api_server) c.nsxt_servers closed.nsxt) in
    let (v, q) =
      construct_pvdc_info_table-Succeeds query servers c.pvdcs []
        (All-map _ _ (λ x. has x.pks_api_server) c.pvdcs closed.provider_vdcs) answers in
    let (t, r, found) =
      accounts-Succeeds servers c.pks_accounts []
        (All-map _ _ (λ x. has x.pks_api_server) c.pks_accounts closed.accounts) in
    let (m, w) = org_tables-Succeeds c.orgs t (orgs_table c.orgs []) (
      orgs_table-All (All (Has t)) c.orgs []
        (All-map _ _ (λ o. All-map _ _ (λ k e. found k (inr e)) o.pks_accounts) c.orgs closed.orgs)
        tt) in
    Succeeds-bind _ _ n p
      (Succeeds-bind _ _ v q (Succeeds-bind _ _ t r (Succeeds-bind _ _ m w (_, refl))))
