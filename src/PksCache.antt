-- ===== src/PksCache.antt =====
-- container_service_extension/server/pks/pks_cache.py: the tables of the PKS accounts, servers and
-- provider vDCs. The configuration's dictionaries are records here, and a parameter stands for
-- what vCloud Director answers to the query of a provider vDC in `get_pvdc_id_from_pvdc_name` of
-- common/utils/pyvcloud_utils.py.
pub mod Construction
pub mod Isolation
pub mod Accounts
mod Tests
use container_service_extens.Common.{
  ℕ, String, Bool, true, false, ◌&&◌, Option, none, some, List, [], ◌∷◌, ◌==◌, if◌then◌else◌,
  Result, ok, err, ◌>>=◌,
}
use container_service_extens.Common.Dict.{Dict, lookup, insert, values}
use container_service_extens.Common.Text.{split}

pub record PksServer : Type 0 where
  pub name : String
  pub vc : String
  pub datacenter : String
  pub cpi : String
  pub host : String
  pub port : ℕ
  pub verify : Bool
  pub uaac_port : ℕ
  pub proxy : Option String

pub record NsxtServer : Type 0 where
  pub name : String
  pub pks_api_server : String
  pub host : String

pub record PksAccount : Type 0 where
  pub name : String
  pub username : String
  pub secret : String
  pub pks_api_server : String

pub record Pvdc : Type 0 where
  pub name : String
  pub cluster : String
  pub pks_api_server : String

pub record Org : Type 0 where
  pub name : String
  pub pks_accounts : List String

pub record Config : Type 0 where
  pub pks_servers : List PksServer
  pub pks_accounts : List PksAccount
  pub pvdcs : List Pvdc
  pub orgs : List Org
  pub nsxt_servers : List NsxtServer

pub record Credentials : Type 0 where
  pub username : String
  pub secret : String

pub record PvdcInfo : Type 0 where
  pub pvdc_name : String
  pub vc : String
  pub datacenter : String
  pub cluster : String
  pub cpi : String

pub record PksAccountInfo : Type 0 where
  pub account_name : String
  pub host : String
  pub port : ℕ
  pub verify : Bool
  pub uaac_port : ℕ
  pub credentials : Credentials
  pub vc : String
  pub proxy : String

-- The exceptions: a missing key, None used as a dictionary, and one of vCloud Director.
pub data CacheError : Type 0 where
  key_error : String → CacheError
  none_used remote_error : CacheError

-- What vCloud Director answers to the query of a provider vDC by its name and its vCenter: the hrefs of
-- the records, or an exception on the way to them.
abbrev pub Query : Type 0
Query = String → String → Result CacheError (List String)

-- A dictionary whose keys are pairs of texts, here (org name, vc name).
abbrev pub PairDict : Type 0 → Type 0
PairDict V = List ((String × String) × V)

abbrev pub pair_eq : String × String → String × String → Bool
pair_eq (a, b) (c, d) = a == c && b == d

unfoldable pub lookup_pair : String × String → PairDict PksAccountInfo → Option PksAccountInfo
lookup_pair k [] = none
lookup_pair k ((j, v) ∷ d) = if pair_eq j k then some v else lookup_pair k d

unfoldable pub insert_pair :
    String × String → PksAccountInfo → PairDict PksAccountInfo → PairDict PksAccountInfo
insert_pair k v [] = (k, v) ∷ []
insert_pair k v ((j, w) ∷ d) = if pair_eq j k then (j, v) ∷ d else (j, w) ∷ insert_pair k v d

pub record PksCache : Type 0 where
  pub orgs_have_exclusive_pks_account : Bool
  pub orgs_to_pks_account_mapper : Dict (List String)
  pub pks_servers_table : Dict PksServer
  pub vc_to_nsxt_server_mapper : Dict NsxtServer
  pub pvdc_info_table : Dict PvdcInfo
  pub pks_account_info_table : Dict PksAccountInfo
  pub vc_to_pks_info_mapper : Dict PksAccountInfo
  -- None if the method that makes it falls off its loop.
  pub vc_org_to_pks_info_mapper : Option (PairDict PksAccountInfo)

-- `d[k]`, and `d.get(k)` used as a dictionary.
unfoldable pub item {ℓ} : {V : Type ℓ} → CacheError → Option V → Result CacheError V
item e none = err e
item e (some v) = ok v

unfoldable pub orgs_table : List Org → Dict (List String) → Dict (List String)
orgs_table [] d = d
orgs_table (o ∷ os) d = orgs_table os (insert o.name o.pks_accounts d)

unfoldable pub servers_table : List PksServer → Dict PksServer → Dict PksServer
servers_table [] d = d
servers_table (s ∷ ss) d = servers_table ss (insert s.name s d)

unfoldable pub nsxt_mapper :
    Dict PksServer → List NsxtServer → Dict NsxtServer → Result CacheError (Dict NsxtServer)
unfolding item
nsxt_mapper servers [] d = ok d
nsxt_mapper servers (n ∷ ns) d = do
  s ← item (key_error n.pks_api_server) (lookup n.pks_api_server servers)
  nsxt_mapper servers ns (insert s.vc n d)

last_token : List String → String
last_token [] = ""
last_token (t ∷ []) = t
last_token (t ∷ u ∷ ts) = last_token (u ∷ ts)

id_of_first : List String → Option String
unfolding last_token
id_of_first [] = none
id_of_first (href ∷ hrefs) = some (last_token (split b'/' href))

-- None where there is no such provider vDC.
unfoldable pub get_pvdc_id_from_pvdc_name :
    Query → String → String → Result CacheError (Option String)
unfolding id_of_first
get_pvdc_id_from_pvdc_name query name vc = do hrefs ← query name vc; ok (id_of_first hrefs)

-- `str(pvdc_id)`
abbrev text_of : Option String → String
text_of none = "None"
text_of (some s) = s

module _ (query : Query) where
  unfoldable pub construct_pvdc_info_table :
      Dict PksServer → List Pvdc → Dict PvdcInfo → Result CacheError (Dict PvdcInfo)
  unfolding item get_pvdc_id_from_pvdc_name
  construct_pvdc_info_table servers [] d = ok d
  construct_pvdc_info_table servers (p ∷ ps) d = do
    s ← item none_used (lookup p.pks_api_server servers)
    pvdc_id ← get_pvdc_id_from_pvdc_name query p.name s.vc
    construct_pvdc_info_table servers ps (
        insert (text_of pvdc_id)
          (record {
            pvdc_name = p.name;
            vc = s.vc;
            datacenter = s.datacenter;
            cluster = p.cluster;
            cpi = s.cpi;
          })
          d)

or_empty : Option String → String
or_empty none = ""
or_empty (some s) = s

unfoldable pub account_info : PksAccount → PksServer → PksAccountInfo
unfolding or_empty
account_info a s = record {
  account_name = a.name;
  host = s.host;
  port = s.port;
  verify = s.verify;
  uaac_port = s.uaac_port;
  credentials = record { username = a.username; secret = a.secret };
  vc = s.vc;
  proxy = or_empty s.proxy;
}

unfoldable pub construct_pks_account_info_table :
    Dict PksServer → List PksAccount → Dict PksAccountInfo → Result CacheError (Dict PksAccountInfo)
unfolding item
construct_pks_account_info_table servers [] d = ok d
construct_pks_account_info_table servers (a ∷ as') d = do
  s ← item none_used (lookup a.pks_api_server servers)
  construct_pks_account_info_table servers as' (insert a.name (account_info a s) d)

unfoldable pub construct_vc_to_pks_info_mapper :
    List PksAccountInfo → Dict PksAccountInfo → Dict PksAccountInfo
construct_vc_to_pks_info_mapper [] d = d
construct_vc_to_pks_info_mapper (i ∷ is) d = construct_vc_to_pks_info_mapper is (insert i.vc i d)

-- The inner loop of `_construct_vc_org_to_pks_info_mapper`, for one org.
unfoldable pub org_accounts :
    Dict PksAccountInfo
    → String
    → List String
    → PairDict PksAccountInfo
    → Result CacheError (PairDict PksAccountInfo)
unfolding item
org_accounts table org [] d = ok d
org_accounts table org (a ∷ as') d = do
  i ← item (key_error a) (lookup a table)
  org_accounts table org as' (insert_pair (org, i.vc) i d)

-- Its `return` stands inside the outer loop, which is left after the first org.
unfoldable pub construct_vc_org_to_pks_info_mapper :
    Dict PksAccountInfo → Dict (List String) → Result CacheError (Option (PairDict PksAccountInfo))
unfolding org_accounts
construct_vc_org_to_pks_info_mapper table [] = ok none
construct_vc_org_to_pks_info_mapper table ((org, accounts) ∷ rest) = do
  d ← org_accounts table org accounts []
  ok (some d)

-- The tables of a system with orgs, and of one without.
unfoldable pub org_tables :
    List Org
    → Dict PksAccountInfo
    → Dict (List String)
    → Result CacheError (Bool × Dict PksAccountInfo × Option (PairDict PksAccountInfo))
unfolding construct_vc_org_to_pks_info_mapper construct_vc_to_pks_info_mapper
org_tables [] accounts orgs =
    ok (false, construct_vc_to_pks_info_mapper (values accounts) [], some [])
org_tables (o ∷ os) accounts orgs = do
  m ← construct_vc_org_to_pks_info_mapper accounts orgs
  ok (true, [], m)

-- `PksCache.__init__`
unfoldable pub init : Query → Config → Result CacheError PksCache
unfolding nsxt_mapper construct_pvdc_info_table construct_pks_account_info_table
init query c = do
  nsxt ← nsxt_mapper (servers_table c.pks_servers []) c.nsxt_servers []
  pvdcs ← construct_pvdc_info_table query (servers_table c.pks_servers []) c.pvdcs []
  accounts ← construct_pks_account_info_table (servers_table c.pks_servers []) c.pks_accounts []
  mappers ← org_tables c.orgs accounts (orgs_table c.orgs [])
  ok (record {
    orgs_have_exclusive_pks_account = mappers.0;
    orgs_to_pks_account_mapper = orgs_table c.orgs [];
    pks_servers_table = servers_table c.pks_servers [];
    vc_to_nsxt_server_mapper = nsxt;
    pvdc_info_table = pvdcs;
    pks_account_info_table = accounts;
    vc_to_pks_info_mapper = mappers.1;
    vc_org_to_pks_info_mapper = mappers.2;
  })

unfoldable pub get_pvdc_info : String → PksCache → Option PvdcInfo
get_pvdc_info pvdc_id c = lookup pvdc_id c.pvdc_info_table

unfoldable pub get_nsxt_info : String → PksCache → Option NsxtServer
get_nsxt_info vc c = lookup vc c.vc_to_nsxt_server_mapper

exclusive_account :
    String × String → Option (PairDict PksAccountInfo) → Result CacheError (Option PksAccountInfo)
exclusive_account k none = err none_used
exclusive_account k (some d) = ok (lookup_pair k d)

unfoldable pub get_pks_account_info :
    String → String → PksCache → Result CacheError (Option PksAccountInfo)
unfolding exclusive_account
get_pks_account_info org_name vc_name c =
    if c.orgs_have_exclusive_pks_account
    then exclusive_account (org_name, vc_name) c.vc_org_to_pks_info_mapper
    else ok (lookup vc_name c.vc_to_pks_info_mapper)

unfoldable pub account_infos :
    Dict PksAccountInfo → List String → Result CacheError (List PksAccountInfo)
unfolding item
account_infos table [] = ok []
account_infos table (a ∷ as') = do
  i ← item (key_error a) (lookup a table)
  is ← account_infos table as'
  ok (i ∷ is)

infos_of : Dict PksAccountInfo → Option (List String) → Result CacheError (List PksAccountInfo)
unfolding account_infos
infos_of table none = ok []
infos_of table (some names) = account_infos table names

unfoldable pub get_exclusive_pks_accounts_info_for_org :
    String → PksCache → Result CacheError (List PksAccountInfo)
unfolding infos_of
get_exclusive_pks_accounts_info_for_org org_name c =
    infos_of c.pks_account_info_table (lookup org_name c.orgs_to_pks_account_mapper)

unfoldable pub get_all_pks_account_info_in_system : PksCache → List PksAccountInfo
get_all_pks_account_info_in_system c = values c.pks_account_info_table
