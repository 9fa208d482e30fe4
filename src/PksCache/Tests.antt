-- ===== src/PksCache/Tests.antt =====
-- A configuration with two orgs, and witnesses of the theorems on PksCache.
use container_service_extens.Common.{
  String, ◌≡◌, ◌≢◌, refl, some, none, List, [], ◌∷◌, eq_iff, true, false, elem, Result, ok, ◌<>◌,
}
use container_service_extens.Common.Dict.{lookup, insert, values}
use container_service_extens.Common.Text.{split}
use container_service_extens.PksCache.{
  CacheError, PksServer, PksAccount, Config, PksAccountInfo, PksCache, orgs_table, org_tables,
  insert_pair, lookup_pair, servers_table, account_info, get_pvdc_id_from_pvdc_name, init,
  get_pks_account_info, get_exclusive_pks_accounts_info_for_org, get_all_pks_account_info_in_system,
}
use container_service_extens.PksCache.Construction.{IsClosed, Succeeds, init-Succeeds}
use container_service_extens.PksCache.Isolation.{
  get_pks_account_info-allotted, get_pks_account_info-later,
}
use container_service_extens.PksCache.Accounts.{account_names}

abbrev server : PksServer
server = record {
  name = "pks1";
  vc = "vc1";
  datacenter = "dc";
  cpi = "cpi";
  host = "pks1.local";
  port = 9021;
  verify = true;
  uaac_port = 8443;
  proxy = none;
}

abbrev account : String → PksAccount
account n = record { name = n; username = n; secret = "s"; pks_api_server = "pks1" }

abbrev two_orgs : Config
two_orgs = record {
  pks_servers = server ∷ [];
  pks_accounts = account "acc1" ∷ account "acc2" ∷ [];
  pvdcs = record { name = "pvdc1"; cluster = "cl"; pks_api_server = "pks1" } ∷ [];
  orgs =
      record { name = "org1"; pks_accounts = "acc1" ∷ [] }
      ∷ record { name = "org2"; pks_accounts = "acc2" ∷ [] }
      ∷ [];
  nsxt_servers = record { name = "nsxt1"; pks_api_server = "pks1"; host = "nsxt.local" } ∷ [];
}

abbrev query : String → String → Result CacheError (List String)
query name vc = ok (("https://vcd.local/api/admin/extension/providervdc/" <> name) ∷ [])

abbrev info : String → PksAccountInfo
info n = record {
  account_name = n;
  host = "pks1.local";
  port = 9021;
  verify = true;
  uaac_port = 8443;
  credentials = record { username = n; secret = "s" };
  vc = "vc1";
  proxy = "";
}

abbrev cache : PksCache
cache = record {
  orgs_have_exclusive_pks_account = true;
  orgs_to_pks_account_mapper = ("org1", "acc1" ∷ []) ∷ ("org2", "acc2" ∷ []) ∷ [];
  pks_servers_table = ("pks1", server) ∷ [];
  vc_to_nsxt_server_mapper =
      ("vc1", record { name = "nsxt1"; pks_api_server = "pks1"; host = "nsxt.local" }) ∷ [];
  pvdc_info_table =
      (
        "pvdc1",
        record { pvdc_name = "pvdc1"; vc = "vc1"; datacenter = "dc"; cluster = "cl"; cpi = "cpi" },
      )
      ∷ [];
  pks_account_info_table = ("acc1", info "acc1") ∷ ("acc2", info "acc2") ∷ [];
  vc_to_pks_info_mapper = [];
  vc_org_to_pks_info_mapper = some ((("org1", "vc1"), info "acc1") ∷ []);
}

made : init query two_orgs ≡ ok cache
unfolding init get_pvdc_id_from_pvdc_name split orgs_table servers_table account_info insert lookup
    org_tables insert_pair
made = refl

all_accounts : account_names (get_all_pks_account_info_in_system cache) ≡ "acc1" ∷ "acc2" ∷ []
unfolding get_all_pks_account_info_in_system values
all_accounts = refl

first_org : get_pks_account_info "org1" "vc1" cache ≡ ok (some (info "acc1"))
unfolding get_pks_account_info lookup_pair
first_org = refl

-- The second org's account is listed for it.
second_org : get_exclusive_pks_accounts_info_for_org "org2" cache ≡ ok (info "acc2" ∷ [])
unfolding get_exclusive_pks_accounts_info_for_org lookup
second_org = refl

closed : IsClosed two_orgs
closed = record {
  nsxt = (refl, tt);
  provider_vdcs = (refl, tt);
  accounts = (refl, (refl, tt));
  orgs = ((refl, tt), ((refl, tt), tt));
}

init-Succeeds_example : Succeeds (init query two_orgs)
init-Succeeds_example = init-Succeeds query two_orgs closed ((λ vc. (_, refl)), tt)

get_pks_account_info-allotted_example :
    (names : List String) × (lookup "org1" (orgs_table two_orgs.orgs []) ≡ some names)
    × (elem "acc1" names ≡ true)
    × ((info "acc1").vc ≡ "vc1")
get_pks_account_info-allotted_example =
    get_pks_account_info-allotted query two_orgs cache made refl "org1" "vc1" (info "acc1")
      first_org

table_shape : orgs_table two_orgs.orgs [] ≡ ("org1", "acc1" ∷ []) ∷ ("org2", "acc2" ∷ []) ∷ []
unfolding orgs_table insert
table_shape = refl

false_differs : ¬ (false ≡ true)
false_differs h = cc

abbrev first_name : String
first_name = "org1"

head_differs : first_name ≢ "org2"
head_differs = λ h. false_differs ((eq_iff first_name "org2").1 h)

get_pks_account_info-later_example : get_pks_account_info "org2" "vc1" cache ≡ ok none
get_pks_account_info-later_example =
    get_pks_account_info-later query two_orgs cache made refl "org1" ("acc1" ∷ [])
      (("org2", "acc2" ∷ []) ∷ []) "org2" "vc1" table_shape head_differs
