-- ===== src/Dispatcher/Operations.antt =====
-- container_service_extension/common/constants/server_constants.py: `CseOperation`, the operations
-- that a request can ask for, with the code of the response that `process_request` sends when the
-- handler returns (requests.codes.ok is 200, accepted 202 and no_content 204).
use container_service_extens.Common.{ℕ}

pub data Operation : Type 0 where
  cluster_config cluster_create cluster_delete cluster_info native_cluster_list cluster_list :
      Operation
  cluster_resize cluster_upgrade_plan cluster_upgrade node_create node_delete node_info : Operation
  v35_cluster_config v35_cluster_create v35_cluster_delete v35_cluster_info : Operation
  v35_native_cluster_list v35_cluster_list v35_cluster_resize v35_cluster_upgrade_plan : Operation
  v35_cluster_upgrade v35_cluster_acl_list v35_cluster_acl_update v35_node_create : Operation
  v35_node_delete v35_node_info v36_cluster_create v36_cluster_list v36_native_cluster_list :
      Operation
  v36_cluster_info v36_cluster_config v36_cluster_update v36_cluster_delete : Operation
  v36_cluster_force_delete v36_cluster_upgrade_plan v36_node_delete v36_cluster_acl_list : Operation
  v36_cluster_acl_update ovdc_update ovdc_info ovdc_list org_vdc_list ovdc_compute_policy_list :
      Operation
  ovdc_compute_policy_update system_info system_server_config system_update template_list :
      Operation
  template_reload tkgm_template_list v35_ovdc_list v35_org_vdc_list v35_ovdc_info : Operation
  v35_ovdc_update v35_template_list pks_cluster_config pks_cluster_create pks_cluster_delete :
      Operation
  pks_cluster_info pks_cluster_list pks_cluster_resize pks_ovdc_list pks_org_vdc_list : Operation
  pks_ovdc_info pks_ovdc_update : Operation

unfoldable pub ideal_response_code : Operation → ℕ
ideal_response_code cluster_create = 202
ideal_response_code cluster_delete = 202
ideal_response_code cluster_resize = 202
ideal_response_code cluster_upgrade = 202
ideal_response_code node_create = 202
ideal_response_code node_delete = 202
ideal_response_code v35_cluster_create = 202
ideal_response_code v35_cluster_delete = 202
ideal_response_code v35_cluster_resize = 202
ideal_response_code v35_cluster_upgrade = 202
ideal_response_code v35_cluster_acl_update = 204
ideal_response_code v35_node_create = 202
ideal_response_code v35_node_delete = 202
ideal_response_code v36_cluster_create = 202
ideal_response_code v36_cluster_update = 202
ideal_response_code v36_cluster_delete = 202
ideal_response_code v36_cluster_force_delete = 202
ideal_response_code v36_node_delete = 202
ideal_response_code v36_cluster_acl_update = 204
ideal_response_code ovdc_update = 202
ideal_response_code template_reload = 202
ideal_response_code v35_ovdc_update = 202
ideal_response_code pks_cluster_create = 202
ideal_response_code pks_cluster_delete = 202
ideal_response_code pks_cluster_resize = 202
ideal_response_code pks_ovdc_update = 202
ideal_response_code _ = 200
