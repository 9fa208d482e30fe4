-- ===== src/Dispatcher/Table.antt =====
-- container_service_extension/server/request_dispatcher.py: CSE_REQUEST_DISPATCHER_LIST.
pub mod System
pub mod Pks
pub mod Legacy
pub mod LegacyOvdc
pub mod Clusters
pub mod Ovdc
pub mod Versions
use container_service_extens.Common.{List, ◌++◌}
use container_service_extens.Dispatcher.Entries.{Entry}
use System.{system_handlers, template_handlers}
use Pks.{pks_handlers}
use Legacy.{legacy_cluster_handlers, legacy_native_cluster_handlers, legacy_node_handlers}
use LegacyOvdc.{legacy_ovdc_handlers, legacy_org_vdc_handlers}
use Clusters.{cluster_handlers}
use Ovdc.{ovdc_handlers, org_vdc_handlers}

unfoldable pub cse_request_dispatcher_list : List Entry
unfolding system_handlers template_handlers pks_handlers legacy_cluster_handlers
    legacy_native_cluster_handlers legacy_node_handlers legacy_ovdc_handlers legacy_org_vdc_handlers
    cluster_handlers ovdc_handlers org_vdc_handlers
cse_request_dispatcher_list =
    system_handlers
    ++ (template_handlers
        ++ (pks_handlers
            ++ (legacy_cluster_handlers
                ++ (legacy_native_cluster_handlers
                    ++ (legacy_node_handlers
                        ++ (legacy_ovdc_handlers
                            ++ (legacy_org_vdc_handlers
                                ++ (cluster_handlers ++ (ovdc_handlers ++ org_vdc_handlers)))))))))
