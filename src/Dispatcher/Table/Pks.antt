-- ===== src/Dispatcher/Table/Pks.antt =====
-- container_service_extension/server/request_dispatcher.py: PKS_HANDLERS.
use container_service_extens.Common.{List, [], ◌∷◌}
use container_service_extens.Dispatcher.Operations.{Operation}
use container_service_extens.Dispatcher.Entries.{
  Entry, get, post, put, delete, entry, read, write, supported_vcd_api_versions,
}

unfoldable pub pks_handlers : List Entry
unfolding entry read write
pks_handlers =
    entry "pks/clusters" (
      (
        get,
        ((
          supported_vcd_api_versions,
          read ("org_name" ∷ "ovdc_name" ∷ []) ([]) Operation.pks_cluster_list "pks_cluster_handler"
              "cluster_list" ([]),
        )
            ∷ []),
      )
      ∷ (
        post,
        ((
          supported_vcd_api_versions,
          write ([]) Operation.pks_cluster_create "pks_cluster_handler" "cluster_create" ([]),
        )
            ∷ []),
      )
      ∷ [])
    ∷ entry "pks/cluster/$cluster_name" (
        (
          get,
          ((
            supported_vcd_api_versions,
            read ("org_name" ∷ "ovdc_name" ∷ []) ([]) Operation.pks_cluster_info
                "pks_cluster_handler" "cluster_info" ([]),
          )
              ∷ []),
        )
        ∷ (
          put,
          ((
            supported_vcd_api_versions,
            write ("org_name" ∷ "ovdc_name" ∷ []) Operation.pks_cluster_resize "pks_cluster_handler"
                "cluster_resize" ([]),
          )
              ∷ []),
        )
        ∷ (
          delete,
          ((
            supported_vcd_api_versions,
            read ("org_name" ∷ "ovdc_name" ∷ []) ([]) Operation.pks_cluster_delete
                "pks_cluster_handler" "cluster_delete" ([]),
          )
              ∷ []),
        )
        ∷ [])
    ∷ entry "pks/cluster/$cluster_name/config" (
        (
          get,
          ((
            supported_vcd_api_versions,
            read ("org_name" ∷ "ovdc_name" ∷ []) ([]) Operation.pks_cluster_config
                "pks_cluster_handler" "cluster_config" ([]),
          )
              ∷ []),
        )
        ∷ [])
    ∷ entry "pks/ovdcs" (
        (
          get,
          ((
            supported_vcd_api_versions,
            read ("list_pks_plans" ∷ []) ([]) Operation.pks_ovdc_list "pks_ovdc_handler" "ovdc_list"
                ([]),
          )
              ∷ []),
        )
        ∷ [])
    ∷ entry "pks/orgvdcs" (
        (
          get,
          ((
            supported_vcd_api_versions,
            read ("list_pks_plans" ∷ "page" ∷ "pageSize" ∷ []) ([]) Operation.pks_org_vdc_list
                "pks_ovdc_handler" "org_vdc_list" ([]),
          )
              ∷ []),
        )
        ∷ [])
    ∷ entry "pks/ovdc/$ovdc_id" (
        (
          get,
          ((
            supported_vcd_api_versions,
            read ([]) ([]) Operation.pks_ovdc_info "pks_ovdc_handler" "ovdc_info" ([]),
          )
              ∷ []),
        )
        ∷ (
          put,
          ((
            supported_vcd_api_versions,
            write ([]) Operation.pks_ovdc_update "pks_ovdc_handler" "ovdc_update" ([]),
          )
              ∷ []),
        )
        ∷ [])
    ∷ []
