-- ===== src/Dispatcher/Table/Legacy.antt =====
-- container_service_extension/server/request_dispatcher.py: LEGACY_CLUSTER_HANDLERS,
-- LEGACY_NATIVE_CLUSTER_HANDLERS and LEGACY_NODE_HANDLERS.
use container_service_extens.Common.{List, [], ◌∷◌}
use container_service_extens.Dispatcher.Operations.{Operation}
use container_service_extens.Dispatcher.Entries.{Entry, get, post, put, delete, entry, read, write}

unfoldable pub legacy_cluster_handlers : List Entry
unfolding entry read write
legacy_cluster_handlers =
    entry "cse/clusters" (
      (
        get,
        ((
          ("33.0" ∷ "34.0" ∷ []),
          read ("org_name" ∷ "ovdc_name" ∷ []) ([]) Operation.cluster_list "native_cluster_handler"
              "cluster_list" ("legacy_api" ∷ []),
        )
            ∷ []),
      )
      ∷ (
        post,
        ((
          ("33.0" ∷ "34.0" ∷ []),
          write ([]) Operation.cluster_create "native_cluster_handler" "cluster_create"
              ("legacy_api" ∷ []),
        )
            ∷ []),
      )
      ∷ [])
    ∷ entry "cse/cluster/$cluster_name" (
        (
          get,
          ((
            ("33.0" ∷ "34.0" ∷ []),
            read ("org_name" ∷ "ovdc_name" ∷ []) ([]) Operation.cluster_info
                "native_cluster_handler" "cluster_info" ("legacy_api" ∷ []),
          )
              ∷ []),
        )
        ∷ (
          put,
          ((
            ("33.0" ∷ "34.0" ∷ []),
            write ([]) Operation.cluster_resize "native_cluster_handler" "cluster_resize"
                ("legacy_api" ∷ []),
          )
              ∷ []),
        )
        ∷ (
          delete,
          ((
            ("33.0" ∷ "34.0" ∷ []),
            read ("org_name" ∷ "ovdc_name" ∷ []) ([]) Operation.cluster_delete
                "native_cluster_handler" "cluster_delete" ("legacy_api" ∷ []),
          )
              ∷ []),
        )
        ∷ [])
    ∷ entry "cse/cluster/$cluster_name/config" (
        (
          get,
          ((
            ("33.0" ∷ "34.0" ∷ []),
            read ("org_name" ∷ "ovdc_name" ∷ []) ([]) Operation.cluster_config
                "native_cluster_handler" "cluster_config" ("legacy_api" ∷ []),
          )
              ∷ []),
        )
        ∷ [])
    ∷ entry "cse/cluster/$cluster_name/upgrade-plan" (
        (
          get,
          ((
            ("33.0" ∷ "34.0" ∷ []),
            read ("org_name" ∷ "ovdc_name" ∷ []) ([]) Operation.cluster_upgrade_plan
                "native_cluster_handler" "cluster_upgrade_plan" ("legacy_api" ∷ []),
          )
              ∷ []),
        )
        ∷ [])
    ∷ entry "cse/cluster/$cluster_name/action/upgrade" (
        (
          post,
          ((
            ("33.0" ∷ "34.0" ∷ []),
            write ([]) Operation.cluster_upgrade "native_cluster_handler" "cluster_upgrade"
                ("legacy_api" ∷ []),
          )
              ∷ []),
        )
        ∷ [])
    ∷ []

unfoldable pub legacy_native_cluster_handlers : List Entry
unfolding entry read write
legacy_native_cluster_handlers =
    entry "cse/nativeclusters" (
      (
        get,
        ((
          ("33.0" ∷ "34.0" ∷ []),
          read ("org_name" ∷ "ovdc_name" ∷ "pageSize" ∷ "page" ∷ []) ([])
              Operation.native_cluster_list "native_cluster_handler" "native_cluster_list"
              ("legacy_api" ∷ []),
        )
            ∷ []),
      )
      ∷ [])
    ∷ []

unfoldable pub legacy_node_handlers : List Entry
unfolding entry read write
legacy_node_handlers =
    entry "cse/nodes" (
      (
        post,
        ((
          ("33.0" ∷ "34.0" ∷ []),
          write ([]) Operation.node_create "native_cluster_handler" "node_create"
              ("legacy_api" ∷ []),
        )
            ∷ []),
      )
      ∷ (
        delete,
        ((
          ("33.0" ∷ "34.0" ∷ []),
          write ([]) Operation.node_delete "native_cluster_handler" "node_delete"
              ("legacy_api" ∷ []),
        )
            ∷ []),
      )
      ∷ [])
    ∷ entry "cse/node/$node_name" (
        (
          get,
          ((
            ("33.0" ∷ "34.0" ∷ []),
            read ("cluster_name" ∷ "org_name" ∷ "ovdc_name" ∷ []) ("cluster_name" ∷ [])
                Operation.node_info "native_cluster_handler" "node_info" ("legacy_api" ∷ []),
          )
              ∷ []),
        )
        ∷ [])
    ∷ []
