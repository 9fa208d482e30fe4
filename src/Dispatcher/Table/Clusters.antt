-- ===== src/Dispatcher/Table/Clusters.antt =====
-- container_service_extension/server/request_dispatcher.py: CLUSTER_HANDLERS, in two halves.
use container_service_extens.Common.{List, [], ◌∷◌, ◌++◌}
use container_service_extens.Dispatcher.Operations.{Operation}
use container_service_extens.Dispatcher.Entries.{Entry, get, post, put, delete, entry, read, write}

unfoldable pub cluster_collection_handlers : List Entry
unfolding entry read write
cluster_collection_handlers =
    entry "cse/3.0/clusters" (
      (
        get,
        ((
          ("35.0" ∷ []),
          read ([]) ([]) Operation.v35_cluster_list "v35_cluster_handler" "cluster_list"
              ("non_legacy_api" ∷ []),
        )
            ∷ (
              ("36.0" ∷ []),
              read ([]) ([]) Operation.v36_cluster_list "cluster_handler" "cluster_list"
                  ("non_legacy_api" ∷ []),
            )
            ∷ []),
      )
      ∷ (
        post,
        ((
          ("35.0" ∷ []),
          write ([]) Operation.v35_cluster_create "v35_cluster_handler" "cluster_create"
              ("non_legacy_api" ∷ []),
        )
            ∷ (
              ("36.0" ∷ []),
              write ([]) Operation.v36_cluster_create "cluster_handler" "cluster_create"
                  ("non_legacy_api" ∷ []),
            )
            ∷ []),
      )
      ∷ [])
    ∷ entry "cse/3.0/nativeclusters" (
        (
          get,
          ((
            ("36.0" ∷ []),
            read ("org_name" ∷ "ovdc_name" ∷ "pageSize" ∷ "page" ∷ []) ([])
                Operation.v36_native_cluster_list "cluster_handler" "native_cluster_list"
                ("non_legacy_api" ∷ []),
          )
              ∷ []),
        )
        ∷ [])
    ∷ entry "cse/3.0/cluster/$cluster_id" (
        (
          get,
          ((
            ("35.0" ∷ []),
            read ([]) ([]) Operation.v35_cluster_info "v35_cluster_handler" "cluster_info"
                ("non_legacy_api" ∷ []),
          )
              ∷ (
                ("36.0" ∷ []),
                read ([]) ([]) Operation.v36_cluster_info "cluster_handler" "cluster_info"
                    ("non_legacy_api" ∷ []),
              )
              ∷ []),
        )
        ∷ (
          put,
          ((
            ("35.0" ∷ []),
            write ([]) Operation.v35_cluster_resize "v35_cluster_handler" "cluster_resize"
                ("non_legacy_api" ∷ []),
          )
              ∷ (
                ("36.0" ∷ []),
                write ([]) Operation.v36_cluster_update "cluster_handler" "cluster_update"
                    ("non_legacy_api" ∷ []),
              )
              ∷ []),
        )
        ∷ (
          delete,
          ((
            ("35.0" ∷ []),
            read ([]) ([]) Operation.v35_cluster_delete "v35_cluster_handler" "cluster_delete"
                ("non_legacy_api" ∷ []),
          )
              ∷ (
                ("36.0" ∷ []),
                read ([]) ([]) Operation.v36_cluster_delete "cluster_handler" "cluster_delete"
                    ("non_legacy_api" ∷ []),
              )
              ∷ []),
        )
        ∷ [])
    ∷ entry "cse/3.0/cluster/$cluster_id/config" (
        (
          get,
          ((
            ("35.0" ∷ []),
            read ([]) ([]) Operation.v35_cluster_config "v35_cluster_handler" "cluster_config"
                ("non_legacy_api" ∷ []),
          )
              ∷ (
                ("36.0" ∷ []),
                read ([]) ([]) Operation.v36_cluster_config "cluster_handler" "cluster_config"
                    ("non_legacy_api" ∷ []),
              )
              ∷ []),
        )
        ∷ [])
    ∷ []

unfoldable pub cluster_action_handlers : List Entry
unfolding entry read write
cluster_action_handlers =
    entry "cse/3.0/cluster/$cluster_id/upgrade-plan" (
      (
        get,
        ((
          ("35.0" ∷ []),
          read ([]) ([]) Operation.v35_cluster_upgrade_plan "v35_cluster_handler"
              "cluster_upgrade_plan" ("non_legacy_api" ∷ []),
        )
            ∷ (
              ("36.0" ∷ []),
              read ([]) ([]) Operation.v36_cluster_upgrade_plan "cluster_handler"
                  "cluster_upgrade_plan" ("non_legacy_api" ∷ []),
            )
            ∷ []),
      )
      ∷ [])
    ∷ entry "cse/3.0/cluster/$cluster_id/action/upgrade" (
        (
          post,
          ((
            ("35.0" ∷ []),
            write ([]) Operation.v35_cluster_upgrade "v35_cluster_handler" "cluster_upgrade"
                ("non_legacy_api" ∷ []),
          )
              ∷ []),
        )
        ∷ [])
    ∷ entry "cse/3.0/cluster/$cluster_id/action/force-delete" (
        (
          post,
          ((
            ("36.0" ∷ []),
            write ([]) Operation.v36_cluster_force_delete "cluster_handler" "cluster_force_delete"
                ("non_legacy_api" ∷ []),
          )
              ∷ []),
        )
        ∷ [])
    ∷ entry "cse/3.0/cluster/$cluster_id/nfs/$node_name" (
        (
          delete,
          ((
            ("35.0" ∷ []),
            read ([]) ([]) Operation.v35_node_delete "v35_cluster_handler" "nfs_node_delete"
                ("non_legacy_api" ∷ []),
          )
              ∷ (
                ("36.0" ∷ []),
                read ([]) ([]) Operation.v36_node_delete "cluster_handler" "nfs_node_delete"
                    ("non_legacy_api" ∷ []),
              )
              ∷ []),
        )
        ∷ [])
    ∷ entry "cse/3.0/cluster/$cluster_id/acl" (
        (
          get,
          ((
            ("35.0" ∷ []),
            read ([]) ([]) Operation.v35_cluster_acl_list "v35_cluster_handler" "cluster_acl_info"
                ("non_legacy_api" ∷ []),
          )
              ∷ (
                ("36.0" ∷ []),
                read ([]) ([]) Operation.v36_cluster_acl_list "cluster_handler" "cluster_acl_info"
                    ("non_legacy_api" ∷ []),
              )
              ∷ []),
        )
        ∷ (
          put,
          ((
            ("35.0" ∷ []),
            write ([]) Operation.v35_cluster_acl_update "v35_cluster_handler" "cluster_acl_update"
                ("non_legacy_api" ∷ []),
          )
              ∷ (
                ("36.0" ∷ []),
                write ([]) Operation.v36_cluster_acl_update "cluster_handler" "cluster_acl_update"
                    ("non_legacy_api" ∷ []),
              )
              ∷ []),
        )
        ∷ [])
    ∷ []

unfoldable pub cluster_handlers : List Entry
unfolding cluster_collection_handlers cluster_action_handlers
cluster_handlers = cluster_collection_handlers ++ cluster_action_handlers
