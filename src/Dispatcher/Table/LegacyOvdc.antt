-- ===== src/Dispatcher/Table/LegacyOvdc.antt =====
-- container_service_extension/server/request_dispatcher.py: LEGACY_OVDC_HANDLERS and
-- LEGACY_ORG_VDC_HANDLERS.
use container_service_extens.Common.{List, [], ◌∷◌}
use container_service_extens.Dispatcher.Operations.{Operation}
use container_service_extens.Dispatcher.Entries.{Entry, get, put, entry, read, write}

unfoldable pub legacy_ovdc_handlers : List Entry
unfolding entry read write
legacy_ovdc_handlers =
    entry "cse/ovdcs" (
      (
        get,
        ((
          ("33.0" ∷ "34.0" ∷ []),
          read ([]) ([]) Operation.ovdc_list "ovdc_handler" "ovdc_list" ("legacy_api" ∷ []),
        )
            ∷ []),
      )
      ∷ [])
    ∷ entry "cse/ovdc/$ovdc_id" (
        (
          get,
          ((
            ("33.0" ∷ "34.0" ∷ []),
            read ([]) ([]) Operation.ovdc_info "ovdc_handler" "ovdc_info" ("legacy_api" ∷ []),
          )
              ∷ []),
        )
        ∷ (
          put,
          ((
            ("33.0" ∷ "34.0" ∷ []),
            write ([]) Operation.ovdc_update "ovdc_handler" "ovdc_update" ("legacy_api" ∷ []),
          )
              ∷ []),
        )
        ∷ [])
    ∷ entry "cse/ovdc/$ovdc_id/compute-policies" (
        (
          get,
          ((
            ("33.0" ∷ "34.0" ∷ []),
            read ([]) ([]) Operation.ovdc_compute_policy_list "ovdc_handler"
                "ovdc_compute_policy_list" ("legacy_api" ∷ []),
          )
              ∷ []),
        )
        ∷ (
          put,
          ((
            ("33.0" ∷ "34.0" ∷ []),
            write ([]) Operation.ovdc_compute_policy_update "ovdc_handler"
                "ovdc_compute_policy_update" ("legacy_api" ∷ []),
          )
              ∷ []),
        )
        ∷ [])
    ∷ []

unfoldable pub legacy_org_vdc_handlers : List Entry
unfolding entry read write
legacy_org_vdc_handlers =
    entry "cse/orgvdcs" (
      (
        get,
        ((
          ("33.0" ∷ "34.0" ∷ []),
          read ("pageSize" ∷ "page" ∷ []) ([]) Operation.org_vdc_list "ovdc_handler" "org_vdc_list"
              ("legacy_api" ∷ []),
        )
            ∷ []),
      )
      ∷ [])
    ∷ []
