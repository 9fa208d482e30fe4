-- ===== src/Dispatcher/Table/Ovdc.antt =====
-- container_service_extension/server/request_dispatcher.py: OVDC_HANDLERS and ORG_VDC_HANDLERS.
use container_service_extens.Common.{List, [], ◌∷◌}
use container_service_extens.Dispatcher.Operations.{Operation}
use container_service_extens.Dispatcher.Entries.{Entry, get, put, entry, read, write}

unfoldable pub ovdc_handlers : List Entry
unfolding entry read write
ovdc_handlers =
    entry "cse/3.0/ovdcs" (
      (
        get,
        ((
          ("35.0" ∷ []),
          read ([]) ([]) Operation.v35_ovdc_list "v35_ovdc_handler" "ovdc_list"
              ("non_legacy_api" ∷ []),
        )
            ∷ []),
      )
      ∷ [])
    ∷ entry "cse/3.0/ovdc/$ovdc_id" (
        (
          get,
          ((
            ("35.0" ∷ "36.0" ∷ []),
            read ([]) ([]) Operation.v35_ovdc_info "v35_ovdc_handler" "ovdc_info"
                ("non_legacy_api" ∷ []),
          )
              ∷ []),
        )
        ∷ (
          put,
          ((
            ("35.0" ∷ "36.0" ∷ []),
            write ([]) Operation.v35_ovdc_update "v35_ovdc_handler" "ovdc_update"
                ("non_legacy_api" ∷ []),
          )
              ∷ []),
        )
        ∷ [])
    ∷ []

unfoldable pub org_vdc_handlers : List Entry
unfolding entry read write
org_vdc_handlers =
    entry "cse/3.0/orgvdcs" (
      (
        get,
        ((
          ("35.0" ∷ "36.0" ∷ []),
          read ([]) ([]) Operation.v35_org_vdc_list "v35_ovdc_handler" "org_vdc_list"
              ("non_legacy_api" ∷ []),
        )
            ∷ []),
      )
      ∷ [])
    ∷ []
