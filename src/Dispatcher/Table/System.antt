-- ===== src/Dispatcher/Table/System.antt =====
-- container_service_extension/server/request_dispatcher.py: SYSTEM_HANDLERS and TEMPLATE_HANDLERS.
use container_service_extens.Common.{List, [], ◌∷◌}
use container_service_extens.Dispatcher.Operations.{Operation}
use container_service_extens.Dispatcher.Entries.{
  Entry, get, post, put, entry, read, write, supported_vcd_api_versions,
}

unfoldable pub system_handlers : List Entry
unfolding entry read write
system_handlers =
    entry "cse/system" (
      (
        get,
        ((("*" ∷ []), read ([]) ([]) Operation.system_info "system_handler" "system_info" ([]))
            ∷ []),
      )
      ∷ (
        put,
        ((
          supported_vcd_api_versions,
          write ([]) Operation.system_update "system_handler" "system_update" ([]),
        )
            ∷ []),
      )
      ∷ [])
    ∷ entry "cse/system/config" (
        (
          get,
          ((
            supported_vcd_api_versions,
            read ([]) ([]) Operation.system_server_config "system_handler" "get_server_config" ([]),
          )
              ∷ []),
        )
        ∷ [])
    ∷ []

unfoldable pub template_handlers : List Entry
unfolding entry read write
template_handlers =
    entry "cse/templates" (
      (
        get,
        ((
          supported_vcd_api_versions,
          read ([]) ([]) Operation.template_list "template_handler" "template_list" ([]),
        )
            ∷ []),
      )
      ∷ [])
    ∷ entry "cse/templates/tkgm" (
        (
          get,
          ((
            ("36.0" ∷ []),
            read ([]) ([]) Operation.template_list "template_handler" "tkgm_template_list" ([]),
          )
              ∷ []),
        )
        ∷ [])
    ∷ entry "cse/templates/action/reload" (
        (
          post,
          ((
            ("36.0" ∷ []),
            read ([]) ([]) Operation.template_reload "template_handler" "reload_templates" ([]),
          )
              ∷ []),
        )
        ∷ [])
    ∷ []
