-- ===== src/OvdcService/Runtimes.antt =====
-- common/constants/shared_constants.py: the names of the Kubernetes runtimes and of their placement
-- policies.
use container_service_extens.Common.{String, Bool, Option, none, some, List, [], ◌∷◌, elem}
use container_service_extens.Common.Dict.{Dict, lookup}

-- The states of a task of vCloud Director that the service sets.
pub data TaskStatus : Type 0 where
  running success error : TaskStatus

abbrev pub runtime_display_name_to_internal_name : Dict String
runtime_display_name_to_internal_name =
    ("native", "native") ∷ ("TKG+", "tkgplus") ∷ ("TKGm", "tkgm") ∷ []

abbrev pub in_front : Option String → Option (List String) → Option (List String)
in_front none _ = none
in_front (some n) none = none
in_front (some n) (some ns) = some (n ∷ ns)

-- `none` is a KeyError.
unfoldable pub internal_names : List String → Option (List String)
unfolding lookup
internal_names [] = some []
internal_names (r ∷ rs) =
    in_front (lookup r runtime_display_name_to_internal_name) (internal_names rs)

-- A key of `RUNTIME_INTERNAL_NAME_TO_DISPLAY_NAME_MAP`.
unfoldable pub is_runtime : String → Bool
is_runtime p = elem p ("native" ∷ "tkgplus" ∷ "tkgm" ∷ [])
