-- ===== src/Cluster/Phase.antt =====
-- container_service_extension/common/constants/server_constants.py: `DefEntityPhase`, the operation
-- of an entity and its status, which vCloud Director keeps as a text.
use container_service_extens.Common.{
  String, ◌<>◌, ◌≡◌, refl, Bool, true, false, List, [], ◌∷◌, ◌==◌, Option, none, some,
  if◌then◌else◌,
}
use container_service_extens.Common.Text.{split}

pub data DefEntityOperation : Type 0 where
  create delete update upgrade unknown : DefEntityOperation

pub data DefEntityOperationStatus : Type 0 where
  in_progress succeeded failed unknown : DefEntityOperationStatus

pub record DefEntityPhase : Type 0 where
  pub operation : DefEntityOperation
  pub status : DefEntityOperationStatus

operation_name : DefEntityOperation → String
operation_name create = "CREATE"
operation_name delete = "DELETE"
operation_name update = "UPDATE"
operation_name upgrade = "UPGRADE"
operation_name unknown = "UNKNOWN"

status_name : DefEntityOperationStatus → String
status_name in_progress = "IN_PROGRESS"
status_name succeeded = "SUCCEEDED"
status_name failed = "FAILED"
status_name unknown = "UNKNOWN"

-- `DefEntityOperation[name]`
operation_named : String → Option DefEntityOperation
operation_named s =
    if s == "CREATE"
    then some create
    else if s == "DELETE"
    then some delete
    else if s == "UPDATE"
    then some update
    else if s == "UPGRADE"
    then some upgrade
    else if s == "UNKNOWN"
    then some unknown
    else none

status_named : String → Option DefEntityOperationStatus
status_named s =
    if s == "IN_PROGRESS"
    then some in_progress
    else if s == "SUCCEEDED"
    then some succeeded
    else if s == "FAILED"
    then some failed
    else if s == "UNKNOWN"
    then some unknown
    else none

-- `__str__`
unfoldable pub phase_text : DefEntityOperation → DefEntityOperationStatus → String
unfolding operation_name status_name
phase_text o s = operation_name o <> ":" <> status_name s

both : Option DefEntityOperation → Option DefEntityOperationStatus → Option DefEntityPhase
both (some o) (some s) = some (record { operation = o; status = s })
both _ _ = none

phase_of_names : List String → Option DefEntityPhase
unfolding both operation_named status_named
phase_of_names (o ∷ s ∷ []) = both (operation_named o) (status_named s)
phase_of_names _ = none

-- `none` is the ValueError or KeyError of a text that is no phase.
unfoldable pub from_phase : String → Option DefEntityPhase
unfolding phase_of_names
from_phase phase = phase_of_names (split b':' phase)

status_busy : DefEntityOperationStatus → Bool
status_busy in_progress = true
status_busy _ = false

unfoldable pub is_entity_busy : DefEntityPhase → Bool
unfolding status_busy
is_entity_busy p = status_busy p.status

status_success : DefEntityOperationStatus → Bool
status_success succeeded = true
status_success _ = false

unfoldable pub is_operation_status_success : DefEntityPhase → Bool
unfolding status_success
is_operation_status_success p = status_success p.status

-- A phase is read back from the text that is stored for it.
pub from_phase-phase_text :
    (o : DefEntityOperation) (s : DefEntityOperationStatus)
    → from_phase (phase_text o s) ≡ some (record { operation = o; status = s })
unfolding from_phase phase_text split
from_phase-phase_text create in_progress = refl
from_phase-phase_text create succeeded = refl
from_phase-phase_text create failed = refl
from_phase-phase_text create unknown = refl
from_phase-phase_text delete in_progress = refl
from_phase-phase_text delete succeeded = refl
from_phase-phase_text delete failed = refl
from_phase-phase_text delete unknown = refl
from_phase-phase_text update in_progress = refl
from_phase-phase_text update succeeded = refl
from_phase-phase_text update failed = refl
from_phase-phase_text update unknown = refl
from_phase-phase_text upgrade in_progress = refl
from_phase-phase_text upgrade succeeded = refl
from_phase-phase_text upgrade failed = refl
from_phase-phase_text upgrade unknown = refl
from_phase-phase_text unknown in_progress = refl
from_phase-phase_text unknown succeeded = refl
from_phase-phase_text unknown failed = refl
from_phase-phase_text unknown unknown = refl
