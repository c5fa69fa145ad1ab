-- ===== src/Bridge/Codes.antt =====
-- The groups of the error codes (bridge/codes.go), with the stages of bridge/state.go.
use satis.Base.{Text, bytes, text_eq, if◌then◌else◌, Option, none, some, List, [], ◌∷◌}
use satis.Bridge.Search.{member}

abbrev pub validation_codes : List Text
validation_codes =
    bytes "VALIDATION_NIL_PLAN"
    ∷ bytes "VALIDATION_DUPLICATE_CHUNK_ID"
    ∷ bytes "VALIDATION_UNKNOWN_CHUNK_REF"
    ∷ bytes "VALIDATION_SELF_LOOP"
    ∷ bytes "VALIDATION_DAG_CYCLE"
    ∷ bytes "VALIDATION_BAD_ENTRY_CHUNK"
    ∷ bytes "VALIDATION_UNREACHABLE_CHUNK"
    ∷ bytes "VALIDATION_DEPENDS_EDGE_MISMATCH"
    ∷ bytes "VALIDATION_SATIS_PARSE"
    ∷ bytes "VALIDATION_SATIS_VALIDATE"
    ∷ bytes "VALIDATION_CHUNK_ID_MISMATCH"
    ∷ bytes "VALIDATION_INPUT_BINDING_MISMATCH"
    ∷ bytes "VALIDATION_REPEAT_CONFIG"
    ∷ bytes "VALIDATION_UNSUPPORTED_CHUNK_KIND"
    ∷ bytes "VALIDATION_DECISION_CONFIG"
    ∷ bytes "VALIDATION_LOOP_POLICY"
    ∷ []

abbrev pub runtime_codes : List Text
runtime_codes =
    bytes "RUN_CANCELLED"
    ∷ bytes "CHUNK_EXECUTION_FAILED"
    ∷ bytes "RUN_PARTIAL_FAILURE"
    ∷ bytes "CHUNK_TIMEOUT"
    ∷ bytes "DECISION_EXECUTION_FAILED"
    ∷ bytes "DECISION_LOOP_LIMIT_EXCEEDED"
    ∷ []

unfoldable pub error_group : Text → Text
unfolding member
error_group code =
    if member code validation_codes
    then bytes "validation"
    else if member code runtime_codes
    then bytes "runtime"
    else bytes "unknown"

abbrev pub layer_of_group : Text → Text
layer_of_group group =
    if text_eq group (bytes "runtime")
    then bytes "runtime_execution"
    else if text_eq group (bytes "validation")
    then bytes "gopyd_validation"
    else bytes "unknown"

abbrev pub execution_stages : List Text
execution_stages = bytes "execution" ∷ bytes "vfs" ∷ bytes "invoke" ∷ []

-- The layer of an error with a stage and a code.
unfoldable pub failure_layer_for_structured_error : Option (Text × Text) → Text
unfolding error_group text_eq
failure_layer_for_structured_error none = bytes "unknown"
failure_layer_for_structured_error (some (stage, code)) =
    if text_eq stage (bytes "planning")
    then bytes "planning_continuation"
    else if text_eq stage (bytes "validation")
    then bytes "gopyd_validation"
    else if text_eq stage (bytes "scheduling")
    then bytes "gopyd_scheduling"
    else if member stage execution_stages
    then bytes "runtime_execution"
    else layer_of_group (error_group code)
