-- ===== src/Exception.antt =====
-- include/reaction/core/exception.h: the exceptions that the library throws, with their messages
-- and codes, and the result of an operation that may throw. The file, line and function that
-- `REACTION_THROW` adds are those of the call site and are left out.
use Prim.Native.String.{String, ◌++◌}

-- `ErrorCode`
pub data ErrorCode : Type 0 where
  unknown dependency_cycle self_observation null_pointer_access : ErrorCode
  resource_not_initialized type_mismatch invalid_state thread_safety_violation : ErrorCode
  batch_operation_conflict memory_allocation_failure graph_corruption : ErrorCode
  observer_limit_exceeded : ErrorCode

-- The classes derived from `ReactionException`, each with its own fields.
pub data ReactionException : Type 0 where
  dependency_cycle_exception : String → String → ReactionException
  self_observation_exception : String → ReactionException
  null_pointer_access_exception : String → ReactionException
  resource_not_initialized_exception : String → ReactionException
  type_mismatch_exception : String → String → ReactionException
  invalid_state_exception : String → String → ReactionException
  thread_safety_violation_exception : String → ReactionException
  batch_operation_conflict_exception : String → ReactionException

unfoldable pub get_error_code : ReactionException → ErrorCode
get_error_code (dependency_cycle_exception s t) = ErrorCode.dependency_cycle
get_error_code (self_observation_exception n) = ErrorCode.self_observation
get_error_code (null_pointer_access_exception c) = ErrorCode.null_pointer_access
get_error_code (resource_not_initialized_exception r) = ErrorCode.resource_not_initialized
get_error_code (type_mismatch_exception e a) = ErrorCode.type_mismatch
get_error_code (invalid_state_exception c r) = ErrorCode.invalid_state
get_error_code (thread_safety_violation_exception o) = ErrorCode.thread_safety_violation
get_error_code (batch_operation_conflict_exception d) = ErrorCode.batch_operation_conflict

-- `getOriginalMessage`
unfoldable pub get_original_message : ReactionException → String
get_original_message (dependency_cycle_exception s t) =
    "Detected cycle dependency: source '" ++ (s ++ ("' -> target '" ++ (t ++ "'")))
get_original_message (self_observation_exception n) =
    "Detected self-observation: node '" ++ (n ++ "' cannot observe itself")
get_original_message (null_pointer_access_exception c) = "Null or expired pointer access in " ++ c
get_original_message (resource_not_initialized_exception r) = r ++ " is not initialized"
get_original_message (type_mismatch_exception e a) =
    "Type mismatch: expected '" ++ (e ++ ("', got '" ++ (a ++ "'")))
get_original_message (invalid_state_exception c r) =
    "Invalid state: current '" ++ (c ++ ("', required '" ++ (r ++ "'")))
get_original_message (thread_safety_violation_exception o) = "Thread safety violation during " ++ o
get_original_message (batch_operation_conflict_exception d) = "Batch operation conflict: " ++ d

unfoldable pub error_code_to_string : ErrorCode → String
error_code_to_string ErrorCode.dependency_cycle = "DEPENDENCY_CYCLE"
error_code_to_string ErrorCode.self_observation = "SELF_OBSERVATION"
error_code_to_string ErrorCode.null_pointer_access = "NULL_POINTER_ACCESS"
error_code_to_string ErrorCode.resource_not_initialized = "RESOURCE_NOT_INITIALIZED"
error_code_to_string ErrorCode.type_mismatch = "TYPE_MISMATCH"
error_code_to_string ErrorCode.invalid_state = "INVALID_STATE"
error_code_to_string ErrorCode.thread_safety_violation = "THREAD_SAFETY_VIOLATION"
error_code_to_string ErrorCode.batch_operation_conflict = "BATCH_OPERATION_CONFLICT"
error_code_to_string ErrorCode.memory_allocation_failure = "MEMORY_ALLOCATION_FAILURE"
error_code_to_string ErrorCode.graph_corruption = "GRAPH_CORRUPTION"
error_code_to_string ErrorCode.observer_limit_exceeded = "OBSERVER_LIMIT_EXCEEDED"
error_code_to_string ErrorCode.unknown = "UNKNOWN"

-- A call that returns, throws, or runs out of the model's fuel. The state is kept on a throw.
pub data Result {ℓ κ} (S : Type ℓ) (A : Type κ) : Type (ℓ ⊔ κ) where
  ok : A → S → Result S A
  throw : ReactionException → S → Result S A
  out_of_fuel : Result S A
