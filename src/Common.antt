-- ===== src/Common.antt =====
-- pkg/common: the types that the components share (types.go, workloads.go).
use k8_highlander.Prelude.{ℕ, String, Bool, true, false, Option}

-- ControllerState; `unset` is the empty text that a new health status has.
pub data ControllerState : Type 0 where
  unset normal degraded : ControllerState

-- WorkloadType
pub data WorkloadType : Type 0 where
  process service cron_job persistent : WorkloadType
  process_manager service_manager cron_job_manager persistent_manager custom : WorkloadType

-- WorkloadStatus. Of its details the program reads the namespace: none if it is not a text.
pub record WorkloadStatus : Type 0 where
  pub workload_type : WorkloadType
  pub active : Bool
  pub healthy : Bool
  pub last_error : String
  pub last_transition : Option ℕ
  pub details_namespace : Option String

-- state == common.StateDegraded, state == common.StateNormal
unfoldable pub is_degraded : ControllerState → Bool
is_degraded degraded = true
is_degraded _ = false

unfoldable pub is_normal : ControllerState → Bool
is_normal normal = true
is_normal _ = false

unfoldable pub same_state : ControllerState → ControllerState → Bool
same_state unset unset = true
same_state normal normal = true
same_state degraded degraded = true
same_state _ _ = false
