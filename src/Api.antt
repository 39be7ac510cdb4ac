-- ===== src/Api.antt =====
-- api/v1beta1/workloadidentitybinding_types.go: the resource WorkloadIdentityBinding, with the fields
-- of its metadata that the program reads or writes, and the rules by which the API server admits it.
pub mod Rules
use thalassa_workload_identi.Common.{ℕ, Bool, Option, List}
use thalassa_workload_identi.Text.Eq.{Text, codes}
use thalassa_workload_identi.Controller.Conditions.{Condition}

abbrev pub condition_ready : Text
condition_ready = codes "Ready"

abbrev pub phase_pending : Text
phase_pending = codes "Pending"

abbrev pub phase_ready : Text
phase_ready = codes "Ready"

abbrev pub phase_error : Text
phase_error = codes "Error"

-- Times are numbers.
pub record WorkloadIdentityBindingStatus : Type 0 where
  pub phase : Text
  pub service_account_id : Text
  pub federated_identity_id : Text
  pub provider_id : Text
  pub policy_id : Text
  pub organisation_id : Text
  pub project_id : Text
  pub observed_generation : ℕ
  pub last_reconcile_time : Option ℕ
  pub conditions : List Condition

-- Of a deletion timestamp it is read only whether it is set.
pub record WorkloadIdentityBinding : Type 0 where
  pub namespace : Text
  pub name : Text
  pub generation : ℕ
  pub finalizers : List Text
  pub deleting : Bool
  pub service_account_name : Text
  pub policy_ref : Text
  pub role_ref : Text
  pub scopes : List Text
  pub name_override : Text
  pub delete_resources : Bool
  pub identity_config_map : Bool
  pub status : WorkloadIdentityBindingStatus
