-- ===== src/Controller/AccountController/Status.antt =====
-- `patchStatus` of internal/controller/serviceaccount_controller.go: the status of a service account
-- is kept in its annotations.
pub mod Laws
use thalassa_workload_identi.Common.{Option, none, some, if◌then◌else◌}
use thalassa_workload_identi.Text.Eq.{Text, is_empty, cut}
use thalassa_workload_identi.Dict.{Dict, insert, erase}
use thalassa_workload_identi.Kube.{ServiceAccount, KubeClient, replied}
use thalassa_workload_identi.Iam.Monad.{M, ◌>>=◌}
use thalassa_workload_identi.Wif.Keys.{
  annotation_status, annotation_last_reconcile, annotation_last_error,
  annotation_service_account_id, annotation_federated_identity_id, annotation_provider_id,
  annotation_policy_id,
}
use thalassa_workload_identi.Wif.Ensure.{EnsureResult}

-- An empty error takes the annotation away.
abbrev pub with_last_error : Text → Dict → Dict
with_last_error last_error d =
    if is_empty last_error
    then erase annotation_last_error d
    else insert annotation_last_error (cut 1024 last_error) d

abbrev pub with_policy_id : Text → Dict → Dict
with_policy_id id d =
    if is_empty id then erase annotation_policy_id d else insert annotation_policy_id id d

abbrev pub with_result : Option EnsureResult → Dict → Dict
with_result none d = d
with_result (some r) d = with_policy_id r.policy_id (
    insert annotation_provider_id r.provider_id (
      insert annotation_federated_identity_id r.federated_identity_id
        (insert annotation_service_account_id r.service_account_id d)))

-- The annotations that `patchStatus` leaves, for the text of the time.
unfoldable pub patched_annotations : Text → Text → Text → Option EnsureResult → Dict → Dict
patched_annotations now status last_error result d = with_result result (
    with_last_error last_error
      (insert annotation_last_reconcile now (insert annotation_status status d)))

module _ (k : KubeClient) where
  unfoldable pub patch_status :
      ServiceAccount → Text → Text → Option EnsureResult → M k.State (Unit {0})
  patch_status sa status last_error result =
      (λ s. replied (k.get_service_account sa.namespace sa.name s)) >>= λ latest s. replied (
        k.update_service_account
          (record latest {
            annotations =
                patched_annotations (k.rfc3339 (k.now s)) status last_error result
                  latest.annotations;
          })
          s)
