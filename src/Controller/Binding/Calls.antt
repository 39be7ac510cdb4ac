-- ===== src/Controller/Binding/Calls.antt =====
-- The Kubernetes calls of internal/controller/binding_reconcile.go: the annotations of the service
-- account, and the identity config map.
use thalassa_workload_identi.Common.{Bool, if◌then◌else◌}
use thalassa_workload_identi.Text.Eq.{Text}
use thalassa_workload_identi.Dict.{Dict, insert}
use thalassa_workload_identi.Errors.{remote, Result, ok, err}
use thalassa_workload_identi.Api.{WorkloadIdentityBinding}
use thalassa_workload_identi.Kube.{
  ServiceAccount, ConfigMap, Response, given, missing, failed, KubeClient, replied,
}
use thalassa_workload_identi.Iam.Monad.{M, lift, ◌>>=◌, ◌>>◌}
use thalassa_workload_identi.Wif.Keys.{
  label_managed_by, value_managed_by, label_k8s_namespace, label_k8s_service_account,
}
use thalassa_workload_identi.Controller.Annotations.{
  annotate_service_account_identity, clear_service_account_identity_annotations,
}
use thalassa_workload_identi.Controller.ConfigMap.{
  identity_config_map_name, identity_config_map_data, validate_identity_config_map_data,
}
use thalassa_workload_identi.Controller.Cleanup.{BindingDesired}

-- What the mutation of `syncIdentityConfigMap` does after the owner is set.
abbrev pub fill_config_map : BindingDesired → Dict → ConfigMap → ConfigMap
fill_config_map d entries cm = record cm {
  labels =
      insert label_k8s_service_account d.service_account (
        insert label_k8s_namespace d.namespace
          (insert label_managed_by value_managed_by cm.labels));
  entries = entries;
}

abbrev pub then_fill : BindingDesired → Dict → Response ConfigMap → Response ConfigMap
then_fill d entries (given cm) = given (fill_config_map d entries cm)
then_fill d entries (missing m) = missing m
then_fill d entries (failed m) = failed m

module _ (k : KubeClient) where
  unfoldable pub mutate_config_map :
      Bool → WorkloadIdentityBinding → BindingDesired → Dict → ConfigMap → Response ConfigMap
  mutate_config_map has_scheme owner d entries cm =
      then_fill d entries (if has_scheme then k.set_controller_reference owner cm else given cm)

  unfoldable pub sync_identity_config_map :
      Bool → WorkloadIdentityBinding → BindingDesired → Text → Text → Text → M k.State (Unit {0})
  sync_identity_config_map has_scheme owner d account organisation project =
      let entries = identity_config_map_data organisation account project in
      lift (validate_identity_config_map_data entries) >> λ s. replied (
        k.create_or_update_config_map d.namespace (identity_config_map_name d.service_account)
          (mutate_config_map has_scheme owner d entries) s)

  abbrev pub update_annotations : ServiceAccount → Dict → M k.State (Unit {0})
  update_annotations sa annotations s =
      replied (k.update_service_account (record sa { annotations = annotations }) s)

  -- `annotateServiceAccountIdentity`
  unfoldable pub annotate_service_account :
      ServiceAccount → Text → Text → Text → M k.State (Unit {0})
  annotate_service_account sa account organisation project =
      (λ s. replied (k.get_service_account sa.namespace sa.name s)) >>= λ latest.
      update_annotations latest
        (annotate_service_account_identity account organisation project latest.annotations)

  -- What follows the lookup of the service account to clear.
  abbrev pub cleared : Response ServiceAccount × k.State → Result (Unit {0}) × k.State
  cleared (missing m, s) = (ok tt, s)
  cleared (failed m, s) = (err (remote m), s)
  cleared (given sa, s) =
      let (annotations, changed) = clear_service_account_identity_annotations sa.annotations in
      let update = update_annotations sa annotations s in if changed then update else (ok tt, s)

  -- `clearServiceAccountIdentityAnnotations`
  unfoldable pub clear_service_account : Text → Text → M k.State (Unit {0})
  clear_service_account namespace name s = cleared (k.get_service_account namespace name s)
