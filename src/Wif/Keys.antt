-- ===== src/Wif/Keys.antt =====
-- The keys and fixed values of internal/wif/annotations.go.
use thalassa_workload_identi.Text.Eq.{Text, codes}
use thalassa_workload_identi.Common.{◌++◌}

-- Annotation keys on Kubernetes ServiceAccounts.
abbrev pub annotation_enabled : Text
annotation_enabled = codes "thalassa.cloud/wif.enabled"

abbrev pub annotation_role : Text
annotation_role = codes "thalassa.cloud/wif.role"

abbrev pub annotation_policy : Text
annotation_policy = codes "thalassa.cloud/wif.policy"

abbrev pub annotation_scopes : Text
annotation_scopes = codes "thalassa.cloud/wif.scopes"

abbrev pub annotation_name : Text
annotation_name = codes "thalassa.cloud/wif.name"

abbrev pub annotation_delete_resources : Text
annotation_delete_resources = codes "thalassa.cloud/wif.delete-resources"

abbrev pub annotation_status : Text
annotation_status = codes "thalassa.cloud/wif.status"

abbrev pub annotation_service_account_id : Text
annotation_service_account_id = codes "thalassa.cloud/wif.service-account-id"

abbrev pub annotation_federated_identity_id : Text
annotation_federated_identity_id = codes "thalassa.cloud/wif.federated-identity-id"

abbrev pub annotation_provider_id : Text
annotation_provider_id = codes "thalassa.cloud/wif.provider-id"

abbrev pub annotation_policy_id : Text
annotation_policy_id = codes "thalassa.cloud/wif.policy-id"

abbrev pub annotation_organisation_id : Text
annotation_organisation_id = codes "thalassa.cloud/wif.organisation-id"

abbrev pub annotation_project_id : Text
annotation_project_id = codes "thalassa.cloud/wif.project-id"

abbrev pub annotation_last_error : Text
annotation_last_error = codes "thalassa.cloud/wif.last-error"

abbrev pub annotation_last_reconcile : Text
annotation_last_reconcile = codes "thalassa.cloud/wif.last-reconcile"

abbrev pub annotation_provider_subject : Text
annotation_provider_subject = codes "thalassa.cloud/wif.provider-subject"

abbrev pub annotation_repository : Text
annotation_repository = codes "thalassa.cloud/wif.repository"

abbrev pub config_map_key_organisation_id : Text
config_map_key_organisation_id = codes "organisation-id"

abbrev pub config_map_key_service_account_id : Text
config_map_key_service_account_id = codes "service-account-id"

abbrev pub config_map_key_project_id : Text
config_map_key_project_id = codes "project-id"

-- Pod opt-in label for the mutating webhook.
abbrev pub label_wif_use : Text
label_wif_use = codes "thalassa.cloud/wif.use"

abbrev pub label_wif_use_value : Text
label_wif_use_value = codes "true"

-- Env vars injected by the pod mutator webhook.
abbrev pub env_organisation_id : Text
env_organisation_id = codes "THALASSA_ORGANISATION_ID"

abbrev pub env_service_account_id : Text
env_service_account_id = codes "THALASSA_SERVICE_ACCOUNT_ID"

abbrev pub env_project_id : Text
env_project_id = codes "THALASSA_PROJECT_ID"

abbrev pub env_subject_token_file : Text
env_subject_token_file = codes "THALASSA_SUBJECT_TOKEN_FILE"

-- Projected volume defaults for webhook injection.
abbrev pub projected_volume_name : Text
projected_volume_name = codes "thalassa-wif"

abbrev pub projected_token_mount_path : Text
projected_token_mount_path = codes "/var/run/secrets/thalassa"

abbrev pub projected_token_path : Text
projected_token_path = codes "token"

abbrev pub default_subject_token_file : Text
default_subject_token_file = projected_token_mount_path ++ codes "/" ++ projected_token_path

abbrev pub finalizer_name : Text
finalizer_name = codes "thalassa.cloud/wif-finalizer"

abbrev pub binding_finalizer_name : Text
binding_finalizer_name = finalizer_name

-- Status values written to AnnotationStatus.
abbrev pub status_pending : Text
status_pending = codes "Pending"

abbrev pub status_ready : Text
status_ready = codes "Ready"

abbrev pub status_error : Text
status_error = codes "Error"

-- Ownership labels on Thalassa IAM resources.
abbrev pub label_managed_by : Text
label_managed_by = codes "thalassa.cloud/managed-by"

abbrev pub value_managed_by : Text
value_managed_by = codes "workload-identity-controller"

abbrev pub label_wif_key : Text
label_wif_key = codes "thalassa.cloud/wif-key"

abbrev pub label_wif_vcs : Text
label_wif_vcs = codes "thalassa.cloud/wif-vcs"

abbrev pub value_vcs_kubernetes : Text
value_vcs_kubernetes = codes "kubernetes"

abbrev pub label_kubernetes_cluster_id : Text
label_kubernetes_cluster_id = codes "kubernetes_cluster_id"

abbrev pub label_k8s_namespace : Text
label_k8s_namespace = codes "thalassa.cloud/k8s-namespace"

abbrev pub label_k8s_service_account : Text
label_k8s_service_account = codes "thalassa.cloud/k8s-service-account"
