-- ===== src/Errors/Message.antt =====
-- The text of each error, as its `Error` method gives it. `%q` is strconv.Quote, a parameter.
use thalassa_workload_identi.Common.{◌++◌}
use thalassa_workload_identi.Text.Eq.{Text, codes}
use thalassa_workload_identi.Errors.{
  Context, list_organisation_roles, list_iam_policies, delete_federated_identity,
  delete_service_account, list_role_bindings, delete_role_binding, list_iam_policy_bindings,
  delete_iam_policy_binding, resolve_provider_for_delete, thalassa_url_invalid,
  webhook_audience_invalid, create_thalassa_client, tls_crt_not_ready, tls_key_not_ready, Error,
  cluster_identity_required, provider_not_ready, multiple_providers, empty_issuer,
  kubernetes_names_required, policy_or_role_required, wildcard_ref, trusted_audiences_required,
  scopes_required, role_not_found, policy_ref_required, policy_not_found, names_required,
  names_contain_slash, wildcard_scope, unsupported_scope, not_in_allowlist, component_required,
  option_required, option_not_positive, provider_empty_issuer, binding_names_required,
  policy_ref_or_role_ref_required, organisation_id_required, service_account_id_required, not_found,
  remote, wrapped,
}
use thalassa_workload_identi.Wif.Keys.{label_kubernetes_cluster_id}

unfoldable pub prefix : Context → Text
prefix list_organisation_roles = codes "list organisation roles: "
prefix list_iam_policies = codes "list iam policies: "
prefix delete_federated_identity = codes "delete federated identity: "
prefix delete_service_account = codes "delete service account: "
prefix list_role_bindings = codes "list role bindings: "
prefix delete_role_binding = codes "delete role binding: "
prefix list_iam_policy_bindings = codes "list iam policy bindings: "
prefix delete_iam_policy_binding = codes "delete iam policy binding: "
prefix resolve_provider_for_delete = codes "resolve cluster identity provider for delete: "
prefix thalassa_url_invalid = codes "thalassa-url is invalid: "
prefix webhook_audience_invalid = codes "webhook-audience is invalid: "
prefix create_thalassa_client = codes "create thalassa client: "
prefix tls_crt_not_ready = codes "webhook tls.crt not ready: "
prefix tls_key_not_ready = codes "webhook tls.key not ready: "

unfoldable pub message : (Text → Text) → Error → Text
unfolding prefix
message quote cluster_identity_required = codes "cluster identity is required"
message quote (provider_not_ready c) =
    codes "no federated identity provider for kubernetes cluster "
    ++ c
    ++ codes " (label "
    ++ label_kubernetes_cluster_id
    ++ codes ")"
message quote (multiple_providers c) =
    codes "multiple federated identity providers match label "
    ++ label_kubernetes_cluster_id
    ++ codes "="
    ++ c
message quote (empty_issuer p) =
    codes "federated identity provider " ++ p ++ codes " has an empty issuer"
message quote kubernetes_names_required =
    codes "kubernetes namespace and service account are required"
message quote policy_or_role_required = codes "at least one of policy or role is required"
message quote wildcard_ref = codes "wildcard policy/role is not allowed"
message quote trusted_audiences_required = codes "trusted audiences are required"
message quote scopes_required = codes "scopes are required"
message quote (role_not_found r) = codes "organisation role not found: " ++ r
message quote policy_ref_required = codes "iam policy ref is required"
message quote (policy_not_found r) = codes "iam policy not found: " ++ r
message quote names_required = codes "namespace and name are required"
message quote names_contain_slash = codes "namespace and name must not contain '/'"
message quote wildcard_scope = codes "wildcard scope is not allowed"
message quote (unsupported_scope p) = codes "unsupported scope " ++ quote p
message quote (not_in_allowlist kind ref) =
    kind ++ codes " " ++ quote ref ++ codes " is not in the configured allowlist"
message quote component_required =
    codes "at least one of enable-controllers or enable-pod-mutator is required"
message quote (option_required o) = o ++ codes " is required"
message quote (option_not_positive o) = o ++ codes " must be positive"
message quote (provider_empty_issuer p) =
    codes "cluster identity provider " ++ p ++ codes " has empty issuer"
message quote binding_names_required = codes "service account namespace and name are required"
message quote policy_ref_or_role_ref_required =
    codes "at least one of policyRef or roleRef is required"
message quote organisation_id_required = codes "organisation-id is required"
message quote service_account_id_required = codes "service-account-id is required"
message quote (not_found m) = m
message quote (remote m) = m
message quote (wrapped context e) = prefix context ++ message quote e
