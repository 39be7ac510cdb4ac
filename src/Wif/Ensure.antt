-- ===== src/Wif/Ensure.antt =====
-- The input of `EnsureWorkloadIdentity` of internal/wif/ensure.go, and its steps that create or
-- update a service account and a federated identity.
pub mod Laws
use thalassa_workload_identi.Common.{
  ◌≡◌, Bool, true, false, not, ◌&&◌, ◌||◌, Option, none, some, List, [], ◌∷◌, ◌++◌, is_nil,
  if◌then◌else◌,
}
use thalassa_workload_identi.Text.Eq.{Text, codes, text_eq, is_empty, cut}
use thalassa_workload_identi.Text.Trim.{trim_space}
use thalassa_workload_identi.Text.Order.{sort, list_eq}
use thalassa_workload_identi.Dict.{Dict, get}
use thalassa_workload_identi.Errors.{
  Error, kubernetes_names_required, policy_or_role_required, wildcard_ref,
  cluster_identity_required, trusted_audiences_required, scopes_required, empty_issuer, Result, ok,
  err, fail_if,
}
use thalassa_workload_identi.Errors
use thalassa_workload_identi.Config.Allowlist.{check_ref_allowlist}
use thalassa_workload_identi.Iam.{
  FederatedIdentityProvider, ServiceAccount, FederatedIdentity, OrganisationRole, IamPolicy,
  Binding, CreateBindingRequest, IamClient,
}
use thalassa_workload_identi.Iam.Monad.{M, pure, throw, lift, call, try_call, wrapping, ◌>>=◌, ◌>>◌}
use thalassa_workload_identi.Wif.Keys.{annotation_repository, annotation_provider_subject}
use thalassa_workload_identi.Wif.Subject.{
  build_kubernetes_subject, normalize_issuer, resource_key, default_resource_names,
}
use thalassa_workload_identi.Wif.Labels.{ownership_labels, labels_match}
use thalassa_workload_identi.Wif.Scopes.{IamConstants}
use thalassa_workload_identi.Wif.Find.{
  find_provider_by_cluster_id, find_by_labels_sa, find_by_labels_fi, resolve_organisation_role,
  resolve_iam_policy, has_role_binding_for_sa, has_policy_binding_for_sa,
}

pub record EnsureInput : Type 0 where
  pub namespace : Text
  pub service_account : Text
  pub role_ref : Text
  pub policy_ref : Text
  pub name_override : Text
  pub scopes : List Text
  pub trusted_audiences : List Text
  pub cluster_identity : Text
  pub allowed_policies : List Text
  pub allowed_roles : List Text

pub record EnsureResult : Type 0 where
  pub provider_id : Text
  pub service_account_id : Text
  pub federated_identity_id : Text
  pub policy_id : Text
  pub issuer : Text
  pub subject : Text
  pub key : Text

abbrev pub is_wildcard : Text → Bool
is_wildcard s = text_eq s (codes "*")

unfoldable pub validate_ensure_input : EnsureInput → Result (Unit {0})
validate_ensure_input input =
    let role = trim_space input.role_ref in
    let policy = trim_space input.policy_ref in
    if is_empty (trim_space input.namespace) || is_empty (trim_space input.service_account)
    then err kubernetes_names_required
    else if is_empty role && is_empty policy
    then err policy_or_role_required
    else if is_wildcard role || is_wildcard policy
    then err wildcard_ref
    else if is_empty (trim_space input.cluster_identity)
    then err cluster_identity_required
    else if is_nil input.trusted_audiences
    then err trusted_audiences_required
    else if is_nil input.scopes
    then err scopes_required
    else ok tt

unfoldable pub scopes_equal : List Text → List Text → Bool
scopes_equal a b = list_eq (sort a) (sort b)

unfoldable pub audiences_equal : List Text → List Text → Bool
audiences_equal a b = list_eq (sort a) (sort b)

abbrev pub description_of_sa : Text → Text → Text
description_of_sa repo subject =
    codes "Workload identity for Kubernetes " ++ repo ++ codes "; JWT sub: " ++ subject

abbrev pub description_of_fi : Text → Text
description_of_fi subject = codes "WIF binding for " ++ subject

module _ (k : IamConstants) where
  unfoldable pub fi_needs_update :
      FederatedIdentity → Text → Text → Text → List Text → List Text → Dict → Bool
  unfolding scopes_equal audiences_equal
  fi_needs_update fi name desc subject scopes audiences labels =
      not (scopes_equal fi.allowed_scopes scopes)
      || not (audiences_equal fi.trusted_audiences audiences)
      || (not (is_empty fi.audience_match_mode)
          && not (text_eq fi.audience_match_mode k.audience_match_mode_any))
      || not (text_eq fi.name name)
      || not (text_eq fi.description desc)
      || not (labels_match fi.labels labels)
      || not (text_eq (get annotation_provider_subject fi.annotations) subject)
      || not (text_eq fi.provider_subject subject)

module _ (k : IamConstants) (c : IamClient) where
  unfoldable pub ensure_service_account :
      Text → Text → Text → Text → Dict → M c.State ServiceAccount
  ensure_service_account name subject ns k8s_sa labels = do
    existing ← find_by_labels_sa c labels
    let repo = ns ++ codes "/" ++ k8s_sa
    elim existing [
      | some sa ↦ pure sa
      | none ↦ call (
          c.create_service_account (record {
            name = name;
            description = description_of_sa repo subject;
            labels = labels;
            annotations =
                (annotation_repository, repo) ∷ (annotation_provider_subject, subject) ∷ [];
          }))
    ]

  unfoldable pub ensure_federated_identity :
      FederatedIdentityProvider
      → ServiceAccount
      → Text
      → Text
      → List Text
      → List Text
      → Dict
      → M c.State FederatedIdentity
  ensure_federated_identity provider sa fi_name subject scopes audiences labels = do
    let desc = description_of_fi subject
    existing ← find_by_labels_fi c labels
    elim existing [
      | none ↦ call (
          c.create_federated_identity (record {
            name = fi_name;
            description = desc;
            labels = labels;
            annotations = (annotation_provider_subject, subject) ∷ [];
            service_account_identity = sa.identity;
            provider_identity = provider.identity;
            provider_subject = subject;
            trusted_audiences = audiences;
            audience_match_mode = k.audience_match_mode_any;
            allowed_scopes = scopes;
          }))
      | some fi ↦
          if not (fi_needs_update k fi fi_name desc subject scopes audiences labels)
          then pure fi
          else call (
              c.update_federated_identity fi.identity (record {
                name = fi_name;
                description = desc;
                labels = labels;
                annotations = (annotation_provider_subject, subject) ∷ [];
                trusted_audiences = audiences;
                audience_match_mode = k.audience_match_mode_any;
                allowed_scopes = scopes;
              }))
    ]
