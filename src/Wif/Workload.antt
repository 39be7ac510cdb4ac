-- ===== src/Wif/Workload.antt =====
-- `EnsureWorkloadIdentity` and `DeleteWorkloadIdentity` of internal/wif/ensure.go.
use thalassa_workload_identi.Common.{Option, none, some, [], ◌∷◌, if◌then◌else◌}
use thalassa_workload_identi.Text.Eq.{Text, codes, is_empty}
use thalassa_workload_identi.Text.Trim.{trim_space}
use thalassa_workload_identi.Dict.{Dict}
use thalassa_workload_identi.Errors.{
  empty_issuer, delete_federated_identity, delete_service_account, Result, ok, err,
}
use thalassa_workload_identi.Config.Allowlist.{check_ref_allowlist}
use thalassa_workload_identi.Iam.{
  FederatedIdentityProvider, ServiceAccount, FederatedIdentity, OrganisationRole, IamPolicy,
  IamClient,
}
use thalassa_workload_identi.Iam.Monad.{M, pure, lift, call, wrapping, ◌>>=◌, ◌>>◌}
use thalassa_workload_identi.Wif.Subject.{
  build_kubernetes_subject, normalize_issuer, resource_key, default_resource_names,
}
use thalassa_workload_identi.Wif.Labels.{ownership_labels}
use thalassa_workload_identi.Wif.Scopes.{IamConstants}
use thalassa_workload_identi.Wif.Find.{
  find_provider_by_cluster_id, find_by_labels_sa, find_by_labels_fi, resolve_organisation_role,
  resolve_iam_policy,
}
use thalassa_workload_identi.Wif.Ensure.{
  EnsureInput, EnsureResult, validate_ensure_input, ensure_service_account,
  ensure_federated_identity,
}
use thalassa_workload_identi.Wif.Bindings.{
  ensure_role_binding, ensure_policy_binding, delete_role_binding_for_sa,
  delete_policy_binding_for_sa,
}

module _ (c : IamClient) (input : EnsureInput) (sa : ServiceAccount) (key : Text)
    (labels : Dict) where
  -- The policy that was resolved must be allowed before it is bound.
  unfoldable pub bind_policy : IamPolicy → M c.State Text
  bind_policy policy = do
    lift (
        check_ref_allowlist (codes "policy") (trim_space input.policy_ref) input.allowed_policies
          (policy.identity ∷ policy.slug ∷ policy.name ∷ []))
    ensure_policy_binding c policy sa key labels
    pure policy.identity

  -- The branch for `in.PolicyRef`; its result is `result.PolicyID`.
  unfoldable pub ensure_policy : M c.State Text
  ensure_policy =
      if is_empty (trim_space input.policy_ref)
      then pure []
      else resolve_iam_policy c (trim_space input.policy_ref) >>= bind_policy

  unfoldable pub bind_role : OrganisationRole → M c.State (Unit {0})
  bind_role role = do
    lift (
        check_ref_allowlist (codes "role") (trim_space input.role_ref) input.allowed_roles
          (role.identity ∷ role.slug ∷ role.name ∷ []))
    ensure_role_binding c role sa key labels

  -- The branch for `in.RoleRef`.
  unfoldable pub ensure_role : M c.State (Unit {0})
  ensure_role =
      if is_empty (trim_space input.role_ref)
      then pure tt
      else resolve_organisation_role c (trim_space input.role_ref) >>= bind_role

-- What is named after the provider and the two Kubernetes names.
pub record Names : Type 0 where
  pub issuer : Text
  pub subject : Text
  pub key : Text
  pub sa_name : Text
  pub fi_name : Text
  pub labels : Dict

abbrev pub names_of : EnsureInput → Text → Text → Names
names_of input issuer subject =
    let key = resource_key input.namespace input.service_account subject issuer in
    let names = default_resource_names key input.name_override in
    record {
      issuer = issuer;
      subject = subject;
      key = key;
      sa_name = names.0;
      fi_name = names.1;
      labels = ownership_labels key input.namespace input.service_account;
    }

-- The pure steps between the provider and the first resource.
unfoldable pub derive_names : EnsureInput → FederatedIdentityProvider → Result Names
derive_names input provider =
    let issuer = normalize_issuer provider.provider_issuer in
    if is_empty issuer
    then err (empty_issuer provider.identity)
    else elim (build_kubernetes_subject input.namespace input.service_account) [
      | ok subject ↦ ok (names_of input issuer subject)
      | err e ↦ err e
    ]

module _ (k : IamConstants) (c : IamClient) where
  -- The steps that write, in their order.
  unfoldable pub ensure_resources :
      EnsureInput → FederatedIdentityProvider → Names → M c.State EnsureResult
  ensure_resources input provider n = do
    sa ←
        ensure_service_account k c n.sa_name n.subject input.namespace input.service_account
          n.labels
    fi ←
        ensure_federated_identity k c provider sa n.fi_name n.subject input.scopes
          input.trusted_audiences n.labels
    policy_id ← ensure_policy c input sa n.key n.labels
    ensure_role c input sa n.key n.labels
    pure (record {
      provider_id = provider.identity;
      service_account_id = sa.identity;
      federated_identity_id = fi.identity;
      policy_id = policy_id;
      issuer = n.issuer;
      subject = n.subject;
      key = n.key;
    })

  unfoldable pub ensure_workload_identity : EnsureInput → M c.State EnsureResult
  unfolding derive_names
  ensure_workload_identity input = do
    lift (validate_ensure_input input)
    provider ← find_provider_by_cluster_id c input.cluster_identity
    n ← lift (derive_names input provider)
    ensure_resources input provider n

module _ (c : IamClient) where
  -- `if fi != nil { delete }`
  unfoldable pub delete_found_fi : Option FederatedIdentity → M c.State (Unit {0})
  delete_found_fi none = pure tt
  delete_found_fi (some fi) =
      wrapping delete_federated_identity (call (c.delete_federated_identity fi.identity))

  -- `if err == nil && policy != nil { delete }`: a reference that cannot be resolved is passed over;
  -- a deletion that fails is not.
  abbrev pub with_policy : ServiceAccount → Result IamPolicy × c.State → Result (Unit {0}) × c.State
  with_policy sa (ok policy, t) = delete_policy_binding_for_sa c policy.identity sa.identity t
  with_policy sa (err _, t) = (ok tt, t)

  unfoldable pub delete_policy_bindings : Text → ServiceAccount → M c.State (Unit {0})
  delete_policy_bindings policy_ref sa s =
      if is_empty (trim_space policy_ref)
      then (ok tt, s)
      else with_policy sa (resolve_iam_policy c policy_ref s)

  abbrev pub with_role :
      ServiceAccount → Result OrganisationRole × c.State → Result (Unit {0}) × c.State
  with_role sa (ok role, t) = delete_role_binding_for_sa c role.identity sa.identity t
  with_role sa (err _, t) = (ok tt, t)

  unfoldable pub delete_role_bindings : Text → ServiceAccount → M c.State (Unit {0})
  delete_role_bindings role_ref sa s =
      if is_empty (trim_space role_ref)
      then (ok tt, s)
      else with_role sa (resolve_organisation_role c role_ref s)

  unfoldable pub delete_found_sa : Text → Text → Option ServiceAccount → M c.State (Unit {0})
  delete_found_sa role_ref policy_ref none = pure tt
  delete_found_sa role_ref policy_ref (some sa) = do
    delete_policy_bindings policy_ref sa
    delete_role_bindings role_ref sa
    wrapping delete_service_account (call (c.delete_service_account sa.identity))

  unfoldable pub delete_workload_identity : Text → Text → Text → Text → Text → M c.State (Unit {0})
  unfolding delete_found_fi delete_found_sa
  delete_workload_identity namespace sa_name issuer role_ref policy_ref = do
    subject ← lift (build_kubernetes_subject namespace sa_name)
    let want = ownership_labels (resource_key namespace sa_name subject issuer) namespace sa_name
    fi ← find_by_labels_fi c want
    delete_found_fi fi
    sa ← find_by_labels_sa c want
    delete_found_sa role_ref policy_ref sa
