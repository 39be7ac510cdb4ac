-- ===== src/Controller/Cleanup.antt =====
-- `deleteCloudResources` and `validateDesired` of internal/controller/binding_reconcile.go.
use thalassa_workload_identi.Common.{
  ◌≡◌, ◌≢◌, ◌↔◌, ◌⊎◌, Bool, ◌&&◌, ◌||◌, arith, if◌then◌else◌, List, [],
}
use thalassa_workload_identi.Text.Eq.{Text, codes, text_eq_iff, is_empty, is_empty_iff}
use thalassa_workload_identi.Text.Trim.{trim_space}
use thalassa_workload_identi.Errors.{
  Error, binding_names_required, policy_ref_or_role_ref_required, wildcard_ref,
  resolve_provider_for_delete, wrapped, is_provider_not_ready, Result, ok, err,
}
use thalassa_workload_identi.Iam.{FederatedIdentityProvider, IamClient}
use thalassa_workload_identi.Iam.Monad.{M}
use thalassa_workload_identi.Iam.Laws.{IsLawful}
use thalassa_workload_identi.Wif.Subject.{normalize_issuer}
use thalassa_workload_identi.Wif.Ensure.{is_wildcard}
use thalassa_workload_identi.Wif.Find.{find_provider_by_cluster_id}
use thalassa_workload_identi.Wif.Workload.{delete_workload_identity}
use thalassa_workload_identi.Wif.Spec.{provider_in}
use thalassa_workload_identi.Wif.Spec.Reads.{find_provider_by_cluster_id_lem}

-- `bindingDesired`
pub record BindingDesired : Type 0 where
  pub namespace : Text
  pub service_account : Text
  pub policy_ref : Text
  pub policy_id : Text
  pub role_ref : Text
  pub scopes : List Text
  pub name_override : Text
  pub delete_resources : Bool
  pub identity_config_map : Bool

unfoldable pub validate_desired : BindingDesired → Result (Unit {0})
validate_desired d =
    let role = trim_space d.role_ref in
    let policy = trim_space d.policy_ref in
    if is_empty (trim_space d.namespace) || is_empty (trim_space d.service_account)
    then err binding_names_required
    else if is_empty role && is_empty policy
    then err policy_ref_or_role_ref_required
    else if is_wildcard role || is_wildcard policy
    then err wildcard_ref
    else ok tt

-- The identity that was resolved before goes before the reference.
abbrev pub policy_to_delete : BindingDesired → Text
policy_to_delete d =
    if is_empty (trim_space d.policy_id) then d.policy_ref else trim_space d.policy_id

module _ (c : IamClient) (cluster_identity : Text) where
  abbrev pub delete_under :
      BindingDesired → FederatedIdentityProvider → c.State → Result (Unit {0}) × c.State
  delete_under d provider s =
      let issuer = normalize_issuer provider.provider_issuer in
      if is_empty issuer
      then (ok tt, s)
      else delete_workload_identity c d.namespace d.service_account issuer d.role_ref
          (policy_to_delete d) s

  -- What follows the search for the provider.
  abbrev pub with_provider :
      BindingDesired → Result FederatedIdentityProvider × c.State → Result (Unit {0}) × c.State
  with_provider d (ok provider, s) = delete_under d provider s
  with_provider d (err e, s) =
      if is_provider_not_ready e
      then (ok tt, s)
      else (err (wrapped resolve_provider_for_delete e), s)

  unfoldable pub delete_cloud_resources : BindingDesired → M c.State (Unit {0})
  delete_cloud_resources d s = with_provider d (find_provider_by_cluster_id c cluster_identity s)

-- Over a lawful service, if the search for the provider of the cluster fails, the cleanup of a binding
-- changes nothing: it succeeds where the provider is not ready, and else fails with that error.
pub delete_cloud_resources-no_provider :
    (c : IamClient) (L : IsLawful c) (cluster_identity : Text) (d : BindingDesired) (s : c.State)
    {e : Error}
    → provider_in (L.view s) cluster_identity ≡ err e
    → delete_cloud_resources c cluster_identity d s ≡ (
        if is_provider_not_ready e
        then (ok tt, s)
        else (err (wrapped resolve_provider_for_delete e), s))
unfolding delete_cloud_resources
delete_cloud_resources-no_provider c L cluster_identity d s missing =
    rw (find_provider_by_cluster_id_lem c L cluster_identity s, missing)

-- What a binding must have.
pub record IsDesired (d : BindingDesired) : Type 0 where
  pub namespace : trim_space d.namespace ≢ []
  pub service_account : trim_space d.service_account ≢ []
  pub ref : (trim_space d.role_ref ≢ []) ⊎ (trim_space d.policy_ref ≢ [])
  pub no_wild_role : trim_space d.role_ref ≢ codes "*"
  pub no_wild_policy : trim_space d.policy_ref ≢ codes "*"

-- A binding is accepted exactly when it names a service account, and a role or a policy, neither of
-- them the wildcard.
pub validate_desired_iff : (d : BindingDesired) → (validate_desired d ≡ ok tt) ↔ IsDesired d
unfolding validate_desired
validate_desired_iff d = ground (
  arith,
  is_empty_iff (trim_space d.namespace),
  is_empty_iff (trim_space d.service_account),
  is_empty_iff (trim_space d.role_ref),
  is_empty_iff (trim_space d.policy_ref),
  text_eq_iff (trim_space d.role_ref) (codes "*"),
  text_eq_iff (trim_space d.policy_ref) (codes "*"),
)
