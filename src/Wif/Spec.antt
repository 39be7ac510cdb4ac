-- ===== src/Wif/Spec.antt =====
-- What an ensured workload identity is, said of the view of the IAM service alone.
pub mod Bound
pub mod Deletion
pub mod Gone
pub mod Reads
pub mod Refinement
pub mod Same
pub mod Settled
pub mod Stale
pub mod Steps
use thalassa_workload_identi.Common.{
  ◌≡◌, ◌⊎◌, Bool, true, false, Option, none, some, List, [], ◌∷◌, any, if◌then◌else◌,
}
use thalassa_workload_identi.Text.Eq.{Text, codes, is_empty}
use thalassa_workload_identi.Text.Trim.{trim_space}
use thalassa_workload_identi.Errors.{
  Error, cluster_identity_required, policy_ref_required, Result, ok, err,
}
use thalassa_workload_identi.Config.Allowlist.{check_ref_allowlist}
use thalassa_workload_identi.Iam.{
  FederatedIdentityProvider, ServiceAccount, FederatedIdentity, OrganisationRole, IamPolicy, Reply,
  answer, refusal,
}
use thalassa_workload_identi.Iam.Laws.{View, account_in, identity_in}
use thalassa_workload_identi.Wif.Scopes.{IamConstants}
use thalassa_workload_identi.Wif.Find.{
  cluster_labels, scan_providers, one_provider, first_role, scan_policies, with_identity, binds,
}
use thalassa_workload_identi.Wif.Ensure.{
  EnsureInput, EnsureResult, validate_ensure_input, fi_needs_update, description_of_fi,
}
use thalassa_workload_identi.Wif.Workload.{Names, derive_names}

abbrev pub answered : {A : Type 0} → Reply (Option A) → Option A
answered (answer a) = a
answered (refusal _) = none

unfoldable pub provider_in : View → Text → Result FederatedIdentityProvider
provider_in v cluster_identity =
    let want = cluster_labels (trim_space cluster_identity) in
    if is_empty (trim_space cluster_identity)
    then err cluster_identity_required
    else one_provider (trim_space cluster_identity) (scan_providers want (v.providers want) 0 none)

unfoldable pub role_in : View → Text → Result OrganisationRole
role_in v ref = elim (answered (v.role (trim_space ref))) [
  | some role ↦ ok role
  | none ↦ first_role (trim_space ref) v.roles
]

unfoldable pub policy_in : View → Text → Result IamPolicy
policy_in v ref =
    if is_empty (trim_space ref)
    then err policy_ref_required
    else elim (with_identity (answered (v.policy (trim_space ref)))) [
      | some policy ↦ ok policy
      | none ↦ scan_policies (trim_space ref) v.policies none
    ]

-- The policy that is asked for: allowed, and bound to the account.
pub record PolicyBound (v : View) (input : EnsureInput) (sa : ServiceAccount) (id : Text)
    : Type 0 where
  pub policy : IamPolicy
  pub resolved : policy_in v (trim_space input.policy_ref) ≡ ok policy
  pub allowed :
      check_ref_allowlist
        (codes "policy")
        (trim_space input.policy_ref)
        input.allowed_policies
        (policy.identity ∷ policy.slug ∷ policy.name ∷ [])
      ≡ ok tt
  pub bound : any (binds sa.identity) (v.policy_bindings policy.identity) ≡ true
  pub recorded : id ≡ policy.identity

pub record RoleBound (v : View) (input : EnsureInput) (sa : ServiceAccount) : Type 0 where
  pub role : OrganisationRole
  pub resolved : role_in v (trim_space input.role_ref) ≡ ok role
  pub allowed :
      check_ref_allowlist
        (codes "role")
        (trim_space input.role_ref)
        input.allowed_roles
        (role.identity ∷ role.slug ∷ role.name ∷ [])
      ≡ ok tt
  pub bound : any (binds sa.identity) (v.role_bindings role.identity) ≡ true

-- No policy is asked for, and none is recorded; or it is bound. So for the role.
abbrev pub PolicySettled : View → EnsureInput → ServiceAccount → Text → Type 0
PolicySettled v input sa id =
    ((trim_space input.policy_ref ≡ []) × (id ≡ [])) ⊎ PolicyBound v input sa id

abbrev pub RoleSettled : View → EnsureInput → ServiceAccount → Type 0
RoleSettled v input sa = (trim_space input.role_ref ≡ []) ⊎ RoleBound v input sa

-- Whether the federated identity differs from what the input and the names ask for.
abbrev pub outdated : IamConstants → EnsureInput → Names → FederatedIdentity → Bool
outdated k input n fi =
    fi_needs_update k fi n.fi_name (description_of_fi n.subject) n.subject input.scopes
      input.trusted_audiences n.labels

-- The input is valid, the cluster has its provider, and the account, the federated identity and the
-- bindings that the input asks for are there, as the result records them.
pub record IsProvisioned (k : IamConstants) (input : EnsureInput) (r : EnsureResult) (v : View)
    : Type 0 where
  pub valid : validate_ensure_input input ≡ ok tt
  pub provider : FederatedIdentityProvider
  pub provided : provider_in v input.cluster_identity ≡ ok provider
  pub names : Names
  pub derived : derive_names input provider ≡ ok names
  pub account : ServiceAccount
  pub account_found : account_in v names.labels ≡ some account
  pub identity : FederatedIdentity
  pub identity_found : identity_in v names.labels ≡ some identity
  pub identity_current : outdated k input names identity ≡ false
  pub policy : PolicySettled v input account r.policy_id
  pub role : RoleSettled v input account
  pub provider_id : r.provider_id ≡ provider.identity
  pub service_account_id : r.service_account_id ≡ account.identity
  pub federated_identity_id : r.federated_identity_id ≡ identity.identity
  pub issuer : r.issuer ≡ names.issuer
  pub subject : r.subject ≡ names.subject
  pub key : r.key ≡ names.key
