-- ===== src/Wif/Find.antt =====
-- The lookups of internal/wif/ensure.go: the cluster's identity provider, resources by their
-- labels, roles and policies by a reference, and bindings of a service account.
pub mod Laws
use thalassa_workload_identi.Common.{
  ℕ, ◌+◌, ◌≡◌, Bool, true, false, not, ◌&&◌, ◌||◌, Option, none, some, List, [], ◌∷◌, ltb, ◌==◌,
  any, if◌then◌else◌,
}
use thalassa_workload_identi.Text.Eq.{Text, text_eq, is_empty}
use thalassa_workload_identi.Text.Trim.{trim_space}
use thalassa_workload_identi.Text.Fold.{equal_fold}
use thalassa_workload_identi.Dict.{Dict}
use thalassa_workload_identi.Errors.{
  Error, cluster_identity_required, provider_not_ready, multiple_providers, role_not_found,
  policy_not_found, policy_ref_required, Context, list_organisation_roles, list_iam_policies,
  Result, ok, err,
}
use thalassa_workload_identi.Iam.{
  FederatedIdentityProvider, ServiceAccount, FederatedIdentity, OrganisationRole, IamPolicy,
  Binding, IamClient,
}
use thalassa_workload_identi.Iam.Monad.{M, pure, throw, lift, call, try_call, wrapping, ◌>>=◌, ◌>>◌}
use thalassa_workload_identi.Wif.Keys.{label_kubernetes_cluster_id}
use thalassa_workload_identi.Wif.Labels.{labels_match}

abbrev pub cluster_labels : Text → Dict
cluster_labels cluster_identity = (label_kubernetes_cluster_id, cluster_identity) ∷ []

-- The loop of `FindProviderByClusterID`: how many providers match, and the last that does.
unfoldable pub scan_providers :
    Dict
    → List FederatedIdentityProvider
    → ℕ
    → Option FederatedIdentityProvider
    → ℕ × Option FederatedIdentityProvider
scan_providers want [] n found = (n, found)
scan_providers want (p ∷ ps) n found =
    let hit = labels_match p.labels want in
    scan_providers want ps (if hit then n + 1 else n) (if hit then some p else found)

-- The tests after the loop. With one match there is a provider, so the last case is never met.
unfoldable pub one_provider :
    Text → ℕ × Option FederatedIdentityProvider → Result FederatedIdentityProvider
one_provider cluster_identity (n, found) =
    if n == 0
    then err (provider_not_ready cluster_identity)
    else if ltb 1 n
    then err (multiple_providers cluster_identity)
    else elim found [ some p ↦ ok p | none ↦ err (provider_not_ready cluster_identity) ]

-- The loops of `findByLabelsSA` and `findByLabelsFI`: the first resource whose labels match.
unfoldable pub first_labelled : {A : Type 0} → (A → Dict) → Dict → List A → Option A
first_labelled labels want [] = none
first_labelled labels want (a ∷ rest) =
    if labels_match (labels a) want then some a else first_labelled labels want rest

-- The test of the loop of `resolveOrganisationRole`.
abbrev pub role_is : Text → OrganisationRole → Bool
role_is ref r = equal_fold r.identity ref || equal_fold r.slug ref || equal_fold r.name ref

unfoldable pub first_role : Text → List OrganisationRole → Result OrganisationRole
first_role ref [] = err (role_not_found ref)
first_role ref (r ∷ rs) = if role_is ref r then ok r else first_role ref rs

abbrev pub or_policy_not_found : Text → Option IamPolicy → Result IamPolicy
or_policy_not_found ref none = err (policy_not_found ref)
or_policy_not_found ref (some p) = ok p

abbrev pub policy_alias : Text → IamPolicy → Bool
policy_alias ref p = equal_fold p.slug ref || equal_fold p.name ref

abbrev keep_first : Option IamPolicy → Bool → IamPolicy → Option IamPolicy
keep_first none hit p = if hit then some p else none
keep_first (some q) hit p = some q

-- The loop of `resolveIamPolicy` and what follows it: an identity wins at once, else the first
-- policy whose slug or name fits.
unfoldable pub scan_policies : Text → List IamPolicy → Option IamPolicy → Result IamPolicy
scan_policies ref [] by_slug_or_name = or_policy_not_found ref by_slug_or_name
scan_policies ref (p ∷ ps) by_slug_or_name =
    let rest = scan_policies ref ps (keep_first by_slug_or_name (policy_alias ref p) p) in
    if equal_fold p.identity ref then ok p else rest

-- The test of the binding loops: the binding has the service account.
abbrev pub binds : Text → Binding → Bool
binds sa_identity b = elim b.service_account [ some id ↦ text_eq id sa_identity | none ↦ false ]

abbrev pub with_identity : Option IamPolicy → Option IamPolicy
with_identity none = none
with_identity (some p) = if is_empty (trim_space p.identity) then none else some p

module _ (c : IamClient) where
  unfoldable pub find_provider_by_cluster_id : Text → M c.State FederatedIdentityProvider
  unfolding scan_providers one_provider
  find_provider_by_cluster_id cluster_identity =
      let id = trim_space cluster_identity in
      if is_empty id then throw cluster_identity_required else do
        list ← call (c.list_federated_identity_providers (cluster_labels id))
        lift (one_provider id (scan_providers (cluster_labels id) list 0 none))

  unfoldable pub find_by_labels_sa : Dict → M c.State (Option ServiceAccount)
  unfolding first_labelled
  find_by_labels_sa want = do
    list ← call (c.list_service_accounts want)
    pure (first_labelled (λ sa. sa.labels) want list)

  unfoldable pub find_by_labels_fi : Dict → M c.State (Option FederatedIdentity)
  unfolding first_labelled
  find_by_labels_fi want = do
    list ← call (c.list_federated_identities want)
    pure (first_labelled (λ fi. fi.labels) want list)

  search_roles : Text → M c.State OrganisationRole
  unfolding first_role
  search_roles ref = do
    roles ← wrapping list_organisation_roles (call c.list_organisation_roles)
    lift (first_role ref roles)

  unfoldable pub resolve_organisation_role : Text → M c.State OrganisationRole
  unfolding search_roles
  resolve_organisation_role ref = do
    found ← try_call (c.get_organisation_role (trim_space ref))
    elim found [ some role ↦ pure role | none ↦ search_roles (trim_space ref) ]

  search_policies : Text → M c.State IamPolicy
  unfolding scan_policies
  search_policies ref = do
    policies ← wrapping list_iam_policies (call c.list_iam_policies)
    lift (scan_policies ref policies none)

  unfoldable pub resolve_iam_policy : Text → M c.State IamPolicy
  unfolding search_policies
  resolve_iam_policy ref = if is_empty (trim_space ref) then throw policy_ref_required else do
    found ← try_call (c.get_iam_policy (trim_space ref))
    elim (with_identity found) [
      | some policy ↦ pure policy
      | none ↦ search_policies (trim_space ref)
    ]

  unfoldable pub has_role_binding_for_sa : Text → Text → M c.State Bool
  has_role_binding_for_sa role_identity sa_identity = do
    bindings ← call (c.list_role_bindings role_identity)
    pure (any (binds sa_identity) bindings)

  unfoldable pub has_policy_binding_for_sa : Text → Text → M c.State Bool
  has_policy_binding_for_sa policy_identity sa_identity = do
    bindings ← call (c.list_iam_policy_bindings policy_identity)
    pure (any (binds sa_identity) bindings)
