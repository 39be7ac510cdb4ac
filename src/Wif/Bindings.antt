-- ===== src/Wif/Bindings.antt =====
-- The binding steps of internal/wif/ensure.go: a role or a policy for a service account.
use thalassa_workload_identi.Common.{Bool, true, false, ◌&&◌, List, [], ◌∷◌, ◌++◌, if◌then◌else◌}
use thalassa_workload_identi.Text.Eq.{Text, codes, cut}
use thalassa_workload_identi.Dict.{Dict}
use thalassa_workload_identi.Errors.{
  Context, list_role_bindings, delete_role_binding, list_iam_policy_bindings,
  delete_iam_policy_binding,
}
use thalassa_workload_identi.Iam.{
  ServiceAccount, OrganisationRole, IamPolicy, Binding, CreateBindingRequest, IamClient,
}
use thalassa_workload_identi.Iam.Monad.{M, pure, call, wrapping, ◌>>=◌, ◌>>◌}
use thalassa_workload_identi.Wif.Keys.{label_managed_by, value_managed_by}
use thalassa_workload_identi.Wif.Labels.{labels_match}
use thalassa_workload_identi.Wif.Find.{binds, has_role_binding_for_sa, has_policy_binding_for_sa}

unfoldable pub binding_name : Text → Text
binding_name key = cut 63 (codes "wif-k8s-" ++ key)

abbrev pub role_binding_request : Text → Text → Dict → CreateBindingRequest
role_binding_request sa_identity key labels = record {
  name = binding_name key;
  description = codes "WIF binding for Thalassa SA " ++ sa_identity;
  labels = labels;
  service_account_identity = sa_identity;
}

abbrev pub policy_binding_request : Text → Text → Dict → CreateBindingRequest
policy_binding_request sa_identity key labels = record {
  name = binding_name key;
  description = codes "WIF policy binding for Thalassa SA " ++ sa_identity;
  labels = labels;
  service_account_identity = sa_identity;
}

abbrev pub managed : Dict
managed = (label_managed_by, value_managed_by) ∷ []

-- What `deleteRoleBindingForSA` and `deletePolicyBindingForSA` delete: the controller's own
-- bindings of the service account.
abbrev pub is_ours : Text → Binding → Bool
is_ours sa_identity b = binds sa_identity b && labels_match b.labels managed

module _ (c : IamClient) where
  unfoldable pub ensure_role_binding :
      OrganisationRole → ServiceAccount → Text → Dict → M c.State (Unit {0})
  ensure_role_binding role sa key labels = do
    bound ← has_role_binding_for_sa c role.identity sa.identity
    elim bound [
      | true ↦ pure tt
      | false ↦ do
        _ ← call (c.create_role_binding role.identity (role_binding_request sa.identity key labels))
        pure tt
    ]

  unfoldable pub ensure_policy_binding :
      IamPolicy → ServiceAccount → Text → Dict → M c.State (Unit {0})
  ensure_policy_binding policy sa key labels = do
    bound ← has_policy_binding_for_sa c policy.identity sa.identity
    elim bound [
      | true ↦ pure tt
      | false ↦ do
        _ ← call (
            c.create_iam_policy_binding policy.identity
              (policy_binding_request sa.identity key labels))
        pure tt
    ]

  -- The loop over the bindings: one deletion for each that is ours, until one fails.
  unfoldable pub delete_each :
      Context → (Text → M c.State (Unit {0})) → Text → List Binding → M c.State (Unit {0})
  delete_each context delete sa_identity [] = pure tt
  delete_each context delete sa_identity (b ∷ bs) = do
    (if is_ours sa_identity b then wrapping context (delete b.identity) else pure tt)
    delete_each context delete sa_identity bs

  unfoldable pub delete_role_binding_for_sa : Text → Text → M c.State (Unit {0})
  unfolding delete_each
  delete_role_binding_for_sa role_identity sa_identity = do
    bindings ← wrapping list_role_bindings (call (c.list_role_bindings role_identity))
    delete_each delete_role_binding (λ id. call (c.delete_role_binding role_identity id))
        sa_identity bindings

  unfoldable pub delete_policy_binding_for_sa : Text → Text → M c.State (Unit {0})
  unfolding delete_each
  delete_policy_binding_for_sa policy_identity sa_identity = do
    bindings ← wrapping list_iam_policy_bindings (call (c.list_iam_policy_bindings policy_identity))
    delete_each delete_iam_policy_binding
        (λ id. call (c.delete_iam_policy_binding policy_identity id)) sa_identity bindings
