-- ===== src/Wif/Spec/Reads.antt =====
-- Over a lawful service the lookups give what the view holds, and change nothing.
use thalassa_workload_identi.Common.{◌≡◌, any, arith, Bool-cases, inl, inr}
use thalassa_workload_identi.Text.Eq.{Text, is_empty}
use thalassa_workload_identi.Text.Trim.{trim_space}
use thalassa_workload_identi.Dict.{Dict}
use thalassa_workload_identi.Errors.{ok}
use thalassa_workload_identi.Iam.{IamClient}
use thalassa_workload_identi.Iam.Laws.{IsLawful, account_in, identity_in}
use thalassa_workload_identi.Wif.Find.{
  find_provider_by_cluster_id, find_by_labels_sa, find_by_labels_fi, resolve_organisation_role,
  resolve_iam_policy, has_role_binding_for_sa, has_policy_binding_for_sa, binds,
}
use thalassa_workload_identi.Wif.Spec.{provider_in, role_in, policy_in}

module _ (c : IamClient) (L : IsLawful c) where
  open L use {view}

  pub find_provider_by_cluster_id_lem :
      (id : Text) (s : c.State) → find_provider_by_cluster_id c id s ≡ (provider_in (view s) id, s)
  unfolding find_provider_by_cluster_id provider_in
  find_provider_by_cluster_id_lem id s = elim (Bool-cases (is_empty (trim_space id))) [
    | inl blank ↦ rw blank
    | inr full ↦ rw full (rw L.read_providers)
  ]

  pub find_by_labels_sa_lem :
      (want : Dict) (s : c.State) → find_by_labels_sa c want s ≡ (ok (account_in (view s) want), s)
  unfolding find_by_labels_sa
  find_by_labels_sa_lem want s = rw L.read_accounts

  pub find_by_labels_fi_lem :
      (want : Dict) (s : c.State) → find_by_labels_fi c want s ≡ (ok (identity_in (view s) want), s)
  unfolding find_by_labels_fi
  find_by_labels_fi_lem want s = rw L.read_identities

  pub resolve_organisation_role_lem :
      (ref : Text) (s : c.State) → resolve_organisation_role c ref s ≡ (role_in (view s) ref, s)
  unfolding resolve_organisation_role role_in
  resolve_organisation_role_lem ref s =
      ground (arith, L.read_role (trim_space ref) s, L.read_roles s)

  pub resolve_iam_policy_lem :
      (ref : Text) (s : c.State) → resolve_iam_policy c ref s ≡ (policy_in (view s) ref, s)
  unfolding resolve_iam_policy policy_in
  resolve_iam_policy_lem ref s = ground (arith, L.read_policy (trim_space ref) s, L.read_policies s)

  pub has_role_binding_for_sa_lem :
      (role sa : Text) (s : c.State)
      → has_role_binding_for_sa c role sa s ≡ (ok (any (binds sa) ((view s).role_bindings role)), s)
  unfolding has_role_binding_for_sa
  has_role_binding_for_sa_lem role sa s = rw L.read_role_bindings

  pub has_policy_binding_for_sa_lem :
      (policy sa : Text) (s : c.State)
      → has_policy_binding_for_sa c policy sa s
        ≡ (ok (any (binds sa) ((view s).policy_bindings policy)), s)
  unfolding has_policy_binding_for_sa
  has_policy_binding_for_sa_lem policy sa s = rw L.read_policy_bindings
