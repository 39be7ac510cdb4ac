-- ===== src/Api/Rules.antt =====
-- The validation rules in the markers of api/v1beta1/workloadidentitybinding_types.go.
use thalassa_workload_identi.Common.{Bool, ◌&&◌, ◌||◌, not, all}
use thalassa_workload_identi.Text.Eq.{codes, text_eq, is_empty}
use thalassa_workload_identi.Api.{WorkloadIdentityBinding}

-- An optional field of the resource is there exactly when it is not empty.
unfoldable pub admitted : WorkloadIdentityBinding → Bool
admitted b =
    not (is_empty b.service_account_name)
    && (not (is_empty b.policy_ref) || not (is_empty b.role_ref))
    && (is_empty b.policy_ref || not (text_eq b.policy_ref (codes "*")))
    && (is_empty b.role_ref || not (text_eq b.role_ref (codes "*")))
    && all (λ s. not (text_eq s (codes "*"))) b.scopes
