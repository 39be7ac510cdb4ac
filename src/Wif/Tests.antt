-- ===== src/Wif/Tests.antt =====
-- Runs of internal/wif on the in-memory service.
use thalassa_workload_identi.Common.{◌≡◌, refl, ◌≢◌, some, [], ◌∷◌}
use thalassa_workload_identi.Text.Eq.{Text, codes, text_eq, contains_byte, cut}
use thalassa_workload_identi.Dict.{Dict, get, lookup}
use thalassa_workload_identi.Errors.{Result, ok, err}
use thalassa_workload_identi.Text.Trim.{trim_space, trim_suffix}
use thalassa_workload_identi.Wif.Labels.{labels_match, ownership_labels}
use thalassa_workload_identi.Wif.Subject.{
  normalize_issuer, build_kubernetes_subject, default_resource_names, resource_key,
  resource_key_input, sanitize_name,
}
use thalassa_workload_identi.Config.Allowlist.{add_candidate, check_ref_allowlist, ref_allowed}
use thalassa_workload_identi.Sha256.{hex_digit, hex_encode, sum256}
use thalassa_workload_identi.Text.Fold.{equal_fold, fold_case, lower, to_lower}
use thalassa_workload_identi.Text.Order.{list_eq, sort, text_le}
use thalassa_workload_identi.Wif.Bindings.{binding_name, ensure_policy_binding, ensure_role_binding}
use thalassa_workload_identi.Iam.{FederatedIdentityProvider, FederatedIdentity}
use thalassa_workload_identi.Iam.Laws.{identity_in}
use thalassa_workload_identi.Iam.Memory.{Store, memory_client}
use thalassa_workload_identi.Iam.Memory.Laws.{memory_client-IsLawful, memory_client-view, view_of}
use thalassa_workload_identi.Wif.Scopes.{IamConstants}
use thalassa_workload_identi.Wif.Find.{
  cluster_labels, find_provider_by_cluster_id, find_by_labels_sa, find_by_labels_fi,
  resolve_iam_policy, first_labelled, first_role, has_policy_binding_for_sa,
  has_role_binding_for_sa, one_provider, resolve_organisation_role, scan_policies, scan_providers,
}
use thalassa_workload_identi.Wif.Ensure.{
  EnsureInput, EnsureResult, validate_ensure_input, audiences_equal, fi_needs_update, scopes_equal,
  ensure_service_account, ensure_federated_identity,
}
use thalassa_workload_identi.Wif.Workload.{
  ensure_workload_identity, ensure_resources, ensure_policy, bind_policy, bind_role, derive_names,
  ensure_role,
}
use thalassa_workload_identi.Wif.Spec.{IsProvisioned}
use thalassa_workload_identi.Wif.Spec.Refinement.{
  SubjectKept, ensure_workload_identity-IsProvisioned, ensure_workload_identity_idem,
  ensure_workload_identity_settled,
}

abbrev pub constants : IamConstants
constants = record {
  scope_api_read = codes "api:read";
  scope_api_write = codes "api:write";
  scope_kubernetes = codes "kubernetes";
  scope_object_storage = codes "objectStorage";
  audience_match_mode_any = codes "any";
}

abbrev pub cluster : Text
cluster = codes "cluster-1"

abbrev pub provider : FederatedIdentityProvider
provider = record {
  identity = codes "fip-1";
  provider_issuer = codes "https://issuer.example/";
  labels = cluster_labels cluster;
}

abbrev pub empty_store : Store
empty_store = record {
  next = codes "id";
  providers = [];
  accounts = [];
  identities = [];
  roles = record { identity = codes "role-1"; slug = codes "reader"; name = codes "Reader" } ∷ [];
  policies = record { identity = codes "pol-1"; slug = codes "write"; name = codes "Write" } ∷ [];
  role_bindings = [];
  policy_bindings = [];
}

abbrev pub store : Store
store = record empty_store { providers = provider ∷ [] }

abbrev pub input : EnsureInput
input = record {
  namespace = codes "prod";
  service_account = codes "api";
  role_ref = codes "reader";
  policy_ref = codes "POL-1";
  name_override = [];
  scopes = codes "openid" ∷ [];
  trusted_audiences = codes "https://api.example" ∷ [];
  cluster_identity = cluster;
  allowed_policies = codes "write" ∷ [];
  allowed_roles = [];
}

abbrev pub nothing : EnsureResult
nothing = record {
  provider_id = [];
  service_account_id = [];
  federated_identity_id = [];
  policy_id = [];
  issuer = [];
  subject = [];
  key = [];
}

abbrev pub outcome : Result EnsureResult → EnsureResult
outcome (ok r) = r
outcome (err x) = nothing

abbrev pub result : EnsureResult
result = outcome (ensure_workload_identity constants memory_client input store).0

abbrev pub provisioned : Store
provisioned = (ensure_workload_identity constants memory_client input store).1

pub run : ensure_workload_identity constants memory_client input store ≡ (ok result, provisioned)
unfolding ensure_workload_identity validate_ensure_input audiences_equal fi_needs_update
    scopes_equal ensure_service_account ensure_federated_identity trim_space trim_suffix text_eq
    contains_byte cut find_provider_by_cluster_id find_by_labels_sa find_by_labels_fi
    resolve_iam_policy first_labelled first_role has_policy_binding_for_sa has_role_binding_for_sa
    one_provider resolve_organisation_role scan_policies scan_providers labels_match
    ownership_labels get lookup normalize_issuer build_kubernetes_subject default_resource_names
    resource_key resource_key_input sanitize_name ensure_resources ensure_policy bind_policy
    bind_role derive_names ensure_role add_candidate check_ref_allowlist ref_allowed hex_digit
    hex_encode sum256 equal_fold fold_case lower to_lower list_eq sort text_le binding_name
    ensure_policy_binding ensure_role_binding
run = refl

pub result-service_account_id : result.service_account_id ≡ codes "id"
unfolding ensure_workload_identity validate_ensure_input audiences_equal fi_needs_update
    scopes_equal ensure_service_account ensure_federated_identity trim_space trim_suffix text_eq
    contains_byte cut find_provider_by_cluster_id find_by_labels_sa find_by_labels_fi
    resolve_iam_policy first_labelled first_role has_policy_binding_for_sa has_role_binding_for_sa
    one_provider resolve_organisation_role scan_policies scan_providers labels_match
    ownership_labels get lookup normalize_issuer build_kubernetes_subject default_resource_names
    resource_key resource_key_input sanitize_name ensure_resources ensure_policy bind_policy
    bind_role derive_names ensure_role add_candidate check_ref_allowlist ref_allowed hex_digit
    hex_encode sum256 equal_fold fold_case lower to_lower list_eq sort text_le binding_name
    ensure_policy_binding ensure_role_binding
result-service_account_id = refl

no_identity : (want : Dict) {fi : FederatedIdentity} → identity_in (view_of store) want ≢ some fi
unfolding first_labelled
no_identity want e = cc

-- No federated identity is there to have another subject.
pub subject_kept :
    (i : EnsureInput)
    → SubjectKept constants memory_client memory_client-IsLawful i
        (memory_client-IsLawful.view store)
subject_kept i p n fi found derived there =
    absurd (no_identity n.labels (rw memory_client-view at there))

ensure_workload_identity-IsProvisioned_example :
    IsProvisioned constants input result (memory_client-IsLawful.view provisioned)
ensure_workload_identity-IsProvisioned_example =
    ensure_workload_identity-IsProvisioned constants memory_client memory_client-IsLawful input
      store (subject_kept input) run

ensure_workload_identity_idem_example :
    ensure_workload_identity constants memory_client input provisioned ≡ (ok result, provisioned)
ensure_workload_identity_idem_example =
    ensure_workload_identity_idem constants memory_client memory_client-IsLawful input store
      (subject_kept input) run

provisioned_again : IsProvisioned constants input result (memory_client-IsLawful.view provisioned)
provisioned_again =
    ensure_workload_identity-IsProvisioned constants memory_client memory_client-IsLawful input
      store (subject_kept input) run

ensure_workload_identity_settled_example :
    ensure_workload_identity constants memory_client input provisioned ≡ (ok result, provisioned)
ensure_workload_identity_settled_example =
    ensure_workload_identity_settled constants memory_client memory_client-IsLawful input result
      provisioned provisioned_again
