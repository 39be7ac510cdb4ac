-- ===== src/Wif/DeletionTests.antt =====
-- Deletions in the in-memory service.
use thalassa_workload_identi.Common.{◌≡◌, refl, true, some, [], ◌∷◌}
use thalassa_workload_identi.Text.Eq.{Text, codes, text_eq, contains_byte, cut}
use thalassa_workload_identi.Text.Trim.{trim_space, trim_suffix}
use thalassa_workload_identi.Text.Fold.{lower, to_lower, fold_case, equal_fold}
use thalassa_workload_identi.Dict.{lookup, get}
use thalassa_workload_identi.Errors.{ok}
use thalassa_workload_identi.Sha256.{hex_digit, hex_encode, sum256}
use thalassa_workload_identi.Iam.{Binding}
use thalassa_workload_identi.Iam.Memory.{Store, memory_client}
use thalassa_workload_identi.Iam.Memory.Laws.{memory_client-IsLawful, memory_client-view, view_of}
use thalassa_workload_identi.Iam.Memory.Deletion.{memory_client-IsDeleting}
use thalassa_workload_identi.Wif.Keys.{label_managed_by, value_managed_by}
use thalassa_workload_identi.Wif.Labels.{labels_match, ownership_labels}
use thalassa_workload_identi.Wif.Subject.{
  build_kubernetes_subject, normalize_issuer, resource_key_input, resource_key,
}
use thalassa_workload_identi.Wif.Find.{
  first_labelled, find_by_labels_sa, find_by_labels_fi, first_role, resolve_organisation_role,
  scan_policies, resolve_iam_policy,
}
use thalassa_workload_identi.Wif.Bindings.{
  delete_each, delete_role_binding_for_sa, delete_policy_binding_for_sa,
}
use thalassa_workload_identi.Wif.Workload.{
  delete_found_fi, delete_policy_bindings, delete_role_bindings, delete_found_sa,
  delete_workload_identity,
}
use thalassa_workload_identi.Wif.Spec.Deletion.{
  deprovisioned, delete_workload_identity-deprovisioned,
}
use thalassa_workload_identi.Wif.Spec.Gone.{not_ours}
use thalassa_workload_identi.Wif.Tests.{empty_store}

abbrev ours : Binding
ours = record {
  identity = codes "b-1";
  labels = (label_managed_by, value_managed_by) ∷ [];
  service_account = some (codes "sa-1");
}

abbrev theirs : Binding
theirs = record { identity = codes "b-2"; labels = []; service_account = some (codes "sa-1") }

abbrev bound : Store
bound = record empty_store {
  policy_bindings = (codes "pol-1", ours) ∷ (codes "pol-1", theirs) ∷ [];
}

abbrev pub unbound : Store
unbound = record empty_store { policy_bindings = (codes "pol-1", theirs) ∷ [] }

deleted :
    delete_policy_binding_for_sa memory_client (codes "pol-1") (codes "sa-1") bound
    ≡ (ok tt, unbound)
unfolding delete_policy_binding_for_sa delete_each labels_match get lookup text_eq
deleted = refl

theirs_not_ours :
    not_ours (codes "sa-1") (codes "b-2") ((view_of bound).policy_bindings (codes "pol-1")) ≡ true
unfolding labels_match get lookup text_eq
theirs_not_ours = refl

theirs_not_ours_in_view :
    not_ours
      (codes "sa-1")
      (codes "b-2")
      ((memory_client-IsLawful.view bound).policy_bindings (codes "pol-1"))
    ≡ true
theirs_not_ours_in_view = rw memory_client-view theirs_not_ours

abbrev subject : Text
subject = codes "system:serviceaccount:prod:api"

abbrev issuer : Text
issuer = codes "https://issuer.example"

built : build_kubernetes_subject (codes "prod") (codes "api") ≡ ok subject
unfolding build_kubernetes_subject trim_space contains_byte
built = refl

abbrev pub labelled : Store
labelled = record bound {
  accounts =
      record {
        identity = codes "sa-1";
        labels =
            ownership_labels (resource_key (codes "prod") (codes "api") subject issuer)
              (codes "prod") (codes "api");
      }
      ∷ [];
}

run :
    delete_workload_identity memory_client
      (codes "prod")
      (codes "api")
      issuer
      []
      (codes "write")
      labelled
    ≡ (ok tt, unbound)
unfolding delete_workload_identity delete_found_fi delete_found_sa delete_policy_bindings
    delete_role_bindings delete_policy_binding_for_sa delete_role_binding_for_sa delete_each
    labels_match ownership_labels get lookup text_eq contains_byte cut trim_space trim_suffix lower
    to_lower fold_case equal_fold hex_digit hex_encode sum256 build_kubernetes_subject
    normalize_issuer resource_key_input resource_key first_labelled find_by_labels_sa
    find_by_labels_fi first_role resolve_organisation_role scan_policies resolve_iam_policy
run = refl

delete_workload_identity-deprovisioned_example :
    memory_client-IsLawful.view unbound
    ≡ deprovisioned []
        (codes "write")
        (ownership_labels
          (resource_key (codes "prod") (codes "api") subject issuer)
          (codes "prod")
          (codes "api"))
        (memory_client-IsLawful.view labelled)
delete_workload_identity-deprovisioned_example =
    delete_workload_identity-deprovisioned memory_client memory_client-IsLawful
      memory_client-IsDeleting (codes "prod") (codes "api") issuer [] (codes "write") subject
      labelled built run
