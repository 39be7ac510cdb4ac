-- ===== src/Wif/Labels.antt =====
-- Ownership labels and annotation switches of internal/wif/subject.go.
pub mod Laws
use thalassa_workload_identi.Common.{
  ◌≡◌, Bool, true, false, ◌&&◌, List, [], ◌∷◌, is_nil, all, if◌then◌else◌,
}
use thalassa_workload_identi.Text.Eq.{Text, codes, text_eq}
use thalassa_workload_identi.Text.Trim.{trim_space}
use thalassa_workload_identi.Text.Fold.{equal_fold}
use thalassa_workload_identi.Dict.{Dict, get}
use thalassa_workload_identi.Wif.Keys.{
  label_managed_by, value_managed_by, label_wif_key, label_wif_vcs, value_vcs_kubernetes,
  label_k8s_namespace, label_k8s_service_account, annotation_enabled, annotation_delete_resources,
}

unfoldable pub ownership_labels : Text → Text → Text → Dict
ownership_labels key namespace sa_name =
    (label_managed_by, value_managed_by)
    ∷ (label_wif_key, key)
    ∷ (label_wif_vcs, value_vcs_kubernetes)
    ∷ (label_k8s_namespace, namespace)
    ∷ (label_k8s_service_account, sa_name)
    ∷ []

-- One round of the loop over `want`.
abbrev pub has_label : Dict → Text × Text → Bool
has_label have (k, v) = text_eq (get k have) v

unfoldable pub labels_match : Dict → Dict → Bool
labels_match have want = if is_nil want then false else all (has_label have) want

unfoldable pub is_enabled : Dict → Bool
is_enabled annotations = equal_fold (trim_space (get annotation_enabled annotations)) (codes "true")

unfoldable pub delete_resources : Dict → Bool
delete_resources annotations =
    equal_fold (trim_space (get annotation_delete_resources annotations)) (codes "true")
