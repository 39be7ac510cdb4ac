-- ===== src/Controller/Annotations.antt =====
-- What internal/controller/binding_reconcile.go writes to the annotations of a service account, and
-- takes out of them again.
use thalassa_workload_identi.Common.{
  ◌≡◌, sym, ◌∙◌, Bool, true, false, ◌||◌, Option, none, some, List, [], ◌∷◌, if◌then◌else◌,
  Bool-cases, inl, inr,
}
use thalassa_workload_identi.Text.Eq.{Text, text_eq, is_empty, is_empty_iff}
use thalassa_workload_identi.Text.Trim.{trim_space}
use thalassa_workload_identi.Text.Trim.Laws.{trim_space-nil}
use thalassa_workload_identi.Dict.{Dict, lookup, get, insert, erase, get-insert, get-erase}
use thalassa_workload_identi.Wif.Keys.{
  annotation_service_account_id, annotation_organisation_id, annotation_project_id,
  annotation_federated_identity_id, annotation_provider_id, annotation_policy_id,
}
use thalassa_workload_identi.Webhook.Mutate.{complete, identity_from_service_account}

-- The annotations that `annotateServiceAccountIdentity` leaves.
unfoldable pub annotate_service_account_identity : Text → Text → Text → Dict → Dict
annotate_service_account_identity account organisation project annotations =
    let named =
      insert annotation_organisation_id organisation
        (insert annotation_service_account_id account annotations) in
    if is_empty project
    then erase annotation_project_id named
    else insert annotation_project_id project named

-- `if _, ok := m[k]; ok { delete(m, k); changed = true }`
abbrev pub is_there : Option Text → Bool
is_there none = false
is_there (some v) = true

abbrev pub clear_keys : List Text → Dict → Dict × Bool
clear_keys [] d = (d, false)
clear_keys (k ∷ ks) d =
    let (e, changed) = clear_keys ks (erase k d) in (e, is_there (lookup k d) || changed)

-- The annotations that `clearServiceAccountIdentityAnnotations` leaves, and whether it updates the
-- service account.
unfoldable pub clear_service_account_identity_annotations : Dict → Dict × Bool
clear_service_account_identity_annotations = clear_keys (
    annotation_service_account_id ∷ annotation_organisation_id ∷ annotation_project_id
    ∷ annotation_federated_identity_id ∷ annotation_provider_id ∷ annotation_policy_id ∷ [])

identity_of_get :
    (d : Dict) {o a p : Text}
    → get annotation_organisation_id d ≡ o
    → get annotation_service_account_id d ≡ a
    → get annotation_project_id d ≡ p
    → identity_from_service_account d ≡ record {
      organisation_id = trim_space o;
      service_account_id = trim_space a;
      project_id = trim_space p;
    }
identity_of_get d e1 e2 e3 = rw (e1, e2, e3)

-- What the controller writes is what the webhook reads, but for surrounding space.
pub annotate-identity_from_service_account :
    (account organisation project : Text) (annotations : Dict)
    → identity_from_service_account
        (annotate_service_account_identity account organisation project annotations)
      ≡ record {
        organisation_id = trim_space organisation;
        service_account_id = trim_space account;
        project_id = trim_space project;
      }
unfolding annotate_service_account_identity text_eq
annotate-identity_from_service_account account organisation project annotations =
    elim (Bool-cases (is_empty project)) [
      | inl blank ↦ rw blank (
          identity_of_get _
            (get-erase annotation_project_id annotation_organisation_id _
              ∙ get-insert annotation_organisation_id annotation_organisation_id organisation _)
            (get-erase annotation_project_id annotation_service_account_id _
              ∙ (get-insert annotation_organisation_id annotation_service_account_id organisation _
                  ∙ get-insert annotation_service_account_id annotation_service_account_id account
                      _))
            (get-erase annotation_project_id annotation_project_id _
              ∙ sym ((is_empty_iff project).0 blank)))
      | inr set ↦ rw set (
          identity_of_get _
            (get-insert annotation_project_id annotation_organisation_id project _
              ∙ get-insert annotation_organisation_id annotation_organisation_id organisation _)
            (get-insert annotation_project_id annotation_service_account_id project _
              ∙ (get-insert annotation_organisation_id annotation_service_account_id organisation _
                  ∙ get-insert annotation_service_account_id annotation_service_account_id account
                      _))
            (get-insert annotation_project_id annotation_project_id project _))
    ]

-- Once the annotations are cleared, the webhook finds no complete identity.
pub clear-complete :
    (annotations : Dict)
    → complete
        (identity_from_service_account (clear_service_account_identity_annotations annotations).0)
      ≡ false
unfolding clear_service_account_identity_annotations complete text_eq
clear-complete annotations =
    let gone =
      get-erase annotation_policy_id annotation_organisation_id _
      ∙ (get-erase annotation_provider_id annotation_organisation_id _
          ∙ (get-erase annotation_federated_identity_id annotation_organisation_id _
              ∙ (get-erase annotation_project_id annotation_organisation_id _
                  ∙ get-erase annotation_organisation_id annotation_organisation_id
                      (erase annotation_service_account_id annotations)))) in
    rw (gone, trim_space-nil) (rw trim_space-nil)
