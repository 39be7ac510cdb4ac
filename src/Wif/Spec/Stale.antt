-- ===== src/Wif/Spec/Stale.antt =====
-- A federated identity with another subject: the update cannot change the subject, so it stays
-- outdated.
use thalassa_workload_identi.Common.{◌≡◌, ◌≢◌, sym, ◌∙◌, true, some, List, Bool-cases, inl, inr}
use thalassa_workload_identi.Text.Eq.{Text}
use thalassa_workload_identi.Dict.{Dict}
use thalassa_workload_identi.Errors.{ok}
use thalassa_workload_identi.Iam.{
  FederatedIdentityProvider, ServiceAccount, FederatedIdentity, IamClient,
}
use thalassa_workload_identi.Iam.Monad.{received-eq-ok}
use thalassa_workload_identi.Iam.Laws.{IsLawful, identity_in}
use thalassa_workload_identi.Wif.Labels.{labels_match}
use thalassa_workload_identi.Wif.Scopes.{IamConstants}
use thalassa_workload_identi.Wif.Ensure.{
  ensure_federated_identity, fi_needs_update, description_of_fi,
}
use thalassa_workload_identi.Wif.Ensure.Laws.{fi_needs_update_iff}
use thalassa_workload_identi.Wif.Spec.Reads.{find_by_labels_fi_lem}

other_subject-fi_needs_update :
    (k : IamConstants) (fi : FederatedIdentity) (name desc subject : Text)
    (scopes audiences : List Text) (labels : Dict)
    → fi.provider_subject ≢ subject
    → fi_needs_update k fi name desc subject scopes audiences labels ≡ true
other_subject-fi_needs_update k fi name desc subject scopes audiences labels other =
    elim (Bool-cases (fi_needs_update k fi name desc subject scopes audiences labels)) [
      | inl stale ↦ stale
      | inr current ↦
          let c = (fi_needs_update_iff k fi name desc subject scopes audiences labels).0 current in
          absurd (other c.subject_same)
    ]

-- Over a lawful service: if the federated identity with the labels has another subject, and the labels
-- match themselves, then a run that succeeds leaves
-- one there that has still that subject and needs an update again.
pub ensure_federated_identity-other_subject :
    (k : IamConstants) (c : IamClient) (L : IsLawful c) (provider : FederatedIdentityProvider)
    (sa : ServiceAccount) (fi_name subject : Text) (scopes audiences : List Text) (labels : Dict)
    (s : c.State) {old fi : FederatedIdentity} {t : c.State}
    → labels_match labels labels ≡ true
    → identity_in (L.view s) labels ≡ some old
    → old.provider_subject ≢ subject
    → ensure_federated_identity k c provider sa fi_name subject scopes audiences labels s
      ≡ (ok fi, t)
    → (identity_in (L.view t) labels ≡ some fi)
      × (fi.provider_subject ≡ old.provider_subject)
      × (fi_needs_update k fi fi_name (description_of_fi subject) subject scopes audiences labels
          ≡ true)
unfolding ensure_federated_identity
ensure_federated_identity-other_subject k c L provider sa fi_name subject scopes audiences labels s
      {old} {fi} m there other e =
    let stale =
      other_subject-fi_needs_update k old fi_name (description_of_fi subject) subject scopes
        audiences labels other in
    let e' = rw (find_by_labels_fi_lem c L labels s, there) at e in
    let (_, found, w) = L.update_identity old _ s (received-eq-ok _ (rw stale at e')) m there in
    (
      found,
      w.provider_subject,
      other_subject-fi_needs_update k fi fi_name (description_of_fi subject) subject scopes
          audiences labels (λ same. other (sym w.provider_subject ∙ same)),
    )
