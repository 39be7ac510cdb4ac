-- ===== src/Wif/Spec/Steps.antt =====
-- What each step of an ensure run leaves behind in a lawful service, and that a step finds nothing
-- to do where its result is there already.
use thalassa_workload_identi.Common.{
  ◌≡◌, refl, ◌∙◌, inl, inr, true, false, some, List, Bool-cases, Option-cases,
}
use thalassa_workload_identi.Text.Eq.{Text}
use thalassa_workload_identi.Dict.{Dict}
use thalassa_workload_identi.Errors.{ok}
use thalassa_workload_identi.Iam.{
  FederatedIdentityProvider, ServiceAccount, FederatedIdentity, IamClient,
}
use thalassa_workload_identi.Iam.Monad.{received-eq-ok, pure-eq-ok}
use thalassa_workload_identi.Iam.Laws.{IsLawful, account_in, identity_in}
use thalassa_workload_identi.Wif.Labels.{labels_match}
use thalassa_workload_identi.Wif.Scopes.{IamConstants}
use thalassa_workload_identi.Wif.Ensure.{
  ensure_service_account, ensure_federated_identity, fi_needs_update, description_of_fi,
}
use thalassa_workload_identi.Wif.Ensure.Laws.{written-IsCurrent}
use thalassa_workload_identi.Wif.Spec.Reads.{find_by_labels_sa_lem, find_by_labels_fi_lem}

module _ (k : IamConstants) (c : IamClient) (L : IsLawful c) where
  open L use {view}

  -- The account is there afterwards, and nothing but the accounts has changed.
  pub ensure_service_account_lem :
      (name subject ns k8s_sa : Text) (labels : Dict) (s : c.State) {sa : ServiceAccount}
      {t : c.State}
      → labels_match labels labels ≡ true
      → ensure_service_account k c name subject ns k8s_sa labels s ≡ (ok sa, t)
      → (view t ≡ record (view s) { accounts = (view t).accounts })
        × (account_in (view t) labels ≡ some sa)
  unfolding ensure_service_account
  ensure_service_account_lem name subject ns k8s_sa labels s m e =
      elim (Option-cases (account_in (view s) labels)) [
        | inl missing ↦
            let e' = rw (find_by_labels_sa_lem c L labels s, missing) at e in
            L.create_account _ s (received-eq-ok _ e') m missing
        | inr (found, there) ↦
            let (same, still) = pure-eq-ok (rw (find_by_labels_sa_lem c L labels s, there) at e) in
            rw (← same, ← still) (refl, there)
      ]

  -- An account that is there is returned, with no change.
  pub ensure_service_account_found :
      (name subject ns k8s_sa : Text) (labels : Dict) (s : c.State) {sa : ServiceAccount}
      → account_in (view s) labels ≡ some sa
      → ensure_service_account k c name subject ns k8s_sa labels s ≡ (ok sa, s)
  unfolding ensure_service_account
  ensure_service_account_found name subject ns k8s_sa labels s there =
      rw (find_by_labels_sa_lem c L labels s, there)

  -- The federated identity is there afterwards and needs no update, and nothing else has changed.
  pub ensure_federated_identity_lem :
      (provider : FederatedIdentityProvider) (sa : ServiceAccount) (fi_name subject : Text)
      (scopes audiences : List Text) (labels : Dict) (s : c.State) {fi : FederatedIdentity}
      {t : c.State}
      → labels_match labels labels ≡ true
      → ((old : FederatedIdentity)
          → identity_in (view s) labels ≡ some old
          → old.provider_subject ≡ subject)
      → ensure_federated_identity k c provider sa fi_name subject scopes audiences labels s
        ≡ (ok fi, t)
      → (view t ≡ record (view s) { identities = (view t).identities })
        × (identity_in (view t) labels ≡ some fi)
        × (fi_needs_update k fi fi_name (description_of_fi subject) subject scopes audiences labels
            ≡ false)
  unfolding ensure_federated_identity
  ensure_federated_identity_lem provider sa fi_name subject scopes audiences labels s {fi} {t} m
        kept e =
      elim (Option-cases (identity_in (view s) labels)) [
        | inl missing ↦
            let e' = rw (find_by_labels_fi_lem c L labels s, missing) at e in
            let (frame, found, w) = L.create_identity _ s (received-eq-ok _ e') m missing in
            (
              frame,
              found,
              written-IsCurrent k fi _ _ _ _ _ _ w.allowed_scopes w.trusted_audiences
                  w.audience_match_mode w.name w.description w.labels m w.annotations
                  w.provider_subject,
            )
        | inr (old, there) ↦
            let e' = rw (find_by_labels_fi_lem c L labels s, there) at e in
            elim (Bool-cases (
              fi_needs_update k old fi_name (description_of_fi subject) subject scopes audiences
                labels)) [
                  | inl stale ↦
                      let (frame, found, w) =
                        L.update_identity old _ s (received-eq-ok _ (rw stale at e')) m there in
                      (
                        frame,
                        found,
                        written-IsCurrent k fi _ _ _ _ _ _ w.allowed_scopes w.trusted_audiences
                            w.audience_match_mode w.name w.description w.labels m w.annotations
                            (w.provider_subject ∙ kept old there),
                      )
                  | inr current ↦
                      let (same, still) = pure-eq-ok (rw current at e') in
                      rw (← same, ← still) (refl, there, current)
                ]
      ]

  -- One that is there and needs no update is returned, with no change.
  pub ensure_federated_identity_found :
      (provider : FederatedIdentityProvider) (sa : ServiceAccount) (fi_name subject : Text)
      (scopes audiences : List Text) (labels : Dict) (s : c.State) {fi : FederatedIdentity}
      → identity_in (view s) labels ≡ some fi
      → fi_needs_update k fi fi_name (description_of_fi subject) subject scopes audiences labels
        ≡ false
      → ensure_federated_identity k c provider sa fi_name subject scopes audiences labels s
        ≡ (ok fi, s)
  unfolding ensure_federated_identity
  ensure_federated_identity_found provider sa fi_name subject scopes audiences labels s there
        current =
      rw (find_by_labels_fi_lem c L labels s, there, current)
