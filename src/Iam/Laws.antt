-- ===== src/Iam/Laws.antt =====
-- What the program relies on of a lawful IAM service: reads answer from a view of the state and
-- change nothing, and a write changes the one part of the view that it is about. A lawful service
-- may still refuse any write.
use thalassa_workload_identi.Common.{◌≡◌, true, Option, none, some, List, any}
use thalassa_workload_identi.Text.Eq.{Text}
use thalassa_workload_identi.Dict.{Dict}
use thalassa_workload_identi.Iam.{
  FederatedIdentityProvider, ServiceAccount, FederatedIdentity, OrganisationRole, IamPolicy,
  Binding, CreateServiceAccountRequest, CreateFederatedIdentityRequest,
  UpdateFederatedIdentityRequest, CreateBindingRequest, Reply, answer, IamClient,
}
use thalassa_workload_identi.Wif.Labels.{labels_match}
use thalassa_workload_identi.Wif.Find.{first_labelled, binds}

-- What can be read, by request.
pub record View : Type 0 where
  pub providers : Dict → List FederatedIdentityProvider
  pub accounts : Dict → List ServiceAccount
  pub identities : Dict → List FederatedIdentity
  pub role : Text → Reply (Option OrganisationRole)
  pub roles : List OrganisationRole
  pub policy : Text → Reply (Option IamPolicy)
  pub policies : List IamPolicy
  pub role_bindings : Text → List Binding
  pub policy_bindings : Text → List Binding

abbrev pub account_in : View → Dict → Option ServiceAccount
account_in v want = first_labelled (λ sa. sa.labels) want (v.accounts want)

abbrev pub identity_in : View → Dict → Option FederatedIdentity
identity_in v want = first_labelled (λ fi. fi.labels) want (v.identities want)

-- What creating and updating a federated identity put into it.
pub record IsCreated (r : CreateFederatedIdentityRequest) (fi : FederatedIdentity) : Type 0 where
  pub name : fi.name ≡ r.name
  pub description : fi.description ≡ r.description
  pub labels : fi.labels ≡ r.labels
  pub annotations : fi.annotations ≡ r.annotations
  pub provider_subject : fi.provider_subject ≡ r.provider_subject
  pub trusted_audiences : fi.trusted_audiences ≡ r.trusted_audiences
  pub audience_match_mode : fi.audience_match_mode ≡ r.audience_match_mode
  pub allowed_scopes : fi.allowed_scopes ≡ r.allowed_scopes

pub record IsUpdated (r : UpdateFederatedIdentityRequest) (old fi : FederatedIdentity)
    : Type 0 where
  pub identity : fi.identity ≡ old.identity
  pub provider_subject : fi.provider_subject ≡ old.provider_subject
  pub name : fi.name ≡ r.name
  pub description : fi.description ≡ r.description
  pub labels : fi.labels ≡ r.labels
  pub annotations : fi.annotations ≡ r.annotations
  pub trusted_audiences : fi.trusted_audiences ≡ r.trusted_audiences
  pub audience_match_mode : fi.audience_match_mode ≡ r.audience_match_mode
  pub allowed_scopes : fi.allowed_scopes ≡ r.allowed_scopes

pub record IsLawful (c : IamClient) : Type 0 where
  pub view : c.State → View
  pub read_providers :
      (want : Dict) (s : c.State)
      → c.list_federated_identity_providers want s ≡ (answer ((view s).providers want), s)
  pub read_accounts :
      (want : Dict) (s : c.State)
      → c.list_service_accounts want s ≡ (answer ((view s).accounts want), s)
  pub read_identities :
      (want : Dict) (s : c.State)
      → c.list_federated_identities want s ≡ (answer ((view s).identities want), s)
  pub read_role : (id : Text) (s : c.State) → c.get_organisation_role id s ≡ ((view s).role id, s)
  pub read_roles : (s : c.State) → c.list_organisation_roles s ≡ (answer (view s).roles, s)
  pub read_policy : (id : Text) (s : c.State) → c.get_iam_policy id s ≡ ((view s).policy id, s)
  pub read_policies : (s : c.State) → c.list_iam_policies s ≡ (answer (view s).policies, s)
  pub read_role_bindings :
      (id : Text) (s : c.State)
      → c.list_role_bindings id s ≡ (answer ((view s).role_bindings id), s)
  pub read_policy_bindings :
      (id : Text) (s : c.State)
      → c.list_iam_policy_bindings id s ≡ (answer ((view s).policy_bindings id), s)
  -- A service account that is created where none had its labels is the one that they find.
  pub create_account :
      (r : CreateServiceAccountRequest) (s : c.State) {sa : ServiceAccount} {t : c.State}
      → c.create_service_account r s ≡ (answer sa, t)
      → labels_match r.labels r.labels ≡ true
      → account_in (view s) r.labels ≡ none
      → (view t ≡ record (view s) { accounts = (view t).accounts })
        × (account_in (view t) r.labels ≡ some sa)
  pub create_identity :
      (r : CreateFederatedIdentityRequest) (s : c.State) {fi : FederatedIdentity} {t : c.State}
      → c.create_federated_identity r s ≡ (answer fi, t)
      → labels_match r.labels r.labels ≡ true
      → identity_in (view s) r.labels ≡ none
      → (view t ≡ record (view s) { identities = (view t).identities })
        × (identity_in (view t) r.labels ≡ some fi)
        × IsCreated r fi
  pub update_identity :
      (old : FederatedIdentity) (r : UpdateFederatedIdentityRequest) (s : c.State)
      {fi : FederatedIdentity} {t : c.State}
      → c.update_federated_identity old.identity r s ≡ (answer fi, t)
      → labels_match r.labels r.labels ≡ true
      → identity_in (view s) r.labels ≡ some old
      → (view t ≡ record (view s) { identities = (view t).identities })
        × (identity_in (view t) r.labels ≡ some fi)
        × IsUpdated r old fi
  pub create_role_binding :
      (role : Text) (r : CreateBindingRequest) (s : c.State) {b : Binding} {t : c.State}
      → c.create_role_binding role r s ≡ (answer b, t)
      → (view t ≡ record (view s) { role_bindings = (view t).role_bindings })
        × (any (binds r.service_account_identity) ((view t).role_bindings role) ≡ true)
  pub create_policy_binding :
      (policy : Text) (r : CreateBindingRequest) (s : c.State) {b : Binding} {t : c.State}
      → c.create_iam_policy_binding policy r s ≡ (answer b, t)
      → (view t ≡ record (view s) { policy_bindings = (view t).policy_bindings })
        × (any (binds r.service_account_identity) ((view t).policy_bindings policy) ≡ true)
